-- ===== src/Tests/Keys.antt =====
-- The key comparison of src/ordered-binary.cpp on concrete keys.
use lmdb_js.Prelude.{◌≡◌, refl, [], ◌∷◌, arith}
use lmdb_js.Prelude.Int.{pos, negsuc, sign}
use lmdb_js.OrderedBinary.{Val, ntohl, compare_from, compare_fast}
use lmdb_js.OrderedBinary.Words.{lexicographic}
use lmdb_js.OrderedBinary.Order.{compare_fast-lexicographic}
use lmdb_js.Tests.Data.{cells}

abbrev short_key : Val
short_key = record { size = 2; byte = cells (97 ∷ 98 ∷ []) }

abbrev long_key : Val
long_key = record { size = 5; byte = cells (97 ∷ 98 ∷ 99 ∷ 100 ∷ 101 ∷ []) }

compare_short : compare_fast short_key long_key ≡ negsuc 0
unfolding compare_fast compare_from ntohl
compare_short = refl

compare_long : compare_fast long_key short_key ≡ pos 1
unfolding compare_fast compare_from ntohl
compare_long = refl

compare_fast-lexicographic_example :
    sign (compare_fast short_key long_key)
    ≡ lexicographic (97 ∷ 98 ∷ []) (97 ∷ 98 ∷ 99 ∷ 100 ∷ 101 ∷ [])
compare_fast-lexicographic_example =
    compare_fast-lexicographic short_key long_key (omega arith) (omega arith) (λ i. ground arith)
      (λ i. ground arith) (λ i p q. ground arith)
