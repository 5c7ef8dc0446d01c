-- ===== src/Tests/Search.antt =====
-- The key comparisons and the page search of mdb.c on concrete keys.
use lmdb_js.Prelude.{ℕ, ◌+◌, ◌≡◌, refl, inr, compare, some, [], ◌∷◌, arith}
use lmdb_js.OrderedBinary.{Val}
use lmdb_js.OrderedBinary.Words.{lexicographic}
use lmdb_js.Pages.Compare.{cmp_memn, cmp_memnr, cmp_cint, cmp_long}
use lmdb_js.Pages.Orders.{cmp_memn-lexicographic, cmp_memnr-lexicographic}
use lmdb_js.Pages.Integers.{cmp_cint-cmp_long}
use lmdb_js.Pages.Search.{
  Cmp, custom, Page, leaf, Place, compare_by, choose, probe_page, node_search,
}
use lmdb_js.Pages.Locates.{IsPlace, IsMonotone, node_search-IsPlace}
use lmdb_js.Tests.Data.{cells}

abbrev one : Val
one = record { size = 3; byte = cells (1 ∷ 2 ∷ 3 ∷ []) }

abbrev two : Val
two = record { size = 2; byte = cells (1 ∷ 3 ∷ []) }

cmp_memn-lexicographic_example : cmp_memn one two ≡ lexicographic (1 ∷ 2 ∷ 3 ∷ []) (1 ∷ 3 ∷ [])
cmp_memn-lexicographic_example = cmp_memn-lexicographic one two (omega arith) (omega arith)

cmp_memnr-lexicographic_example : cmp_memnr one two ≡ lexicographic (3 ∷ 2 ∷ 1 ∷ []) (3 ∷ 1 ∷ [])
cmp_memnr-lexicographic_example = cmp_memnr-lexicographic one two

abbrev four_a : Val
four_a = record { size = 4; byte = cells (0 ∷ 9 ∷ 1 ∷ 0 ∷ []) }

abbrev four_b : Val
four_b = record { size = 4; byte = cells (7 ∷ 0 ∷ 2 ∷ 0 ∷ []) }

abbrev eight_a : Val
eight_a = record { size = 8; byte = cells (0 ∷ 9 ∷ 1 ∷ 0 ∷ 5 ∷ 6 ∷ 7 ∷ 8 ∷ []) }

abbrev eight_b : Val
eight_b = record { size = 8; byte = cells (7 ∷ 0 ∷ 2 ∷ 0 ∷ 5 ∷ 6 ∷ 7 ∷ 8 ∷ []) }

cmp_cint-cmp_long_example : cmp_cint eight_a eight_b ≡ some (cmp_long eight_a eight_b)
cmp_cint-cmp_long_example =
    cmp_cint-cmp_long eight_a eight_b (λ i. ground arith) (λ i. ground arith) refl

-- keys of one byte, by their byte
abbrev byte_key : ℕ → Val
byte_key n = record { size = 1; byte = cells (n ∷ []) }

-- the keys 10, 12, 14
abbrev page : Page
page = record { kind = leaf; num_keys = 3; key_at = λ i. byte_key (10 + i + i) }

abbrev by_byte : Cmp
by_byte = custom (λ a b. compare (a.byte 0) (b.byte 0))

page-IsMonotone : IsMonotone (probe_page by_byte page (byte_key 13)) 0 3
unfolding compare_by choose
page-IsMonotone = record {
  inside = λ i p q. (compare 13 (10 + i + i), refl);
  below = λ i j p q r e. ground arith;
  above = λ i j p q r e. ground arith;
}

node_search-IsPlace_example :
    (r : Place) × (node_search by_byte page (byte_key 13) ≡ some r)
    × IsPlace (probe_page by_byte page (byte_key 13)) 0 3 r
node_search-IsPlace_example =
    node_search-IsPlace by_byte page (byte_key 13) (inr (omega arith)) page-IsMonotone
