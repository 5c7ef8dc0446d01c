-- ===== src/Tests/Sorted.antt =====
-- The sorted lists of midl.c on concrete data: search, merge and insertion.
use lmdb_js.Prelude.{ℕ, ◌≡◌, refl, some, [], ◌∷◌, arith, leb, Block}
use lmdb_js.Tests.Data.{cells}
use lmdb_js.Midl.Idl.{Idl, um_max}
use lmdb_js.Midl.Append.{items, IsValid}
use lmdb_js.Midl.Search.{midl_search, Locates, midl_search-Locates}
use lmdb_js.Midl.Merge.{xmerge}
use lmdb_js.Midl.Merge.Loop.{merge_lists}
use lmdb_js.Midl.Merge.Refines.{xmerge-merge_lists}
use lmdb_js.Midl.Id2l.{Id2, set_mid2, mid2l_insert}
use lmdb_js.Midl.Id2l.Insert.{Inserts, insert-Inserts}

-- 9, 5, with room for more
abbrev two_ids : Idl
two_ids = record { cap = 8; cell = cells (2 ∷ 9 ∷ 5 ∷ []) }

-- 8, 3, 1
abbrev three_ids : Idl
three_ids = record { cap = 6; cell = cells (3 ∷ 8 ∷ 3 ∷ 1 ∷ []) }

midl_search-Locates_example : (x : ℕ) × (midl_search two_ids 7 ≡ some x) × Locates two_ids 7 x
midl_search-Locates_example =
    midl_search-Locates two_ids 7 (omega arith, omega arith) (λ i j p q r. ground arith)
      (omega arith)

xmerge-merge_lists_example :
    (r : Idl) × (xmerge two_ids three_ids ≡ some r)
    × IsValid r
    × (r.cap ≡ two_ids.cap)
    × (items r ≡ merge_lists (items two_ids) (items three_ids))
xmerge-merge_lists_example =
    xmerge-merge_lists two_ids three_ids (omega arith) (omega arith) (omega arith)
      (λ x h. ground arith)

-- IDs 4 and 6
abbrev two_pages : Block Id2
two_pages = record { cap = 3; cell = λ i. record { mid = cells (2 ∷ 4 ∷ 6 ∷ []) i; mptr = 100 } }

abbrev page_five : Id2
page_five = record { mid = 5; mptr = 200 }

insert-Inserts_example :
    Inserts
      (λ e. e.mid)
      set_mid2
      (λ n. leb um_max n)
      two_pages
      page_five
      (mid2l_insert two_pages page_five)
insert-Inserts_example =
    insert-Inserts (λ e. e.mid) set_mid2 (λ e n. refl) two_pages page_five (omega arith)
      (omega arith) (λ i j p q r. ground arith) (λ n. leb um_max n) (λ h. omega arith)
