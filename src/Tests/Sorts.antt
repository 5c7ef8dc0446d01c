-- ===== src/Tests/Sorts.antt =====
-- `mdb_midl_sort` on concrete lists.
use lmdb_js.Prelude.{◌≡◌, refl, some, [], ◌∷◌, ◌>>=◌, Ends, arith}
use lmdb_js.Tests.Data.{cells}
use lmdb_js.Midl.Idl.{Idl}
use lmdb_js.Midl.Append.{items, IsValid}
use lmdb_js.Midl.Sort.{
  midl_sort, sort_loop, split, choose_median, settle_median, partition, scan_up, scan_down,
  insert_all, insert_one, shift,
}
use lmdb_js.Midl.Sort.Sorts.{IsSortOf, midl_sort-IsSortOf}

-- 12 IDs, so that there is a split
abbrev twelve : Idl
twelve = record {
  cap = 12;
  cell = cells (12 ∷ 5 ∷ 9 ∷ 1 ∷ 7 ∷ 7 ∷ 30 ∷ 2 ∷ 8 ∷ 4 ∷ 6 ∷ 11 ∷ 3 ∷ []);
}

sorted_twelve :
    (midl_sort twelve >>= λ b. some (items b))
    ≡ some (1 ∷ 2 ∷ 3 ∷ 4 ∷ 5 ∷ 6 ∷ 7 ∷ 7 ∷ 8 ∷ 9 ∷ 11 ∷ 30 ∷ [])
unfolding midl_sort sort_loop split choose_median settle_median partition scan_up scan_down
    insert_all insert_one shift
sorted_twelve = refl

twelve-IsValid : IsValid twelve
twelve-IsValid = omega arith

midl_sort-IsSortOf_example : Ends (IsSortOf twelve) (midl_sort twelve)
midl_sort-IsSortOf_example = midl_sort-IsSortOf twelve twelve-IsValid (omega arith)
