-- ===== src/Tests/Lists.antt =====
-- The lists of midl.c on concrete data: room and appending.
use Prim.Native.Nat.{bit_or}
use lmdb_js.Prelude.{
  ℕ, ◌+◌, ◌/◌, ◌%◌, update, ◌^◌, ◌≤◌, ◌<◌, ◌≡◌, refl, Bool, some, [], ◌∷◌, arith, ltb,
}
use lmdb_js.Tests.Data.{cells}
use lmdb_js.Midl.Idl.{Idl, um_max, rounded, alloc, shrink, need, append, append_list, append_range}
use lmdb_js.Midl.Append.{items, IsValid, IsLimited, Appends, append-Appends}
use lmdb_js.Midl.Append.Batch.{range, append_list-Appends, append_range-Appends}
use lmdb_js.Midl.Room.{MakesRoom, rounded_bounds, need-MakesRoom, shrink-IsValid}

-- 9, 5
abbrev two_ids : Idl
two_ids = record { cap = 2; cell = cells (2 ∷ 9 ∷ 5 ∷ []) }

-- 8, 3, 1
abbrev three_ids : Idl
three_ids = record { cap = 6; cell = cells (3 ∷ 8 ∷ 3 ∷ 1 ∷ []) }

abbrev enough : ℕ → Bool
enough n = ltb n (2 ^ 63)

enough-IsLimited : IsLimited enough
enough-IsLimited n e = ground arith

two_ids-IsValid : IsValid two_ids
two_ids-IsValid = (omega arith, omega arith)

three_ids-IsValid : IsValid three_ids
three_ids-IsValid = (omega arith, omega arith)

append-Appends_example : Appends enough two_ids 3 um_max (7 ∷ []) (append enough two_ids 7)
append-Appends_example = append-Appends enough enough-IsLimited two_ids 7 two_ids-IsValid

append_list-Appends_example :
    Appends enough two_ids 6 3 (items three_ids) (append_list enough two_ids three_ids)
append_list-Appends_example =
    append_list-Appends enough enough-IsLimited two_ids three_ids two_ids-IsValid three_ids-IsValid
      (omega arith)

append_range-Appends_example :
    Appends enough three_ids 8 (bit_or 5 um_max) (range 20 5) (append_range enough three_ids 20 5)
append_range-Appends_example =
    append_range-Appends enough enough-IsLimited three_ids 20 5 three_ids-IsValid (omega arith)
      (omega arith)

need-MakesRoom_example : MakesRoom enough two_ids 3 (need enough two_ids 3)
need-MakesRoom_example = need-MakesRoom enough two_ids 3 (omega arith)

rounded_bounds_example :
    (1000 + 2 < rounded 1000) × (rounded 1000 ≤ 1000 + 1000 / 4 + 258) × (rounded 1000 % 256 ≡ 0)
rounded_bounds_example = rounded_bounds 1000 (omega arith)

abbrev fresh : Idl
fresh = record { cap = 5; cell = update (λ i. 77) 0 0 }

alloc_five : alloc enough (λ i. 77) 5 ≡ some fresh
unfolding alloc
alloc_five = refl

-- a list of three IDs in a block that has grown large
abbrev large : Idl
large = record { cap = 200000; cell = three_ids.cell }

shrink-IsValid_example :
    IsValid (shrink enough large)
    × (items (shrink enough large) ≡ items large)
    × ((shrink enough large).cap ≤ large.cap)
shrink-IsValid_example = shrink-IsValid enough large (omega arith, omega arith) (omega arith)
