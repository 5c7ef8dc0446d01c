-- ===== src/Midl/Room.antt =====
-- `mdb_midl_need`, `mdb_midl_alloc` and `mdb_midl_shrink` of midl.c: the room of a list.
use lmdb_js.Prelude.{
  ℕ, ◌+◌, ◌-◌, ◌*◌, ◌/◌, ◌%◌, ◌^◌, ◌≤◌, ◌<◌, ◌≡◌, ◌⊎◌, refl, Bool, inl, inr, false, some, [], arith,
  ltb, u32, Bool-cases,
}
use lmdb_js.Midl.Idl.{Idl, count, um_max, enomem, alloc, shrink, rounded, need}
use lmdb_js.Midl.Append.{items, IsValid}

-- The rounding of a size below 2 ^ 31 leaves room for the two cells that are no IDs, adds at most
-- a quarter and 258, and ends on a multiple of 256.
pub rounded_bounds :
    (num : ℕ)
    → num < 2 ^ 31
    → (num + 2 < rounded num) × (rounded num ≤ num + num / 4 + 258) × (rounded num % 256 ≡ 0)
unfolding rounded
rounded_bounds num h = omega arith

-- The result of a call for room for `num` more IDs. The IDs are as they were. With code 0 there is
-- room, and a new block is a multiple of 256 cells; with ENOMEM the list is as it was, too small,
-- and there was no memory.
abbrev pub MakesRoom : (available : ℕ → Bool) (l : Idl) (num : ℕ) → ℕ × Idl → Type 0
MakesRoom available l num (rc, r) =
    (r.cell ≡ l.cell)
    × (l.cap ≤ r.cap)
    × (((rc ≡ 0) × (count l + num ≤ r.cap) × ((r.cap ≡ l.cap) ⊎ ((r.cap + 2) % 256 ≡ 0)))
        ⊎ ((rc ≡ enomem)
            × (r ≡ l)
            × (l.cap < count l + num)
            × (available (rounded (count l + num) * 8) ≡ false)))

module _ (available : ℕ → Bool) where
  -- A call for room for more IDs, with fewer than 2 ^ 31 in all, keeps the IDs. With code 0
  -- there is room, and a new block is a multiple of 256 cells; with ENOMEM the list is as it
  -- was and too small, and the allocator has refused the rounded size.
  pub need-MakesRoom :
      (l : Idl) (num : ℕ)
      → count l + num < 2 ^ 31
      → MakesRoom available l num (need available l num)
  unfolding need
  need-MakesRoom l num h =
      let total : u32 (num + count l) ≡ count l + num = omega arith in
      let (over, under, whole) = rounded_bounds (count l + num) h in
      let cap : u32 (rounded (count l + num) + 2 ^ 32 - 2) ≡ rounded (count l + num) - 2 =
        omega arith in
      elim (Bool-cases (ltb l.cap (count l + num))) [
        | inr room ↦ rw (total, room) (refl, omega arith, inl (refl, ground arith, inl refl))
        | inl full ↦ elim (Bool-cases (available (rounded (count l + num) * 8))) [
          | inl more ↦
              rw (total, full, more, cap)
                (refl, ground arith, inl (refl, omega arith, inr (omega arith)))
          | inr refused ↦
              rw (total, full, refused) (refl, omega arith, inr (refl, refl, ground arith, refl))
        ]
      ]

  -- a list that `mdb_midl_alloc` gives is empty and has the room asked for
  pub alloc-items :
      (junk : ℕ → ℕ) (num : ℕ) (l : Idl)
      → num < 2 ^ 60
      → alloc available junk num ≡ some l
      → IsValid l × (items l ≡ []) × (l.cap ≡ num)
  unfolding alloc
  alloc-items junk num l h e = ground arith

  -- Shrinking a valid list that is not longer than the default size keeps its IDs and its
  -- validity, and gives it no more room than before.
  pub shrink-IsValid :
      (l : Idl)
      → IsValid l
      → count l ≤ um_max
      → IsValid (shrink available l)
        × (items (shrink available l) ≡ items l)
        × ((shrink available l).cap ≤ l.cap)
  unfolding shrink
  shrink-IsValid l v h = ground arith
