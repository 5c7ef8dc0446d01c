-- ===== src/Midl/Append.antt =====
-- What `mdb_midl_append`, `_append_list`, `_append_range`, `_need` and `_shrink` of midl.c do to
-- the IDs of a list.
pub mod Batch
use native.Mathlib.Numerals.{add-one}
use lmdb_js.Prelude.{
  ℕ, zero, suc, ◌+◌, ◌-◌, ◌*◌, ◌/◌, ◌^◌, ◌≤◌, ◌<◌, ◌≡◌, ◌⊎◌, inl, inr, refl, ◌∙◌, Bool, true, false,
  Option, none, some, List, [], ◌∷◌, ◌++◌, arith, ltb, leb, ◌==◌, ◌>>=◌, if◌then◌else◌, u32, u64,
  Bool-cases, Block, load, store, update, down, down-update, down-congr, down-append, down-push,
  store-some, copy, copy-Copied,
}
use lmdb_js.Midl.Idl.{
  Idl, count, um_max, enomem, int_to_u64, alloc, shrink, grow, rounded, need, xappend, append,
  append_list, fill, append_range,
}

-- the IDs, the last one first: in a list that is sorted as midl.h says, the smallest first
abbrev pub items : Idl → List ℕ
items l = down l.cell (count l)

-- the count is within the block, and the block within the address space
abbrev pub IsValid : Idl → Type 0
IsValid l = (count l ≤ l.cap) × (l.cap < 2 ^ 60)

-- `realloc` gives no block of 2 ^ 63 bytes
abbrev pub IsLimited : (ℕ → Bool) → Type 0
IsLimited available = (bytes : ℕ) → available bytes ≡ true → bytes < 2 ^ 63

-- The size of a block with room for `cap` IDs.
abbrev pub block_bytes : ℕ → ℕ
block_bytes cap = (cap + 2) * 8

-- The operation ended with code 0 and has put `new` behind the IDs; or it ended with ENOMEM, the
-- list is as it was, its room is less than `least`, and the allocator has refused the block for
-- `more` IDs more. It did not fault.
abbrev pub Appends :
    (available : ℕ → Bool) (l : Idl) (least more : ℕ) (new : List ℕ) → Option (ℕ × Idl) → Type 0
Appends available l least more new none = ⊥
Appends available l least more new (some (rc, r)) =
    ((rc ≡ 0) × IsValid r × (items r ≡ new ++ items l) × (l.cap ≤ r.cap))
    ⊎ ((rc ≡ enomem) × (r ≡ l) × (l.cap < least) × (available (block_bytes (l.cap + more)) ≡ false))

pub u64-small : (n : ℕ) → n < 2 ^ 64 → u64 n ≡ n
u64-small n h = omega arith

module _ (available : ℕ → Bool) (limited : IsLimited available) where
  -- `grow` by `num` makes room for `num` more, or leaves the list alone
  pub grow-cases :
      (l : Idl) (num : ℕ)
      → IsValid l
      → num < 2 ^ 31
      → (grow available l num ≡ (0, record { cap = l.cap + num; cell = l.cell })
          × (l.cap + num < 2 ^ 60))
        ⊎ ((grow available l num ≡ (enomem, l)) × (available (block_bytes (l.cap + num)) ≡ false))
  unfolding grow
  grow-cases l num v h =
      let bytes = u64 (u64 (l.cap + int_to_u64 num + 2) * 8) in
      let whole : int_to_u64 num ≡ num = ground arith in
      let asked : bytes ≡ block_bytes (l.cap + num) = omega arith in
      elim (Bool-cases (available bytes)) [
        | inl e ↦
            let fits : bytes < 2 ^ 63 = limited bytes e in
            let roomy : l.cap + num < 2 ^ 60 = omega arith in
            inl (rw (e, whole, u64-small (l.cap + num) (omega arith)), roomy)
        | inr e ↦ inr (rw e, rw asked at e)
      ]

  xappend-some :
      (l : Idl) (id : ℕ)
      → count l < l.cap
      → l.cap < 2 ^ 60
      → (r : Idl) × (xappend available l id ≡ some r)
        × (r.cap ≡ l.cap)
        × (count r ≡ count l + 1)
        × (items r ≡ id ∷ items l)
  unfolding xappend
  xappend-some l id h k =
      let n = count l in
      let next : u64 (n + 1) ≡ suc n = u64-small (n + 1) (omega arith) ∙ add-one n in
      (
        record { cap = l.cap; cell = update (update l.cell 0 (suc n)) (suc n) id },
        rw (next, store-some l 0 (suc n) (omega arith), ◌>>=◌)
            (store-some (record { cap = l.cap; cell = update l.cell 0 (suc n) }) (suc n) id
              (omega arith)),
        refl,
        ground (arith, add-one n),
        down-push l.cell (update (update l.cell 0 (suc n)) (suc n) id) n _ id (ground arith)
            (ground arith) (λ i p q. ground arith),
      )

  -- in a list with room `xappend` is all that is left to do
  xappend-Appends :
      (l : Idl) (least more cap id : ℕ)
      → count l < cap
      → cap < 2 ^ 60
      → l.cap ≤ cap
      → Appends available l least more
          (id ∷ [])
          (xappend available (record { cap = cap; cell = l.cell }) id >>= λ r. some (0, r))
  xappend-Appends l least more cap id room fits wider =
      let (r, run, same, counted, listed) =
        xappend-some (record { cap = cap; cell = l.cell }) id room fits in
      rw run (inl (refl, (omega arith, omega arith), listed, omega arith))

  -- Appending an ID to a valid list, with an allocator that gives no block of 2 ^ 63 bytes: it
  -- does not fault; with code 0 the ID stands behind the others, the list is valid and has not
  -- lost room; with ENOMEM the list is as it was and full, and the allocator has refused a block
  -- for the default number of IDs more.
  pub append-Appends :
      (l : Idl) (id : ℕ)
      → IsValid l
      → Appends available l (count l + 1) um_max (id ∷ []) (append available l id)
  unfolding append
  append-Appends l id v = elim (Bool-cases (leb l.cap (count l))) [
    | inr room ↦
        rw room (xappend-Appends l (count l + 1) um_max l.cap id (ground arith) v.1 (omega arith))
    | inl full ↦ elim (grow-cases l um_max v (omega arith)) [
      | inl (grown, fits) ↦
          rw (full, grown)
            (xappend-Appends l (count l + 1) um_max (l.cap + um_max) id (omega (arith, v.0)) fits
              (omega arith))
      | inr (failed, why) ↦ rw (full, failed) (inr (refl, refl, ground arith, why))
    ]
  ]
