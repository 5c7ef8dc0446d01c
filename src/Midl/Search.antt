-- ===== src/Midl/Search.antt =====
-- `mdb_midl_search` of midl.c, over lists sorted in descending order.
use lmdb_js.Prelude.{
  ℕ, ◌+◌, ◌^◌, ◌≤◌, ◌<◌, ◌≡◌, ◌⊎◌, inl, inr, arith, compare, Ordering, Option, some, load, ◌>>=◌,
}
use lmdb_js.Midl.Idl.{Idl, count}
use lmdb_js.Midl.Append.{IsValid}
use lmdb_js.Midl.BinarySearch.{search, search-Finds, IsOrdered, Finds}

-- `CMP(ids[cursor], id)`
abbrev pub probe : Idl → ℕ → ℕ → Option Ordering
probe l id i = load l i >>= λ x. some (compare x id)

unfoldable pub midl_search : Idl → ℕ → Option ℕ
midl_search l id = search (probe l id) (count l)

-- greater IDs first, as midl.h asks
abbrev pub IsDescending : Idl → Type 0
IsDescending l = (i j : ℕ) → 1 ≤ i → i < j → j ≤ count l → l.cell j ≤ l.cell i

-- `x` is in 1..count + 1; either it is the place of the ID, or the IDs before it are greater and
-- those from it on are smaller
abbrev pub Locates : Idl → ℕ → ℕ → Type 0
Locates l id x =
    (1 ≤ x)
    × (x ≤ count l + 1)
    × (((x ≤ count l) × (l.cell x ≡ id))
        ⊎ (((i : ℕ) → 1 ≤ i → i < x → id < l.cell i)
            × ((i : ℕ) → x ≤ i → i ≤ count l → l.cell i < id)))

module _ (l : Idl) (id : ℕ) (v : IsValid l) where
  probe-compare : (i : ℕ) → i ≤ count l → probe l id i ≡ some (compare (l.cell i) id)
  probe-compare i h = ground (arith, v.0)

  probe-IsOrdered : IsDescending l → count l + 1 < 2 ^ 32 → IsOrdered (probe l id) (count l)
  probe-IsOrdered desc small = record {
    small = small;
    inside = λ i p q. (compare (l.cell i) id, probe-compare i q);
    down = λ i j p q r e. ground (arith, v.0, desc i j p q r);
    up = λ i j p q r e. ground (arith, v.0, desc i j p q r);
  }

  Finds-Locates : (x : ℕ) → Finds (probe l id) (count l) x → Locates l id x
  Finds-Locates x (inl (p, q, e)) = (p, omega arith, inl (q, ground (arith, v.0)))
  Finds-Locates x (inr (p, q, before, behind)) = (
    p,
    q,
    inr (λ i a b. ground (arith, v.0, before i a b), λ i a b. ground (arith, v.0, behind i a b)),
  )

  -- On a valid descending list of fewer than 2 ^ 32 - 1 IDs the binary search ends without a
  -- fault, at the place of the ID or, if the list does not have it, at the place where the
  -- greater IDs end and the smaller ones begin.
  pub midl_search-Locates :
      IsDescending l → count l + 1 < 2 ^ 32 → (x : ℕ) × (midl_search l id ≡ some x) × Locates l id x
  unfolding midl_search
  midl_search-Locates desc small =
      let (x, run, finds) = search-Finds (probe l id) (count l) (probe-IsOrdered desc small) in
      (x, run, Finds-Locates x finds)
