-- ===== src/Midl/BinarySearch.antt =====
-- The binary search that `mdb_midl_search`, `mdb_mid2l_search` and `mdb_mid3l_search` of midl.c
-- have in common. They differ in the comparison, which `probe` stands for: `probe i` is
-- `CMP(ids[i], id)` or `CMP(id, ids[i].mid)`, and `none` where `i` is outside the allocation.
use native.Mathlib.Decide.{ℕ_discrete}
use lmdb_js.Prelude.{
  ℕ, zero, suc, ◌+◌, ◌-◌, ◌/◌, ◌^◌, ◌≤◌, ◌<◌, ◌≡◌, ◌⊎◌, Ordering, Option, none, some, arith, u32,
  refl, inl, inr, Ordering-cases,
}

-- `if( val > 0 ) ++cursor; return cursor;`
abbrev pub settle : Ordering → ℕ → ℕ
settle Ordering.gt cursor = u32 (cursor + 1)
settle _ cursor = cursor

module _ (probe : ℕ → Option Ordering) where
  -- the `while` loop; `val` is the last comparison
  unfoldable pub search_loop : ℕ → ℕ → ℕ → Ordering → ℕ → Option ℕ
  search_loop fuel base cursor val zero = some (settle val cursor)
  search_loop zero base cursor val (suc n) = none
  search_loop (suc fuel) base cursor val (suc n) =
      let pivot = suc n / 2 in
      let here = u32 (base + pivot + 1) in
      elim (probe here) [
        | none ↦ none
        | some Ordering.lt ↦ search_loop fuel base here Ordering.lt pivot
        | some Ordering.gt ↦ search_loop fuel here here Ordering.gt (suc n - (pivot + 1))
        | some Ordering.eq ↦ some here
      ]

  -- `n = ids[0]` rounds are enough, since each makes `n` smaller
  unfoldable pub search : ℕ → Option ℕ
  search count = search_loop (u32 count) 0 1 Ordering.eq (u32 count)

  -- `x` is the place of the item looked for, or the first place behind the items that precede it
  abbrev pub Finds : ℕ → ℕ → Type 0
  Finds count x =
      ((1 ≤ x) × (x ≤ count) × (probe x ≡ some Ordering.eq))
      ⊎ ((1 ≤ x)
          × (x ≤ count + 1)
          × ((i : ℕ) → 1 ≤ i → i < x → probe i ≡ some Ordering.gt)
          × ((i : ℕ) → x ≤ i → i ≤ count → probe i ≡ some Ordering.lt))

  -- the comparisons fall along the list
  pub record IsOrdered (count : ℕ) : Type 0 where
    pub small : count + 1 < 2 ^ 32
    pub inside : (i : ℕ) → 1 ≤ i → i ≤ count → (o : Ordering) × (probe i ≡ some o)
    pub down :
        (i j : ℕ)
        → 1 ≤ i
        → i < j
        → j ≤ count
        → probe i ≡ some Ordering.lt
        → probe j ≡ some Ordering.lt
    pub up :
        (i j : ℕ)
        → 1 ≤ i
        → i < j
        → j ≤ count
        → probe j ≡ some Ordering.gt
        → probe i ≡ some Ordering.gt

  -- what the loop knows: all up to `base` precede the item, all behind `base + n` follow it
  record Inv (count base cursor : ℕ) (val : Ordering) (n : ℕ) : Type 0 where
    fits : base + n ≤ count
    before : (i : ℕ) → 1 ≤ i → i ≤ base → probe i ≡ some Ordering.gt
    behind : (i : ℕ) → base + n < i → i ≤ count → probe i ≡ some Ordering.lt
    at_end : n ≡ 0 → settle val cursor ≡ base + 1

  module _ (count : ℕ) (ordered : IsOrdered count) where
    module _ {base cursor n : ℕ} {val : Ordering} (inv : Inv count base cursor val (suc n))
        (here : ℕ) (at_pivot : here ≡ base + suc n / 2 + 1) where
      lower_Inv : probe here ≡ some Ordering.lt → Inv count base here Ordering.lt (suc n / 2)
      lower_Inv e = record {
        fits = omega (arith, inv.fits);
        before = inv.before;
        behind = λ i p q. elim (ℕ_discrete i here) [
          | yes same ↦ rw same e
          | no other ↦ ordered.down here i (omega arith) (omega arith) q e
        ];
        at_end = omega arith;
      }

      upper_Inv :
          probe here ≡ some Ordering.gt → Inv count here here Ordering.gt (suc n - (suc n / 2 + 1))
      upper_Inv e = record {
        fits = omega (arith, inv.fits);
        before = λ i p q. elim (ℕ_discrete i here) [
          | yes same ↦ rw same e
          | no other ↦ ordered.up i here p (omega arith) (omega (arith, inv.fits)) e
        ];
        behind = λ i p q. inv.behind i (omega arith) q;
        at_end = λ _. omega (arith, inv.fits, ordered.small);
      }

    loop-Finds :
        (fuel base cursor : ℕ) (val : Ordering) (n : ℕ)
        → n ≤ fuel
        → Inv count base cursor val n
        → (x : ℕ) × (search_loop fuel base cursor val n ≡ some x) × Finds count x
    unfolding search_loop
    loop-Finds fuel base cursor val zero h inv = (
      settle val cursor,
      refl,
      rw (inv.at_end refl) (
          inr (
            omega arith,
            omega (arith, inv.fits),
            λ i p q. inv.before i p (omega arith),
            λ i p q. inv.behind i (omega arith) q,
          )),
    )
    loop-Finds zero base cursor val (suc n) h inv = absurd (omega arith)
    loop-Finds (suc fuel) base cursor val (suc n) h inv =
        let here = u32 (base + suc n / 2 + 1) in
        let at_pivot : here ≡ base + suc n / 2 + 1 = omega (arith, inv.fits, ordered.small) in
        let (o, e) = ordered.inside here (omega arith) (omega (arith, inv.fits)) in
        elim (Ordering-cases o) [
          | inl lt ↦
              let below : probe here ≡ some Ordering.lt = rw lt at e in
              rw (below, search_loop)
                (loop-Finds fuel base here Ordering.lt (suc n / 2) (omega arith)
                  (lower_Inv inv here at_pivot below))
          | inr (inl eq) ↦
              let found : probe here ≡ some Ordering.eq = rw eq at e in
              rw (found, search_loop)
                (here, refl, inl (omega arith, omega (arith, inv.fits), found))
          | inr (inr gt) ↦
              let above : probe here ≡ some Ordering.gt = rw gt at e in
              rw (above, search_loop)
                (loop-Finds fuel here here Ordering.gt (suc n - (suc n / 2 + 1)) (omega arith)
                  (upper_Inv inv here at_pivot above))
        ]

    -- on an ordered list the search ends within its fuel, reads no cell outside the list, and
    -- finds the place of the item
    pub search-Finds : (x : ℕ) × (search count ≡ some x) × Finds count x
    unfolding search
    search-Finds =
        let same : u32 count ≡ count = omega (arith, ordered.small) in
        rw same (
          loop-Finds count 0 1 Ordering.eq count (omega arith) (record {
            fits = omega arith;
            before = λ i p q. absurd (omega arith);
            behind = λ i p q. absurd (omega arith);
            at_end = λ _. refl;
          }))
