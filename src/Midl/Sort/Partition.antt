-- ===== src/Midl/Sort/Partition.antt =====
-- The partition of `mdb_midl_sort` in midl.c: IDs that are not smaller than the pivot come first.
use mathlib.Core.Path.{subst}
use native.Mathlib.Decide.{dec_lt, dec_le}
use lmdb_js.Prelude.{
  ℕ, zero, suc, ◌≤◌, ◌<◌, ◌≡◌, refl, sym, ap, ◌∙◌, false, Bool-cases, inl, inr, arith, ◌==◌, update,
  ltb, ◌>>=◌, Ends, ends, Ends-bind, Ends-map, Ends-if, same-==, update-at, update-away,
}
use lmdb_js.Midl.Idl.{Idl}
use lmdb_js.Midl.Sort.{partition}
use lmdb_js.Midl.Sort.Counts.{swapped}
use lmdb_js.Midl.Sort.Moved.{MovedIn, Moved-refl, MovedIn-trans, swapped-first, swap-some}
use lmdb_js.Midl.Sort.Median.{swap-MovedIn}
use lmdb_js.Midl.Sort.Scans.{Up, Down, scan_up-Up, scan_down-Down}

-- between two rounds: the IDs up to `i` and those from `j` on are on their sides
pub record IsBegun (l r a i j : ℕ) (f : ℕ → ℕ) : Type 0 where
  pub low : l < i
  pub below : i < r
  pub ordered : i ≤ j
  pub inner : suc l < j
  pub high : j ≤ r
  pub left : (q : ℕ) → l ≤ q → q ≤ i → a ≤ f q
  pub right : (q : ℕ) → j ≤ q → q ≤ r → f q ≤ a
  pub pivot : f (suc l) ≡ a

-- the cells before `i` are not smaller than `a`, those behind `j` are not greater
pub record IsParted (l r a i j : ℕ) (f : ℕ → ℕ) : Type 0 where
  pub low : l < j
  pub crossed : j < i
  pub high : i ≤ r
  pub left : (q : ℕ) → l ≤ q → q < i → a ≤ f q
  pub right : (q : ℕ) → j < q → q ≤ r → f q ≤ a
  pub pivot : f (suc l) ≡ a

abbrev pub PartedIn : ℕ → ℕ → ℕ → ℕ → Idl → ℕ × ℕ × Idl → Type 0
PartedIn n l r a b (i, j, b') = MovedIn n l r b b' × IsParted l r a i j b'.cell

module _ (l r a i j : ℕ) (f : ℕ → ℕ) (h : IsBegun l r a i j f) where
  -- where the scan up stops at the latest
  up_end : (w : ℕ) × (i < w) × (w ≤ r) × (f w ≤ a)
  up_end = elim (dec_lt i j) [
    | yes less ↦ (j, less, h.high, h.right j (omega arith) h.high)
    | no met ↦ (suc i, omega arith, h.below, h.right (suc i) (omega (arith, met)) h.below)
  ]

  module _ (w i' j' : ℕ) (within : w ≤ r) (u : Up a i w f i') (d : Down a j (suc l) f j') where
    IsParted-crossed : j' < i' → IsParted l r a i' j' f
    IsParted-crossed crossed = record {
      low = d.low;
      crossed = crossed;
      high = omega (arith, u.high, within);
      left = λ q p s. elim (dec_le q i) [
        | yes near ↦ h.left q p near
        | no far ↦ omega (arith, u.passed q (omega (arith, far)) s)
      ];
      right = λ q p s. elim (dec_le j q) [
        | yes far ↦ h.right q far s
        | no near ↦ omega (arith, d.passed q p (omega (arith, near)))
      ];
      pivot = h.pivot;
    }

    IsBegun-swapped : i' ≤ j' → IsBegun l r a i' j' (swapped f i' j')
    IsBegun-swapped le =
        let first : swapped f i' j' i' ≡ f j' = swapped-first f i' j' in
        let second : swapped f i' j' j' ≡ f i' = update-at (update f i' (f j')) j' (f i') in
        let kept : (q : ℕ) → (q == i') ≡ false → (q == j') ≡ false → swapped f i' j' q ≡ f q =
          λ q p s. update-away (update f i' (f j')) j' (f i') q s ∙ update-away f i' (f j') q p in
        record {
          low = omega (arith, u.after, h.low);
          below = omega (arith, le, d.before, h.high);
          ordered = le;
          inner = omega (arith, u.after, h.low, le);
          high = omega (arith, d.before, h.high);
          left = λ q p s. elim (Bool-cases (q == i')) [
            | inl same ↦ omega (arith, ap (swapped f i' j') (same-== q i' same), first, d.stops)
            | inr away ↦
                let same = kept q away (ground (arith, away, s, le)) in
                elim (dec_le q i) [
                  | yes near ↦ omega (arith, same, h.left q p near)
                  | no far ↦
                      omega (arith, same, u.passed q (omega (arith, far)) (ground (arith, away, s)))
                ]
          ];
          right = λ q p s. elim (Bool-cases (q == j')) [
            | inl same ↦ omega (arith, ap (swapped f i' j') (same-== q j' same), second, u.stops)
            | inr away ↦
                let same = kept q (ground (arith, away, p, le)) away in
                elim (dec_le j q) [
                  | yes far ↦ omega (arith, same, h.right q far s)
                  | no near ↦
                      omega
                        (arith, same, d.passed q (ground (arith, away, p)) (omega (arith, near)))
                ]
          ];
          pivot =
              kept (suc l) (ground (arith, u.after, h.low)) (ground (arith, u.after, h.low, le))
              ∙ h.pivot;
        }

module _ (n l r a : ℕ) (low : 1 ≤ l) (high : r ≤ n) where
  pub partition-Parted :
      (fuel i j : ℕ) (b : Idl)
      → j < fuel
      → n ≤ b.cap
      → IsBegun l r a i j b.cell
      → Ends (PartedIn n l r a b) (partition fuel b a i j)
  unfolding partition
  partition-Parted zero i j b enough room h = absurd (omega (arith, enough))
  partition-Parted (suc fuel) i j b enough room h =
      let (w, after, within, le) = up_end l r a i j b.cell h in
      Ends-bind
        (scan_up-Up b a w (suc b.cap) i after (omega (arith, within, high, room))
          (omega (arith, within, high, room)) le)
        (λ i' u.
          Ends-bind
            (scan_down-Down b a (suc l) j h.inner (omega (arith, h.high, high, room))
              (omega (arith, h.pivot)))
            (λ j' d.
              Ends-if (ltb j' i')
                (λ crossed. ends (
                  record { cap = refl; moved = Moved-refl n l r b.cell },
                  IsParted-crossed l r a i j b.cell h w i' j' within u d (ground (arith, crossed)),
                ))
                (λ apart.
                  let le' : i' ≤ j' = ground (arith, apart) in
                  let i_low : l ≤ i' = omega (arith, h.low, u.after) in
                  let j_high : j' ≤ r = omega (arith, d.before, h.high) in
                  let moved =
                    swap-MovedIn n l r low high b room i' j' i_low (omega (arith, le', j_high))
                      (omega (arith, le', i_low)) j_high in
                  let b1 : Idl = record { cap = b.cap; cell = swapped b.cell i' j' } in
                  subst (λ o. Ends (PartedIn n l r a b) (o >>= λ b'. partition fuel b' a i' j'))
                    (sym (
                      swap-some n l r b i' j' (omega (arith, le', j_high, high, room))
                        (omega (arith, j_high, high, room))))
                    (Ends-map
                      (partition-Parted fuel i' j' b1 (omega (arith, enough, d.before)) room
                        (IsBegun-swapped l r a i j b.cell h w i' j' within u d le'))
                      (λ (i2, j2, b2) (moved', parted).
                        (MovedIn-trans n l r moved moved', parted))))))
