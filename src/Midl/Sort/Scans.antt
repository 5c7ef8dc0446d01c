-- ===== src/Midl/Sort/Scans.antt =====
-- The two scans of the partition in `mdb_midl_sort` of midl.c stop inside the segment.
use mathlib.Core.Path.{subst}
use native.Mathlib.Decide.{dec_lt}
use lmdb_js.Prelude.{
  ℕ, zero, suc, ◌+◌, ◌≤◌, ◌<◌, ◌≡◌, refl, sym, ap, true, false, Bool-cases, inl, inr, arith, ◌==◌,
  ltb, some, load-some, ◌>>=◌, Ends, ends, Ends-map, same-==,
}
use lmdb_js.Midl.Idl.{Idl}
use lmdb_js.Midl.Sort.{scan_up, scan_down}

-- a scan up from `i` has passed the IDs greater than `a`
pub record Up (a i w : ℕ) (f : ℕ → ℕ) (i' : ℕ) : Type 0 where
  pub after : i < i'
  pub high : i' ≤ w
  pub passed : (q : ℕ) → i < q → q < i' → a < f q
  pub stops : f i' ≤ a

-- a scan down from `j` has passed the IDs smaller than `a`
pub record Down (a j w : ℕ) (f : ℕ → ℕ) (j' : ℕ) : Type 0 where
  pub before : j' < j
  pub low : w ≤ j'
  pub passed : (q : ℕ) → j' < q → q < j → f q < a
  pub stops : a ≤ f j'

module _ (b : Idl) (a : ℕ) where
  scan_up-stops :
      (fuel i : ℕ) → suc i ≤ b.cap → b.cell (suc i) ≤ a → scan_up (suc fuel) b a i ≡ some (suc i)
  unfolding scan_up
  scan_up-stops fuel i fits le =
      let test : ltb a (b.cell (suc i)) ≡ false = ground (arith, le) in
      rw (load-some b (suc i) fits, ◌>>=◌, test) refl

  scan_up-passes :
      (fuel i : ℕ)
      → suc i ≤ b.cap
      → a < b.cell (suc i)
      → scan_up (suc fuel) b a i ≡ scan_up fuel b a (suc i)
  unfolding scan_up
  scan_up-passes fuel i fits less =
      let test : ltb a (b.cell (suc i)) ≡ true = ground (arith, less) in
      rw (load-some b (suc i) fits, ◌>>=◌, test) refl

  scan_down-stops : (j : ℕ) → j ≤ b.cap → a ≤ b.cell j → scan_down b a (suc j) ≡ some j
  unfolding scan_down
  scan_down-stops j fits le =
      let test : ltb (b.cell j) a ≡ false = ground (arith, le) in
      rw (load-some b j fits, ◌>>=◌, test) refl

  scan_down-passes : (j : ℕ) → j ≤ b.cap → b.cell j < a → scan_down b a (suc j) ≡ scan_down b a j
  unfolding scan_down
  scan_down-passes j fits less =
      let test : ltb (b.cell j) a ≡ true = ground (arith, less) in
      rw (load-some b j fits, ◌>>=◌, test) refl

  -- an ID at `w` that is not greater than `a` stops the scan
  pub scan_up-Up :
      (w fuel i : ℕ)
      → i < w
      → w ≤ i + fuel
      → w ≤ b.cap
      → b.cell w ≤ a
      → Ends (Up a i w b.cell) (scan_up fuel b a i)
  scan_up-Up w zero i less enough fits le = absurd (omega (arith, less, enough))
  scan_up-Up w (suc fuel) i less enough fits le = elim (dec_lt a (b.cell (suc i))) [
    | yes more ↦
        let next : suc i < w = elim (Bool-cases (suc i == w)) [
          | inl same ↦ absurd (omega (arith, more, le, ap b.cell (same-== (suc i) w same)))
          | inr away ↦ ground (arith, away, less)
        ] in
        subst (Ends (Up a i w b.cell))
          (sym (scan_up-passes fuel i (omega (arith, less, fits)) more))
          (Ends-map (scan_up-Up w fuel (suc i) next (omega (arith, enough)) fits le) (λ i' u.
            record {
              after = omega (arith, u.after);
              high = u.high;
              passed = λ q p s. elim (Bool-cases (suc i == q)) [
                | inl same ↦ omega (arith, more, ap b.cell (same-== (suc i) q same))
                | inr away ↦ u.passed q (ground (arith, away, p)) s
              ];
              stops = u.stops;
            }))
    | no other ↦
        subst (Ends (Up a i w b.cell))
          (sym (scan_up-stops fuel i (omega (arith, less, fits)) (omega (arith, other))))
          (ends (record {
            after = omega arith;
            high = omega (arith, less);
            passed = λ q p s. absurd (omega (arith, p, s));
            stops = omega (arith, other);
          }))
  ]

  -- an ID at `w` that is not smaller than `a` stops the scan
  pub scan_down-Down :
      (w j : ℕ) → w < j → j ≤ suc b.cap → a ≤ b.cell w → Ends (Down a j w b.cell) (scan_down b a j)
  scan_down-Down w zero less fits le = absurd (omega (arith, less))
  scan_down-Down w (suc j) less fits le = elim (dec_lt (b.cell j) a) [
    | yes more ↦
        let next : w < j = elim (Bool-cases (w == j)) [
          | inl same ↦ absurd (omega (arith, more, le, ap b.cell (same-== w j same)))
          | inr away ↦ ground (arith, away, less)
        ] in
        subst (Ends (Down a (suc j) w b.cell)) (sym (scan_down-passes j (omega (arith, fits)) more))
          (Ends-map (scan_down-Down w j next (omega (arith, fits)) le) (λ j' d. record {
            before = omega (arith, d.before);
            low = d.low;
            passed = λ q p s. elim (Bool-cases (j == q)) [
              | inl same ↦ omega (arith, more, ap b.cell (same-== j q same))
              | inr away ↦ d.passed q p (ground (arith, away, s))
            ];
            stops = d.stops;
          }))
    | no other ↦
        subst (Ends (Down a (suc j) w b.cell))
          (sym (scan_down-stops j (omega (arith, fits)) (omega (arith, other))))
          (ends (record {
            before = omega arith;
            low = omega (arith, less);
            passed = λ q p s. absurd (omega (arith, p, s));
            stops = omega (arith, other);
          }))
  ]
