-- ===== src/Midl/Sort/Rounds.antt =====
-- The insertion of `mdb_midl_sort` in midl.c orders a segment.
use lmdb_js.Prelude.{
  ℕ, zero, suc, ◌+◌, ◌-◌, ◌≤◌, ◌<◌, ◌≡◌, refl, ap, ◌∙◌, inl, inr, Bool-cases, arith, ◌==◌, Ends,
  ends, Ends-bind, Ends-map, same-==,
}
use native.Mathlib.Decide.{dec_lt}
use lmdb_js.Midl.Idl.{Idl}
use lmdb_js.Midl.Sort.{insert_all}
use lmdb_js.Midl.Sort.Insertion.{suc_sub_one, Inserted, insert_one-Inserted}
use lmdb_js.Midl.Sort.Moved.{
  Moved, MovedIn, Moved-refl, MovedIn-trans, Falls, IsAbove, IsAbove-Moved,
}

sub_one_suc : (q : ℕ) → 1 ≤ q → q ≡ suc (q - 1)
sub_one_suc q h = omega (arith, h)

module _ (n l r : ℕ) (low : 1 ≤ l) (high : r ≤ n) where
  module _ (j : ℕ) (f : ℕ → ℕ) (p : ℕ) (g : ℕ → ℕ) (s : Inserted n j f p g) (starts : l < j)
      (fits : j ≤ r) where
    -- the IDs before the segment stop the round
    stays : IsAbove l r f → l ≤ p
    stays above = elim (dec_lt p l) [
      | yes less ↦
          let (moved, smaller) = s.between p (omega arith) (omega (arith, less, starts)) in
          absurd (omega (arith, smaller, above p j s.low less (omega (arith, starts)) fits))
      | no more ↦ omega (arith, more)
    ]

    Inserted-Moved : l ≤ p → Moved n l r f g
    Inserted-Moved after = record {
      draws = λ q q_low q_high. elim (dec_lt q p) [
        | yes less ↦ (q, q_low, q_high, s.before q less)
        | no more ↦ elim (dec_lt j q) [
          | yes behind ↦ (q, q_low, q_high, s.behind q behind)
          | no within ↦ elim (Bool-cases (q == p)) [
            | inl same ↦ (j, omega (arith, starts), fits, ap g (same-== q p same) ∙ s.here)
            | inr away ↦
                let (moved, less) =
                  s.between (q - 1) (ground (arith, more, away))
                    (omega (arith, within, more, after, low)) in
                (
                  q - 1,
                  ground (arith, more, away, after),
                  omega (arith, q_high),
                  ap g (sub_one_suc q (omega (arith, q_low, low))) ∙ moved,
                )
          ]
        ]
      ];
      keeps = λ q away. elim away [
        | inl less ↦ s.before q (omega (arith, less, after))
        | inr more ↦ s.behind q (omega (arith, more, fits))
      ];
      counts = s.counts;
    }

    Inserted-Falls : l ≤ p → Falls l (j - 1) f → Falls l j g
    Inserted-Falls after falls q q_low q_high = elim (dec_lt q p) [
      | yes less ↦ elim (Bool-cases (suc q == p)) [
        | inl same ↦
            let e = same-== (suc q) p same in
            let there = ap g e ∙ s.here in
            let before = s.before q less in
            elim s.stops [
              | inl first ↦ absurd (omega (arith, e, first, q_low, low))
              | inr le ↦
                  omega (
                    arith,
                    there,
                    before,
                    le,
                    ap f (ap (λ k. k - 1) e ∙ refl),
                    ap f (suc_sub_one q),
                  )
            ]
        | inr away ↦
            let next = s.before (suc q) (ground (arith, less, away)) in
            omega (arith, next, s.before q less, falls q q_low (ground (arith, less, away, s.high)))
      ]
      | no more ↦
          let (moved, smaller) = s.between q (omega (arith, more)) q_high in
          elim (Bool-cases (q == p)) [
            | inl same ↦ omega (arith, moved, smaller, ap g (same-== q p same), s.here)
            | inr away ↦
                let (moved', less') =
                  s.between (q - 1) (ground (arith, more, away)) (omega (arith, q_high)) in
                let e = sub_one_suc q (omega (arith, q_low, low)) in
                omega (
                  arith,
                  moved,
                  moved',
                  ap g e,
                  ap f e,
                  falls (q - 1) (ground (arith, more, away, after))
                      (omega (arith, q_high, q_low, low)),
                )
          ]
    ]

  insert_all-Falls :
      (m i : ℕ) (b : Idl)
      → l ≤ i
      → (0 < m → i + m ≤ r)
      → n ≤ b.cap
      → IsAbove l r b.cell
      → Falls l i b.cell
      → Ends (λ b'. MovedIn n l r b b' × Falls l (i + m) b'.cell) (insert_all b (suc i) m)
  unfolding insert_all
  insert_all-Falls zero i b starts fits room above falls = ends (
    record { cap = refl; moved = Moved-refl n l r b.cell },
    λ q p h. falls q p (omega (arith, h)),
  )
  insert_all-Falls (suc m) i b starts fits room above falls =
      let within : suc i ≤ r = omega (arith, fits (omega arith)) in
      Ends-bind (insert_one-Inserted n i b (omega (arith, within, high)) room) (λ b1 (cap, (p, s)).
        let after = stays (suc i) b.cell p b1.cell s (omega (arith, starts)) within above in
        let moved =
          Inserted-Moved (suc i) b.cell p b1.cell s (omega (arith, starts)) within after in
        let falls1 =
          Inserted-Falls (suc i) b.cell p b1.cell s (omega (arith, starts)) within after
            (λ q a c. falls q a (omega (arith, c))) in
        Ends-map
          (insert_all-Falls m (suc i) b1 (omega (arith, starts))
            (λ more. omega (arith, fits (omega arith))) (omega (arith, cap, room))
            (IsAbove-Moved moved above) falls1)
          (λ b2 (moved', falls'). (
            MovedIn-trans n l r (record { cap = cap; moved = moved }) moved',
            λ q a c. falls' q a (omega (arith, c)),
          )))

  -- A segment of a list is sorted by the insertion, if no ID before it is smaller than one of its own.
  pub segment-Falls :
      (b : Idl)
      → n ≤ b.cap
      → IsAbove l r b.cell
      → Ends (λ b'. MovedIn n l r b b' × Falls l r b'.cell) (insert_all b (suc l) (r - l))
  segment-Falls b room above =
      Ends-map
        (insert_all-Falls (r - l) l b (omega arith) (λ more. omega (arith, more)) room above
          (λ q p h. absurd (omega (arith, p, h))))
        (λ b' (moved, falls). (moved, λ q p h. falls q p (omega (arith, h))))
