-- ===== src/Midl/Sort/Median.antt =====
-- The choice of the median in `mdb_midl_sort` of midl.c.
use mathlib.Core.Path.{subst}
use lmdb_js.Prelude.{
  ℕ, suc, ◌+◌, ◌/◌, ◌≤◌, ◌≡◌, refl, sym, ◌⊎◌, inl, inr, arith, ◌==◌, false, update, ◌∙◌, ◌>>=◌,
  Ends, ends, Ends-bind, Ends-map, update-at, update-away,
}
use lmdb_js.Midl.Idl.{Idl}
use lmdb_js.Midl.Sort.{swap_if_less, choose_median}
use lmdb_js.Midl.Sort.Counts.{swapped}
use lmdb_js.Midl.Sort.Moved.{
  MovedIn, Moved-refl, MovedIn-trans, Moved-swapped, swapped-first, swap-some, swap_if_less-cases,
}

-- the cells i and j are in order, and have the IDs that they had
record Orders (i j : ℕ) (f g : ℕ → ℕ) : Type 0 where
  order : g j ≤ g i
  both : ((g i ≡ f i) × (g j ≡ f j)) ⊎ ((g i ≡ f j) × (g j ≡ f i))
  others : (k : ℕ) → (k == i) ≡ false → (k == j) ≡ false → g k ≡ f k

module _ (n l r : ℕ) (low : 1 ≤ l) (high : r ≤ n) (b : Idl) (room : n ≤ b.cap) where
  module _ (i j : ℕ) (i_low : l ≤ i) (i_high : i ≤ r) (j_low : l ≤ j) (j_high : j ≤ r) where
    pub swap-MovedIn : MovedIn n l r b (record { cap = b.cap; cell = swapped b.cell i j })
    swap-MovedIn = record {
      cap = refl;
      moved = Moved-swapped n l r b.cell i j low high i_low i_high j_low j_high;
    }

    swap_if_less-Orders :
        Ends (λ b'. MovedIn n l r b b' × Orders i j b.cell b'.cell) (swap_if_less b i j)
    swap_if_less-Orders =
        elim (swap_if_less-cases n l r b i j (omega (arith, i_high, high, room))
          (omega (arith, j_high, high, room))) [
            | inl (le, run) ↦
                subst (Ends (λ b'. MovedIn n l r b b' × Orders i j b.cell b'.cell)) (sym run) (
                  ends (
                    record { cap = refl; moved = Moved-refl n l r b.cell },
                    record { order = le; both = inl (refl, refl); others = λ k p q. refl },
                  ))
            | inr (less, run) ↦
                let first = swapped-first b.cell i j in
                let second = update-at (update b.cell i (b.cell j)) j (b.cell i) in
                subst (Ends (λ b'. MovedIn n l r b b' × Orders i j b.cell b'.cell)) (sym run) (
                  ends (
                    swap-MovedIn,
                    record {
                      order = omega (arith, less, first, second);
                      both = inr (first, second);
                      others = λ k p q.
                          update-away (update b.cell i (b.cell j)) j (b.cell i) k q
                          ∙ update-away b.cell i (b.cell j) k p;
                    },
                  ))
          ]

-- the pivot is at `l + 1`, with a cell on each side that stops a scan
pub record HasPivot (l r : ℕ) (f : ℕ → ℕ) : Type 0 where
  pub left : f (suc l) ≤ f l
  pub right : f r ≤ f (suc l)

three-Orders :
    (l r : ℕ) (f g h k : ℕ → ℕ)
    → l + 8 ≤ r
    → Orders l r f g
    → Orders (suc l) r g h
    → Orders l (suc l) h k
    → HasPivot l r k
three-Orders l r f g h k wide first second third =
    let l_kept : h l ≡ g l = second.others l (ground arith) (ground (arith, wide)) in
    let r_kept : k r ≡ h r = third.others r (ground (arith, wide)) (ground (arith, wide)) in
    let right : h r ≤ g r = elim second.both [
      | inl (a, c) ↦ omega (arith, c)
      | inr (a, c) ↦ omega (arith, a, c, second.order)
    ] in
    let lowest : (k r ≤ k (suc l)) = elim third.both [
      | inl (a, c) ↦ omega (arith, c, r_kept, second.order)
      | inr (a, c) ↦ omega (arith, c, r_kept, right, l_kept, first.order)
    ] in
    record { left = third.order; right = lowest }

module _ (n l r : ℕ) (low : 1 ≤ l) (high : r ≤ n) (wide : l + 8 ≤ r) where
  pub choose_median-HasPivot :
      (b : Idl)
      → n ≤ b.cap
      → Ends (λ b'. MovedIn n l r b b' × HasPivot l r b'.cell) (choose_median b l r)
  unfolding choose_median
  choose_median-HasPivot b room =
      let middle = (l + r) / 2 in
      let b1 : Idl = record { cap = b.cap; cell = swapped b.cell middle (suc l) } in
      let moved1 =
        swap-MovedIn n l r low high b room middle (suc l) (omega (arith, wide))
          (omega (arith, wide)) (omega arith) (omega (arith, wide)) in
      subst
        (λ o.
          Ends (λ b'. MovedIn n l r b b' × HasPivot l r b'.cell)
            (o >>= λ b1. swap_if_less b1 l r >>= λ b2.
              swap_if_less b2 (suc l) r >>= λ b3. swap_if_less b3 l (suc l)))
        (sym (
          swap-some n l r b middle (suc l) (omega (arith, wide, high, room))
            (omega (arith, wide, high, room))))
        (Ends-bind
          (swap_if_less-Orders n l r low high b1 room l r (omega arith) (omega (arith, wide))
            (omega (arith, wide)) (omega arith))
          (λ b2 (moved2, first).
            let room2 : n ≤ b2.cap = omega (arith, room, moved2.cap) in
            Ends-bind
              (swap_if_less-Orders n l r low high b2 room2 (suc l) r (omega arith)
                (omega (arith, wide)) (omega (arith, wide)) (omega arith))
              (λ b3 (moved3, second).
                let room3 : n ≤ b3.cap = omega (arith, room2, moved3.cap) in
                Ends-map
                  (swap_if_less-Orders n l r low high b3 room3 l (suc l) (omega arith)
                    (omega (arith, wide)) (omega arith) (omega (arith, wide)))
                  (λ b4 (moved4, third). (
                    MovedIn-trans n l r
                        (MovedIn-trans n l r (MovedIn-trans n l r moved1 moved2) moved3) moved4,
                    three-Orders l r b1.cell b2.cell b3.cell b4.cell wide first second third,
                  )))))
