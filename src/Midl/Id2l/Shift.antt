-- ===== src/Midl/Id2l/Shift.antt =====
-- The loop of `mdb_mid2l_insert` and `mdb_mid3l_insert` of midl.c that moves entries up, and what an
-- entry put in the gap makes of a sorted list.
use native.Mathlib.Decide.{ℕ_discrete, dec_lt}
use lmdb_js.Prelude.{
  ℕ, zero, suc, ◌≤◌, ◌<◌, ◌≡◌, ◌⊎◌, inl, inr, refl, ap, ◌∙◌, true, false, some, List, [], ◌∷◌,
  arith, ltb, if◌then◌else◌, Bool-cases, Block, update, load-some, store-some, down, down-congr,
}
use lmdb_js.Midl.Id2l.{move_up}

-- `r` is `l` with the cells x, ..., n - 1 one further up
pub record Moved {ℓ} {A : Type ℓ} (x n : ℕ) (l r : Block A) : Type ℓ where
  pub cap : r.cap ≡ l.cap
  pub low : (j : ℕ) → j ≤ x → r.cell j ≡ l.cell j
  pub up : (j : ℕ) → x ≤ j → j < n → r.cell (suc j) ≡ l.cell j
  pub high : (j : ℕ) → n < j → r.cell j ≡ l.cell j

module _ {A : Type 0} (mid : A → ℕ) (set_mid : A → ℕ → A) where
  pub move_up-Moved :
      (x n : ℕ) (l : Block A)
      → n ≤ l.cap
      → (r : Block A) × (move_up mid set_mid x n l ≡ some r) × Moved x n l r
  unfolding move_up
  move_up-Moved x zero l h = (
    l,
    refl,
    record {
      cap = refl;
      low = λ j p. refl;
      up = λ j p q. absurd (omega arith);
      high = λ j p. refl;
    },
  )
  move_up-Moved x (suc n) l h = elim (Bool-cases (ltb x (suc n))) [
    | inr stop ↦ rw stop (
      l,
      refl,
      record { cap = refl; low = λ j p. refl; up = λ j p q. ground arith; high = λ j p. refl },
    )
    | inl go ↦
        let l' : Block A = record { cap = l.cap; cell = update l.cell (suc n) (l.cell n) } in
        let (r, run, m) = move_up-Moved x n l' (omega arith) in
        rw (go, load-some l n (omega arith), store-some l (suc n) (l.cell n) h)
          (
            r,
            run,
            record {
              cap = m.cap;
              low = λ j p. ground (arith, m.low j);
              up = λ j p q. elim (ℕ_discrete j n) [
                | yes e ↦ rw e (ground (arith, m.high (suc n)))
                | no e ↦ ground (arith, m.up j)
              ];
              high = λ j p. ground (arith, m.high j);
            },
          )
  ]

  -- insertion into a list with the greatest ID first
  pub insert_sorted : A → List A → List A
  insert_sorted e [] = e ∷ []
  insert_sorted e (d ∷ ds) = if ltb (mid d) (mid e) then e ∷ d ∷ ds else d ∷ insert_sorted e ds

  -- a list with room at `x`, where the smaller IDs end
  pub down-insert_sorted :
      (f g : ℕ → A) (e : A) (x n : ℕ)
      → 1 ≤ x
      → x ≤ suc n
      → g x ≡ e
      → ((j : ℕ) → 1 ≤ j → j < x → g j ≡ f j)
      → ((j : ℕ) → x ≤ j → j ≤ n → g (suc j) ≡ f j)
      → ((j : ℕ) → 1 ≤ j → j < x → mid (f j) < mid e)
      → ((j : ℕ) → x ≤ j → j ≤ n → mid e < mid (f j))
      → down g (suc n) ≡ insert_sorted e (down f n)
  unfolding insert_sorted
  down-insert_sorted f g e x zero p q here low up less more =
      let same : x ≡ 1 = omega arith in rw same at (ap (λ t. t ∷ []) here)
  down-insert_sorted f g e x (suc n) p q here low up less more = elim (ℕ_discrete x (suc (suc n))) [
    | yes top ↦
        let test : ltb (mid (f (suc n))) (mid e) ≡ true = ground (arith, less (suc n)) in
        rw test (
          ap (λ t. t ∷ down g (suc n)) (rw top at here)
          ∙ ap (λ t. e ∷ t) (down-congr g f (suc n) (λ j a b. low j a (omega arith))))
    | no other ↦
        let test : ltb (mid (f (suc n))) (mid e) ≡ false = ground (arith, more (suc n)) in
        rw test (
          ap (λ t. t ∷ down g (suc n)) (up (suc n) (omega arith) (omega arith))
          ∙ ap (λ t. f (suc n) ∷ t)
              (down-insert_sorted f g e x n p (omega arith) here low (λ j a b. up j a (omega arith))
                less (λ j a b. more j a (omega arith))))
  ]

  -- the IDs grow from cell to cell
  abbrev pub IsAscending : (ℕ → A) → ℕ → Type 0
  IsAscending f n = (i j : ℕ) → 1 ≤ i → i < j → j ≤ n → mid (f i) < mid (f j)

  module _ (f g : ℕ → A) (e : A) (x n : ℕ) (p : 1 ≤ x) (q : x ≤ suc n) (here : g x ≡ e)
      (low : (j : ℕ) → 1 ≤ j → j < x → g j ≡ f j)
      (up : (j : ℕ) → x ≤ j → j ≤ n → g (suc j) ≡ f j) where
    -- each entry of the longer list is an old one, or the new one
    origin :
        (j : ℕ)
        → j ≤ n
        → ((suc j < x) × (mid (g (suc j)) ≡ mid (f (suc j))))
          ⊎ (((suc j ≡ x) × (mid (g (suc j)) ≡ mid e)) ⊎ ((x ≤ j) × (mid (g (suc j)) ≡ mid (f j))))
    origin j h = elim (ℕ_discrete (suc j) x) [
      | yes same ↦ inr (inl (same, ap mid (ap g same ∙ here)))
      | no other ↦ elim (dec_lt j x) [
        | yes below ↦ inl (omega arith, ap mid (low (suc j) (omega arith) (omega arith)))
        | no above ↦ inr (inr (omega arith, ap mid (up j (omega arith) h)))
      ]
    ]

    pub inserted-IsAscending :
        IsAscending f n
        → ((j : ℕ) → 1 ≤ j → j < x → mid (f j) < mid e)
        → ((j : ℕ) → x ≤ j → j ≤ n → mid e < mid (f j))
        → IsAscending g (suc n)
    inserted-IsAscending asc less more zero j a b c = absurd (omega arith)
    inserted-IsAscending asc less more (suc i) zero a b c = absurd (omega arith)
    inserted-IsAscending asc less more (suc i) (suc j) a b c = ground (
      arith,
      origin i (omega arith),
      origin j (omega arith),
      less (suc i),
      more j,
      asc (suc i) (suc j),
      asc (suc i) j,
      asc i j,
    )
