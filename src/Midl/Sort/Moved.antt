-- ===== src/Midl/Sort/Moved.antt =====
-- What moves in a segment of an ID list: cells are swapped and IDs are put in, and the others stay.
use lmdb_js.Prelude.{
  ℕ, suc, ◌≤◌, ◌<◌, ◌≡◌, refl, ap, ◌∙◌, ◌⊎◌, inl, inr, Bool-cases, arith, ◌==◌, if◌then◌else◌,
  update, some, load, load-some, store-some, ◌>>=◌, ltb, same-==, update-at, update-away,
  update-there,
}
use lmdb_js.Midl.Idl.{Idl}
use lmdb_js.Midl.Sort.{swap, swap_if_less}
use lmdb_js.Midl.Sort.Counts.{occurs, swapped, occurs-swapped}

-- `g` has IDs of the cells l to r of `f` there, each number as often as before, and what `f` has
-- elsewhere; `n` is how many IDs there are.
pub record Moved (n l r : ℕ) (f g : ℕ → ℕ) : Type 0 where
  pub draws : (q : ℕ) → l ≤ q → q ≤ r → (p : ℕ) × (l ≤ p) × (p ≤ r) × (g q ≡ f p)
  pub keeps : (q : ℕ) → (q < l) ⊎ (r < q) → g q ≡ f q
  pub counts : (v : ℕ) → occurs v g n ≡ occurs v f n

-- what is at the first cell after a swap
pub swapped-first : (f : ℕ → ℕ) (i j : ℕ) → swapped f i j i ≡ f j
swapped-first f i j = elim (Bool-cases (i == j)) [
  | inl same ↦ update-there (update f i (f j)) j (f i) i same ∙ ap f (same-== i j same)
  | inr away ↦ update-away (update f i (f j)) j (f i) i away ∙ update-at f i (f j)
]

module _ (n l r : ℕ) where
  pub Moved-refl : (f : ℕ → ℕ) → Moved n l r f f
  Moved-refl f = record {
    draws = λ q p s. (q, p, s, refl);
    keeps = λ q away. refl;
    counts = λ v. refl;
  }

  pub Moved-trans : {f g h : ℕ → ℕ} → Moved n l r f g → Moved n l r g h → Moved n l r f h
  Moved-trans {f} {g} {h} m m' = record {
    draws = λ q p s.
        let (q', p', s', e) = m'.draws q p s in
        let (q'', p'', s'', e') = m.draws q' p' s' in (q'', p'', s'', e ∙ e');
    keeps = λ q away. m'.keeps q away ∙ m.keeps q away;
    counts = λ v. m'.counts v ∙ m.counts v;
  }

  pub Moved-swapped :
      (f : ℕ → ℕ) (i j : ℕ)
      → 1 ≤ l
      → r ≤ n
      → l ≤ i
      → i ≤ r
      → l ≤ j
      → j ≤ r
      → Moved n l r f (swapped f i j)
  Moved-swapped f i j low high i_low i_high j_low j_high = record {
    draws = λ q p s. elim (Bool-cases (q == j)) [
      | inl same ↦ (i, i_low, i_high, rw same refl)
      | inr away ↦ elim (Bool-cases (q == i)) [
        | inl same ↦ (j, j_low, j_high, rw (away, same) refl)
        | inr away' ↦ (q, p, s, rw (away, away') refl)
      ]
    ];
    keeps = λ q away. ground (arith, away, i_low, i_high, j_low, j_high);
    counts = λ v.
        occurs-swapped v f i j n (omega (arith, low, i_low)) (omega (arith, high, i_high))
          (omega (arith, low, j_low)) (omega (arith, high, j_high));
  }

  -- the same of lists, whose blocks are kept
  pub record MovedIn (b b' : Idl) : Type 0 where
    pub cap : b'.cap ≡ b.cap
    pub moved : Moved n l r b.cell b'.cell

  pub MovedIn-trans : {a b c : Idl} → MovedIn a b → MovedIn b c → MovedIn a c
  MovedIn-trans m m' = record { cap = m'.cap ∙ m.cap; moved = Moved-trans m.moved m'.moved }

  pub swap-some :
      (b : Idl) (i j : ℕ)
      → i ≤ b.cap
      → j ≤ b.cap
      → swap b i j ≡ some (record { cap = b.cap; cell = swapped b.cell i j })
  swap-some b i j i_high j_high =
      let b' : Idl = record { cap = b.cap; cell = update b.cell i (b.cell j) } in
      rw (load-some b i i_high, ◌>>=◌, load-some b j j_high, store-some b i (b.cell j) i_high)
        (store-some b' j (b.cell i) j_high)

  swap_if_less-test :
      (b : Idl) (i j : ℕ)
      → i ≤ b.cap
      → j ≤ b.cap
      → swap_if_less b i j ≡ (if ltb (b.cell i) (b.cell j) then swap b i j else some b)
  swap_if_less-test b i j i_high j_high =
      ap (λ o. o >>= λ x. load b j >>= λ y. if ltb x y then swap b i j else some b)
        (load-some b i i_high)
      ∙ ap (λ o. o >>= λ y. if ltb (b.cell i) y then swap b i j else some b) (load-some b j j_high)

  -- a swap, or not, by a test
  pub swap_if_less-cases :
      (b : Idl) (i j : ℕ)
      → i ≤ b.cap
      → j ≤ b.cap
      → ((b.cell j ≤ b.cell i) × (swap_if_less b i j ≡ some b))
        ⊎ ((b.cell i < b.cell j)
            × (swap_if_less b i j ≡ some (record { cap = b.cap; cell = swapped b.cell i j })))
  swap_if_less-cases b i j i_high j_high = elim (Bool-cases (ltb (b.cell i) (b.cell j))) [
    | inl less ↦ inr (
      ground (arith, less),
      swap_if_less-test b i j i_high j_high
          ∙ ap (λ t. if t then swap b i j else some b) less
          ∙ swap-some b i j i_high j_high,
    )
    | inr other ↦ inl (
      ground (arith, other),
      swap_if_less-test b i j i_high j_high ∙ ap (λ t. if t then swap b i j else some b) other,
    )
  ]

-- the IDs of the cells l to r fall
abbrev pub Falls : ℕ → ℕ → (ℕ → ℕ) → Type 0
Falls l r f = (q : ℕ) → l ≤ q → q < r → f (suc q) ≤ f q

-- the IDs before the cell l are not smaller than those of the cells l to r
abbrev pub IsAbove : ℕ → ℕ → (ℕ → ℕ) → Type 0
IsAbove l r f = (p q : ℕ) → 1 ≤ p → p < l → l ≤ q → q ≤ r → f q ≤ f p

pub IsAbove-Moved : {n l r : ℕ} {f g : ℕ → ℕ} → Moved n l r f g → IsAbove l r f → IsAbove l r g
IsAbove-Moved m above p q low lt le high =
    let (q', le', high', e) = m.draws q le high in
    omega (arith, m.keeps p (inl lt), e, above p q' low lt le' high')
