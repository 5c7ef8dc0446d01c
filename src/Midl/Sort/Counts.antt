-- ===== src/Midl/Sort/Counts.antt =====
-- How often a number stands in the cells 1 to n, when cells are written and swapped.
use lmdb_js.Prelude.{
  ℕ, zero, suc, ◌+◌, ◌≤◌, ◌≡◌, refl, ap, ◌∙◌, Bool-cases, inl, inr, arith, ◌==◌, update, same-==,
  one_if, update-at, update-away,
}

abbrev pub occurs : ℕ → (ℕ → ℕ) → ℕ → ℕ
occurs v f zero = 0
occurs v f (suc n) = one_if (f (suc n) == v) + occurs v f n

pub occurs-congr :
    (v : ℕ) (f g : ℕ → ℕ) (n : ℕ)
    → ((i : ℕ) → 1 ≤ i → i ≤ n → f i ≡ g i)
    → occurs v f n ≡ occurs v g n
occurs-congr v f g zero same = refl
occurs-congr v f g (suc n) same =
    let head = ap (λ x. one_if (x == v)) (same (suc n) (omega arith) (omega arith)) in
    let rest = occurs-congr v f g n (λ i p q. same i p (omega (arith, q))) in
    omega (arith, head, rest)

pub occurs-update :
    (v : ℕ) (f : ℕ → ℕ) (i x n : ℕ)
    → 1 ≤ i
    → i ≤ n
    → occurs v (update f i x) n + one_if (f i == v) ≡ occurs v f n + one_if (x == v)
occurs-update v f i x zero p q = absurd (omega (arith, p, q))
occurs-update v f i x (suc n) p q = elim (Bool-cases (suc n == i)) [
  | inl same ↦
      let e = same-== (suc n) i same in
      let rest =
        occurs-congr v (update f i x) f n (λ j a b. update-away f i x j (ground (arith, e, b))) in
      let top = ap (λ y. one_if (y == v)) (ap (update f i x) e ∙ update-at f i x) in
      let old = ap (λ k. one_if (f k == v)) e in omega (arith, rest, top, old)
  | inr away ↦
      let below : i ≤ n = ground (arith, away, q) in
      let rest = occurs-update v f i x n p below in
      let top = ap (λ y. one_if (y == v)) (update-away f i x (suc n) away) in
      omega (arith, rest, top)
]

-- `MIDL_SWAP`
abbrev pub swapped : (ℕ → ℕ) → ℕ → ℕ → ℕ → ℕ
swapped f i j = update (update f i (f j)) j (f i)

pub occurs-swapped :
    (v : ℕ) (f : ℕ → ℕ) (i j n : ℕ)
    → 1 ≤ i
    → i ≤ n
    → 1 ≤ j
    → j ≤ n
    → occurs v (swapped f i j) n ≡ occurs v f n
occurs-swapped v f i j n i_low i_high j_low j_high =
    let first = occurs-update v f i (f j) n i_low i_high in
    let second = occurs-update v (update f i (f j)) j (f i) n j_low j_high in
    let kept : update f i (f j) j ≡ f j = ground arith in
    let at_j = ap (λ y. one_if (y == v)) kept in omega (arith, first, second, at_j)
