-- ===== src/Env/Counts.antt =====
-- What the counts of the table of src/env.cpp mean.
use lmdb_js.Prelude.{
  ℕ, zero, suc, ◌+◌, ◌≤◌, ◌<◌, update, ◌≡◌, refl, ap, ◌∙◌, inl, inr, Bool, true, false, ◌||◌,
  Bool-cases, Option, none, some, List, [], ◌∷◌, ◌==◌, All, arith, same-==, one_if,
}
use lmdb_js.Env.{Handle, EnvPath, Table}

abbrev pub points_to : Handle → Option Handle → Bool
points_to h none = false
points_to h (some g) = g == h

-- how many of the first n wraps have the environment
abbrev pub holders : (ℕ → Option Handle) → ℕ → Handle → ℕ
holders env zero h = 0
holders env (suc n) h = one_if (points_to h (env n)) + holders env n h

abbrev pub is_in : Handle → List Handle → Bool
is_in h [] = false
is_in h (g ∷ gs) = (g == h) || is_in h gs

abbrev pub listed : Handle → List EnvPath → Bool
listed h [] = false
listed h (p ∷ ps) = (p.env == h) || listed h ps

unfoldable pub DistinctEnvs : List EnvPath → Type 0
DistinctEnvs [] = Unit
DistinctEnvs (p ∷ ps) = (listed p.env ps ≡ false) × DistinctEnvs ps

-- an entry counts the wraps that have its environment, is used, and is not closed
pub record Entry (env : ℕ → Option Handle) (n : ℕ) (closed : List Handle) (p : EnvPath)
    : Type 0 where
  pub counted : p.count ≡ holders env n p.env
  pub used : 1 ≤ p.count
  pub unclosed : is_in p.env closed ≡ false

-- the state of the table and of the first n wraps
pub record IsCounted (n : ℕ) (t : Table) : Type 0 where
  pub entries : All (Entry t.env n t.closed) t.envs
  pub distinct : DistinctEnvs t.envs
  -- no wrap has an environment that is closed
  pub alive : (i : ℕ) (h : Handle) → i < n → t.env i ≡ some h → is_in h t.closed ≡ false
  -- an environment outside the table is one wrap's
  pub sole :
      (i j : ℕ) (h : Handle)
      → i < n
      → j < n
      → t.env i ≡ some h
      → t.env j ≡ some h
      → listed h t.envs ≡ false
      → i ≡ j

pub refl-== : (i : ℕ) → (i == i) ≡ true
refl-== i = ground arith

pub ==_sym : (i j : ℕ) → (i == j) ≡ (j == i)
==_sym i j = ground arith

lt-other : (i n : ℕ) → i < suc n → (n == i) ≡ false → i < n
lt-other i n below other = ground arith

holders-above :
    (env : ℕ → Option Handle) (i n : ℕ) (o : Option Handle) (h : Handle)
    → n ≤ i
    → holders (update env i o) n h ≡ holders env n h
holders-above env i zero o h above = refl
holders-above env i (suc n) o h above = elim (Bool-cases (n == i)) [
  | inl same ↦ absurd (omega (arith, same-== n i same, above))
  | inr other ↦ rw other (
      ap (λ k. one_if (points_to h (env n)) + k) (holders-above env i n o h (omega (arith, above))))
]

-- one wrap is set
pub holders-update :
    (env : ℕ → Option Handle) (i n : ℕ) (o : Option Handle) (h : Handle)
    → i < n
    → holders (update env i o) n h + one_if (points_to h (env i))
      ≡ holders env n h + one_if (points_to h o)
holders-update env i zero o h below = absurd (omega arith)
holders-update env i (suc n) o h below = elim (Bool-cases (n == i)) [
  | inl same ↦ rw same (
      let at_i : env n ≡ env i = ap env (same-== n i same) in
      let above = holders-above env i n o h (omega (arith, same-== n i same)) in
      omega (arith, above, ap (λ e. one_if (points_to h e)) at_i))
  | inr other ↦ rw other (
      let below' : i < n = lt-other i n below other in
      let rest = holders-update env i n o h below' in omega (arith, rest))
]

pub All-map {ℓ κ κ'} :
    {A : Type ℓ} {P : A → Type κ} {Q : A → Type κ'} (xs : List A)
    → ((x : A) → P x → Q x)
    → All P xs
    → All Q xs
All-map [] f all = tt
All-map (x ∷ xs) f (p, all) = (f x p, All-map xs f all)

pub holders-zero :
    (env : ℕ → Option Handle) (n : ℕ) (h : Handle)
    → ((j : ℕ) → j < n → points_to h (env j) ≡ false)
    → holders env n h ≡ 0
holders-zero env zero h away = refl
holders-zero env (suc n) h away =
    let rest = holders-zero env n h (λ j below. away j (omega (arith, below))) in
    rw (away n (omega arith)) (omega (arith, rest))

pub zero-holders :
    (env : ℕ → Option Handle) (n : ℕ) (h : Handle) (j : ℕ)
    → holders env n h ≡ 0
    → j < n
    → points_to h (env j) ≡ false
zero-holders env zero h j nobody below = absurd (omega arith)
zero-holders env (suc n) h j nobody below = elim (Bool-cases (n == j)) [
  | inl same ↦ elim (Bool-cases (points_to h (env j))) [
    | inl points ↦
        let at_n : points_to h (env n) ≡ true =
          ap (λ k. points_to h (env k)) (same-== n j same) ∙ points in
        absurd (omega (arith, nobody, ap one_if at_n))
    | inr away ↦ away
  ]
  | inr other ↦ zero-holders env n h j (omega (arith, nobody)) (lt-other j n below other)
]

pub points_to-some : (h : Handle) (o : Option Handle) → o ≡ some h → points_to h o ≡ true
points_to-some h o e = rw e (refl-== h)

pub or-false : (a b : Bool) → (a || b) ≡ false → (a ≡ false) × (b ≡ false)
or-false false b e = (refl, e)
or-false true b e = absurd (cc e)

-- entries of other environments
pub All-others {κ κ'} :
    {P : EnvPath → Type κ} {Q : EnvPath → Type κ'} (h : Handle) (ps : List EnvPath)
    → listed h ps ≡ false
    → ((p : EnvPath) → (p.env == h) ≡ false → P p → Q p)
    → All P ps
    → All Q ps
All-others h [] absent f all = tt
All-others h (p ∷ ps) absent f (x, all) =
    let (other, rest) = or-false (p.env == h) (listed h ps) absent in
    (f p other x, All-others h ps rest f all)
