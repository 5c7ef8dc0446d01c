-- ===== src/Prelude/Array.antt =====
-- A heap block that a C array stands in: `cap`, the index of its last cell, and the cells 0 to `cap`.
-- An access behind the last cell is a fault.
use Prim.Native.Nat.{ℕ, zero, suc, ◌+◌, ◌≤◌, ◌<◌}
use mathlib.Core.Path.{◌≡◌, refl, ap}
use mathlib.Core.Bool.{true, false}
use mathlib.Core.List.{List, [], ◌∷◌, ◌++◌}
use mathlib.Core.Option.{Option, none, some}
use native.Mathlib.Omega.{arith}
use native.Mathlib.Decide.{ℕ_discrete}
use lmdb_js.Prelude.Tests.{◌==◌, leb, if◌then◌else◌, ◌>>=◌}

pub record Block {ℓ} (A : Type ℓ) : Type ℓ where
  pub cap : ℕ
  pub cell : ℕ → A

module _ {ℓ} {A : Type ℓ} where
  abbrev pub update : (ℕ → A) → ℕ → A → ℕ → A
  update f i v j = if j == i then v else f j

  abbrev pub load : Block A → ℕ → Option A
  load b i = if leb i b.cap then some (b.cell i) else none

  abbrev pub store : Block A → ℕ → A → Option (Block A)
  store b i v = if leb i b.cap then some (record b { cell = update b.cell i v }) else none

  pub update-there : (f : ℕ → A) (i : ℕ) (v : A) (j : ℕ) → (j == i) ≡ true → update f i v j ≡ v
  update-there f i v j same = rw same refl

  pub update-away : (f : ℕ → A) (i : ℕ) (v : A) (j : ℕ) → (j == i) ≡ false → update f i v j ≡ f j
  update-away f i v j away = rw away refl

  pub update-at : (f : ℕ → A) (i : ℕ) (v : A) → update f i v i ≡ v
  update-at f i v = ground arith

  pub load-some : (b : Block A) (i : ℕ) → i ≤ b.cap → load b i ≡ some (b.cell i)
  load-some b i h = ground arith

  pub store-some :
      (b : Block A) (i : ℕ) (v : A)
      → i ≤ b.cap
      → store b i v ≡ some (record { cap = b.cap; cell = update b.cell i v })
  store-some b i v h = ground arith

  -- the cells n, n - 1, ..., 1
  abbrev pub down : (ℕ → A) → ℕ → List A
  down f zero = []
  down f (suc n) = f (suc n) ∷ down f n

  pub down-congr :
      (f g : ℕ → A) (n : ℕ) → ((i : ℕ) → 1 ≤ i → i ≤ n → f i ≡ g i) → down f n ≡ down g n
  down-congr f g zero h = refl
  down-congr f g (suc n) h =
      rw (h (suc n) (omega arith) (omega arith))
        (ap (λ t. g (suc n) ∷ t) (down-congr f g n (λ i p q. h i p (omega arith))))

  pub down-suc : (f : ℕ → A) (n m : ℕ) → m ≡ suc n → down f m ≡ f (suc n) ∷ down f n
  down-suc f n m e = rw e

  -- a write behind the first n cells does not show
  pub down-update : (f : ℕ → A) (n i : ℕ) (v : A) → n < i → down (update f i v) n ≡ down f n
  down-update f n i v h = down-congr (update f i v) f n (λ j p q. ground arith)

  pub down-append :
      (f : ℕ → A) (m n k : ℕ) → k ≡ m + n → down f k ≡ down (λ i. f (m + i)) n ++ down f m
  down-append f m zero k e = let e' : k ≡ m = omega arith in rw e'
  down-append f m (suc n) zero e = absurd (omega arith)
  down-append f m (suc n) (suc k) e =
      let e' : m + suc n ≡ suc k = omega arith in
      rw e' (ap (λ t. f (suc k) ∷ t) (down-append f m n k (omega arith)))

  -- one more cell behind the first n, and nothing else that `down` reads has changed
  pub down-push :
      (f g : ℕ → A) (n m : ℕ) (v : A)
      → m ≡ suc n
      → g (suc n) ≡ v
      → ((i : ℕ) → 1 ≤ i → i ≤ n → g i ≡ f i)
      → down g m ≡ v ∷ down f n
  down-push f g n m v e top rest = rw (e, top) (ap (λ t. v ∷ t) (down-congr g f n rest))

  -- `memcpy` of n cells of `src`, from `start` on, to the cells of `dst` from `at` on
  unfoldable pub copy : Block A → ℕ → Block A → ℕ → ℕ → Option (Block A)
  copy dst at src start zero = some dst
  copy dst at src start (suc n) =
      copy dst at src start n >>= λ d. load src (start + n) >>= λ v. store d (at + n) v

  -- `d` is `dst` with n cells of `src` copied over it
  pub record Copied (dst : Block A) (at : ℕ) (src : Block A) (start n : ℕ) (d : Block A)
      : Type ℓ where
    pub cap : d.cap ≡ dst.cap
    pub kept : (i : ℕ) → i < at → d.cell i ≡ dst.cell i
    pub copied : (i : ℕ) → i < n → d.cell (at + i) ≡ src.cell (start + i)

  pub copy-Copied :
      (dst : Block A) (at : ℕ) (src : Block A) (start n : ℕ)
      → at + n ≤ dst.cap + 1
      → start + n ≤ src.cap + 1
      → (d : Block A) × (copy dst at src start n ≡ some d) × Copied dst at src start n d
  unfolding copy
  copy-Copied dst at src start zero p q =
      (dst, refl, record { cap = refl; kept = λ i h. refl; copied = λ i h. absurd (omega arith) })
  copy-Copied dst at src start (suc n) p q =
      let (d, run, c) = copy-Copied dst at src start n (omega arith) (omega arith) in
      (
        record { cap = d.cap; cell = update d.cell (at + n) (src.cell (start + n)) },
        rw (run, ◌>>=◌, load-some src (start + n) (omega arith))
            (store-some d (at + n) _ (rw c.cap (omega arith))),
        record {
          cap = c.cap;
          kept = λ i h. ground (arith, c.kept i);
          copied = λ i h. elim (ℕ_discrete i n) [
            | yes e ↦ rw e (ground arith)
            | no e ↦ ground (arith, c.copied i)
          ];
        },
      )
