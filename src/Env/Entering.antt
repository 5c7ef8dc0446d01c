-- ===== src/Env/Entering.antt =====
-- An entry that is put at the end of the table of src/env.cpp, and what a wrap has then.
use lmdb_js.Prelude.{
  ℕ, update, ◌≡◌, refl, sym, ◌∙◌, ◌⊎◌, inl, inr, true, false, Bool-cases, Option, some, List, [],
  ◌∷◌, ◌++◌, ◌==◌, All, update-away, update-there,
}
use lmdb_js.Env.{Handle, EnvPath}
use lmdb_js.Env.Counts.{listed, DistinctEnvs, or-false, ==_sym}

some-inj : (a b : Handle) → some a ≡ some b → a ≡ b
some-inj a b e = cc e

pub listed-append :
    (k : Handle) (ps : List EnvPath) (p : EnvPath)
    → listed k ps ≡ false
    → (p.env == k) ≡ false
    → listed k (ps ++ (p ∷ [])) ≡ false
listed-append k [] p absent other = rw other refl
listed-append k (q ∷ qs) p absent other =
    let (away, absent') = or-false (q.env == k) (listed k qs) absent in
    rw away (listed-append k qs p absent' other)

pub listed-before :
    (k : Handle) (ps : List EnvPath) (p : EnvPath)
    → listed k (ps ++ (p ∷ [])) ≡ false
    → (listed k ps ≡ false) × ((p.env == k) ≡ false)
listed-before k [] p absent = (refl, (or-false (p.env == k) false absent).0)
listed-before k (q ∷ qs) p absent =
    let (away, absent') = or-false (q.env == k) (listed k (qs ++ (p ∷ []))) absent in
    let (before, other) = listed-before k qs p absent' in (rw away before, other)

pub Distinct-append :
    (ps : List EnvPath) (p : EnvPath)
    → DistinctEnvs ps
    → listed p.env ps ≡ false
    → DistinctEnvs (ps ++ (p ∷ []))
unfolding DistinctEnvs
Distinct-append [] p distinct absent = (refl, tt)
Distinct-append (q ∷ qs) p (alone, distinct) absent =
    let (away, absent') = or-false (q.env == p.env) (listed p.env qs) absent in
    (
      listed-append q.env qs p alone (==_sym p.env q.env ∙ away),
      Distinct-append qs p distinct absent',
    )

pub All-append {κ} :
    (P : EnvPath → Type κ) (ps : List EnvPath) (p : EnvPath)
    → All P ps
    → P p
    → All P (ps ++ (p ∷ []))
All-append P [] p all x = (x, tt)
All-append P (q ∷ qs) p (y, all) x = (y, All-append P qs p all x)

-- what a wrap has when the wrap i has been given `g`
pub update-some :
    (env : ℕ → Option Handle) (i j : ℕ) (g f : Handle)
    → update env i (some g) j ≡ some f
    → (((j == i) ≡ true) × (g ≡ f)) ⊎ (((j == i) ≡ false) × (env j ≡ some f))
update-some env i j g f has = elim (Bool-cases (j == i)) [
  | inl same ↦ inl (same, some-inj g f (sym (update-there env i (some g) j same) ∙ has))
  | inr other ↦ inr (other, sym (update-away env i (some g) j other) ∙ has)
]
