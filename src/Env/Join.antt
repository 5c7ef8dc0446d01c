-- ===== src/Env/Join.antt =====
-- The loop of `EnvWrap::openEnv` of src/env.cpp that finds an environment by its path.
use lmdb_js.Prelude.{
  ℕ, suc, ◌<◌, update, ◌≡◌, refl, ap, ◌∙◌, ◌⊎◌, inl, inr, true, false, ◌||◌, Bool-cases, Option,
  none, some, List, [], ◌∷◌, ◌==◌, All, arith, same-==, one_if,
}
use lmdb_js.Env.{Handle, EnvPath, join, same_path}
use lmdb_js.Env.Counts.{
  points_to, is_in, listed, DistinctEnvs, Entry, holders-update, or-false, refl-==, ==_sym,
}
use lmdb_js.Env.Leave.{other-Entry}

join-here :
    (path : List ℕ) (p : EnvPath) (ps : List EnvPath)
    → same_path p.path path ≡ true
    → join path (p ∷ ps) ≡ some (p.env, record p { count = suc p.count } ∷ ps)
join-here path p ps same = rw same refl

join-there :
    (path : List ℕ) (p : EnvPath) (ps ps' : List EnvPath) (g : Handle)
    → same_path p.path path ≡ false
    → join path ps ≡ some (g, ps')
    → join path (p ∷ ps) ≡ some (g, p ∷ ps')
join-there path p ps ps' g other found = rw (other, found) refl

join-nowhere :
    (path : List ℕ) (p : EnvPath) (ps : List EnvPath)
    → same_path p.path path ≡ false
    → join path ps ≡ none
    → join path (p ∷ ps) ≡ none
join-nowhere path p ps other absent = rw (other, absent) refl

pub listed-apart :
    (g k : Handle) (ps : List EnvPath) → listed g ps ≡ true → listed k ps ≡ false → (g == k) ≡ false
listed-apart g k ps there absent = elim (Bool-cases (g == k)) [
  | inl same ↦ absurd (cc (there, absent, ap (λ l. listed l ps) (same-== g k same)))
  | inr other ↦ other
]

-- The wrap i, one of the first n, has `h`, which is not in the table, and gets what is found.
module _ (env : ℕ → Option Handle) (n i : ℕ) (below : i < n) (h : Handle) (at_i : env i ≡ some h)
    (closed : List Handle) where
  pub record Joined (ps : List EnvPath) (g : Handle) (ps' : List EnvPath) : Type 0 where
    pub there : listed g ps ≡ true
    pub same : (k : Handle) → listed k ps' ≡ listed k ps
    pub entries : All (Entry (update env i (some g)) n closed) ps'
    pub distinct : DistinctEnvs ps'
    pub unclosed : is_in g closed ≡ false

  moved-Entry :
      (g : Handle) (p : EnvPath)
      → (p.env == h) ≡ false
      → (p.env == g) ≡ false
      → Entry env n closed p
      → Entry (update env i (some g)) n closed p
  moved-Entry g p other away e =
      other-Entry env n i below (some h) (some g) p closed closed at_i (==_sym h p.env ∙ other)
        (==_sym g p.env ∙ away) refl e

  own-Entry :
      (p : EnvPath)
      → (p.env == h) ≡ false
      → Entry env n closed p
      → Entry (update env i (some p.env)) n closed (record p { count = suc p.count })
  own-Entry p other e = record {
    counted =
        (let moved = holders-update env i n (some p.env) p.env below in
          let before =
            ap (λ o. one_if (points_to p.env o)) at_i ∙ ap one_if (==_sym h p.env ∙ other) in
          omega (arith, e.counted, moved, before, ap one_if (refl-== p.env)));
    used = omega arith;
    unclosed = e.unclosed;
  }

  both-other :
      (g : Handle) (ps : List EnvPath)
      → listed h ps ≡ false
      → listed g ps ≡ false
      → All (Entry env n closed) ps
      → All (Entry (update env i (some g)) n closed) ps
  both-other g [] absent away all = tt
  both-other g (p ∷ ps) absent away (e, all) =
      let (other, absent') = or-false (p.env == h) (listed h ps) absent in
      let (p_away, away') = or-false (p.env == g) (listed g ps) away in
      (moved-Entry g p other p_away e, both-other g ps absent' away' all)

  join-head :
      (path : List ℕ) (p : EnvPath) (ps : List EnvPath)
      → listed h (p ∷ ps) ≡ false
      → All (Entry env n closed) (p ∷ ps)
      → DistinctEnvs (p ∷ ps)
      → Joined (p ∷ ps) p.env (record p { count = suc p.count } ∷ ps)
  unfolding DistinctEnvs
  join-head path p ps absent (e, all) (alone, distinct) =
      let (other, absent') = or-false (p.env == h) (listed h ps) absent in
      record {
        there = rw (refl-== p.env) refl;
        same = λ k. refl;
        entries = (own-Entry p other e, both-other p.env ps absent' alone all);
        distinct = (alone, distinct);
        unclosed = e.unclosed;
      }

  join-tail :
      (p : EnvPath) (ps : List EnvPath) (g : Handle) (ps' : List EnvPath)
      → listed h (p ∷ ps) ≡ false
      → Entry env n closed p
      → DistinctEnvs (p ∷ ps)
      → Joined ps g ps'
      → Joined (p ∷ ps) g (p ∷ ps')
  unfolding DistinctEnvs
  join-tail p ps g ps' absent e (alone, distinct) j =
      let (other, absent') = or-false (p.env == h) (listed h ps) absent in
      let away = ==_sym p.env g ∙ listed-apart g p.env ps j.there alone in
      record {
        there = rw away (j.there);
        same = λ k. ap (λ b. (p.env == k) || b) (j.same k);
        entries = (moved-Entry g p other away e, j.entries);
        distinct = (j.same p.env ∙ alone, j.distinct);
        unclosed = j.unclosed;
      }

  pub join-Joined :
      (path : List ℕ) (ps : List EnvPath)
      → listed h ps ≡ false
      → All (Entry env n closed) ps
      → DistinctEnvs ps
      → (join path ps ≡ none)
        ⊎ ((g : Handle) × (ps' : List EnvPath) × (join path ps ≡ some (g, ps')) × Joined ps g ps')
  unfolding DistinctEnvs
  join-Joined path [] absent all distinct = inl refl
  join-Joined path (p ∷ ps) absent (e, all) (alone, distinct) =
      elim (Bool-cases (same_path p.path path)) [
        | inl same ↦ inr (
          p.env,
          record p { count = suc p.count } ∷ ps,
          join-here path p ps same,
          join-head path p ps absent (e, all) (alone, distinct),
        )
        | inr other ↦
            elim (join-Joined path ps (or-false (p.env == h) (listed h ps) absent).1 all distinct) [
              | inl nowhere ↦ inl (join-nowhere path p ps other nowhere)
              | inr (g, ps', found, joined) ↦ inr (
                g,
                p ∷ ps',
                join-there path p ps ps' g other found,
                join-tail p ps g ps' absent e (alone, distinct) joined,
              )
            ]
      ]
