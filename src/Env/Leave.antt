-- ===== src/Env/Leave.antt =====
-- The loops of `openEnv` and `closeEnv` of src/env.cpp and the counts.
use mathlib.Core.Path.{subst}
use lmdb_js.Prelude.{
  ℕ, ◌+◌, ◌-◌, ◌≤◌, ◌<◌, update, leb, ◌≡◌, refl, sym, ap, ◌∙◌, inl, inr, Bool, true, false, ◌||◌,
  Bool-cases, Option, none, some, List, [], ◌∷◌, ◌==◌, All, arith, same-==, one_if,
}
use lmdb_js.Env.{Handle, EnvPath, leave}
use lmdb_js.Env.Counts.{
  points_to, holders, is_in, listed, DistinctEnvs, Entry, holders-update, points_to-some,
  All-others, ==_sym,
}

last-few : (c : ℕ) → leb (c - 1) 0 ≡ true → c ≤ 1
last-few c last = ground arith

more-many : (c : ℕ) → leb (c - 1) 0 ≡ false → 2 ≤ c
more-many c more = ground arith

listed-other :
    (h g : Handle) (p : EnvPath) (ps : List EnvPath)
    → p.env ≡ h
    → (g == h) ≡ false
    → listed g (p ∷ ps) ≡ listed g ps
listed-other h g p ps it other =
    let apart : (p.env == g) ≡ false = ap (λ k. k == g) it ∙ ==_sym h g ∙ other in rw apart refl

-- the cases of the loop
leave-last :
    (h : Handle) (p : EnvPath) (ps : List EnvPath)
    → (p.env == h) ≡ true
    → leb (p.count - 1) 0 ≡ true
    → leave h (p ∷ ps) ≡ (true, ps)
leave-last h p ps same last = rw (same, last) refl

leave-more :
    (h : Handle) (p : EnvPath) (ps : List EnvPath)
    → (p.env == h) ≡ true
    → leb (p.count - 1) 0 ≡ false
    → leave h (p ∷ ps) ≡ (false, record p { count = p.count - 1 } ∷ ps)
leave-more h p ps same more = rw (same, more) refl

leave-other :
    (h : Handle) (p : EnvPath) (ps : List EnvPath)
    → (p.env == h) ≡ false
    → leave h (p ∷ ps) ≡ ((leave h ps).0, p ∷ (leave h ps).1)
leave-other h p ps other = rw other refl

-- A wrap i, one of the first n, changes what it has.
module _ (env : ℕ → Option Handle) (n i : ℕ) (below : i < n) where
  -- the entry of another environment
  pub other-Entry :
      (o o' : Option Handle) (p : EnvPath) (closed closed' : List Handle)
      → env i ≡ o
      → points_to p.env o ≡ false
      → points_to p.env o' ≡ false
      → (is_in p.env closed' ≡ is_in p.env closed)
      → Entry env n closed p
      → Entry (update env i o') n closed' p
  other-Entry o o' p closed closed' at_i away away' same e = record {
    counted =
        (let moved = holders-update env i n o' p.env below in
          let before = ap (λ o. one_if (points_to p.env o)) at_i ∙ ap one_if away in
          omega (arith, e.counted, moved, before, ap one_if away'));
    used = e.used;
    unclosed = same ∙ e.unclosed;
  }

  -- `leave` and the wraps' environments, when the wrap i has `h` no longer
  pub record Left (h : Handle) (closed : List Handle) (ps : List EnvPath) (r : Bool × List EnvPath)
      : Type 0 where
    pub entries : All (Entry (update env i none) n closed) r.1
    pub distinct : DistinctEnvs r.1
    pub others : (g : Handle) → (g == h) ≡ false → listed g r.1 ≡ listed g ps
    pub stays : r.0 ≡ false → listed h r.1 ≡ listed h ps
    pub gone : r.0 ≡ true → listed h r.1 ≡ false
    pub nobody : r.0 ≡ true → holders (update env i none) n h ≡ 0

  pub others-Entry :
      (h : Handle) (ps : List EnvPath) (closed : List Handle)
      → env i ≡ some h
      → listed h ps ≡ false
      → All (Entry env n closed) ps
      → All (Entry (update env i none) n closed) ps
  others-Entry h ps closed at_i absent all =
      All-others h ps absent
        (λ p other e.
          other-Entry (some h) none p closed closed at_i (==_sym h p.env ∙ other) refl refl e)
        all

  pub holders-left :
      (h : Handle) → env i ≡ some h → holders (update env i none) n h + 1 ≡ holders env n h
  holders-left h at_i =
      let moved = holders-update env i n none h below in
      let before : one_if (points_to h (env i)) ≡ 1 = ap one_if (points_to-some h (env i) at_i) in
      omega (arith, moved, before)

  -- the entry of `h` itself
  own-Entry :
      (h : Handle) (p : EnvPath) (closed : List Handle)
      → env i ≡ some h
      → h ≡ p.env
      → 2 ≤ p.count
      → Entry env n closed p
      → Entry (update env i none) n closed (record p { count = p.count - 1 })
  own-Entry h p closed at_i same many e = record {
    counted =
        (let left = holders-left p.env (at_i ∙ ap some same) in omega (arith, e.counted, left));
    used = omega (arith, many);
    unclosed = e.unclosed;
  }

  last-holder :
      (h : Handle) (p : EnvPath) {closed : List Handle}
      → env i ≡ some h
      → p.env ≡ h
      → leb (p.count - 1) 0 ≡ true
      → Entry env n closed p
      → holders (update env i none) n h ≡ 0
  last-holder h p at_i it last e =
      let left = holders-left h at_i in
      let few = last-few p.count last in
      let counted : p.count ≡ holders env n h = e.counted ∙ ap (holders env n) it in
      omega (arith, left, few, counted)

  pub leave-Left :
      (h : Handle) (closed : List Handle) (ps : List EnvPath)
      → env i ≡ some h
      → All (Entry env n closed) ps
      → DistinctEnvs ps
      → Left h closed ps (leave h ps)
  unfolding DistinctEnvs
  leave-Left h closed [] at_i all distinct = record {
    entries = tt;
    distinct = tt;
    others = λ g other. refl;
    stays = λ open_still. refl;
    gone = λ closes. refl;
    nobody = λ closes. absurd (cc closes);
  }
  leave-Left h closed (p ∷ ps) at_i (e, all) (alone, distinct) = elim (Bool-cases (p.env == h)) [
    | inl same ↦
        let it = same-== p.env h same in
        let absent : listed h ps ≡ false = ap (λ g. listed g ps) (sym it) ∙ alone in
        let rest = others-Entry h ps closed at_i absent all in
        elim (Bool-cases (leb (p.count - 1) 0)) [
          | inl last ↦ subst (Left h closed (p ∷ ps)) (sym (leave-last h p ps same last)) (record {
            entries = rest;
            distinct = distinct;
            others = λ g other. sym (listed-other h g p ps it other);
            stays = λ absurdly. absurd (cc absurdly);
            gone = λ closes. absent;
            nobody = λ closes. last-holder h p at_i it last e;
          })
          | inr more ↦ subst (Left h closed (p ∷ ps)) (sym (leave-more h p ps same more)) (record {
            entries = (own-Entry h p closed at_i (sym it) (more-many p.count more) e, rest);
            distinct = (alone, distinct);
            others = λ g other. refl;
            stays = λ still. refl;
            gone = λ absurdly. absurd (cc absurdly);
            nobody = λ absurdly. absurd (cc absurdly);
          })
        ]
    | inr other ↦
        let rest = leave-Left h closed ps at_i all distinct in
        subst (Left h closed (p ∷ ps)) (sym (leave-other h p ps other)) (record {
          entries = (
            other-Entry (some h) none p closed closed at_i (==_sym h p.env ∙ other) refl refl e,
            rest.entries,
          );
          distinct = (rest.others p.env other ∙ alone, rest.distinct);
          others = λ g g_other. ap (λ b. (p.env == g) || b) (rest.others g g_other);
          stays = λ still. ap (λ b. (p.env == h) || b) (rest.stays still);
          gone = λ closes. rw other (rest.gone closes);
          nobody = rest.nobody;
        })
  ]
