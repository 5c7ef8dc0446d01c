-- ===== src/Env/Opening.antt =====
-- `EnvWrap::openEnv` of src/env.cpp and the counts of the table.
use mathlib.Core.Path.{subst}
use lmdb_js.Prelude.{
  ℕ, zero, suc, ◌<◌, update, ◌≡◌, refl, sym, ap, ◌∙◌, ◌⊎◌, inl, inr, false, Bool-cases, Option,
  none, some, List, [], ◌∷◌, ◌++◌, ◌==◌, All, arith, same-==, one_if, update-away, update-there,
}
use lmdb_js.Env.{Handle, EnvPath, Table, Options, Lmdb, join, setup_code, open_flags, open_env}
use lmdb_js.Env.Counts.{
  points_to, points_to-some, holders, holders-update, holders-zero, is_in, listed, Entry, IsCounted,
  All-others, refl-==, ==_sym,
}
use lmdb_js.Env.Leave.{other-Entry, others-Entry, holders-left}
use lmdb_js.Env.Close.{update-other, unclosed-other}
use lmdb_js.Env.Entering.{listed-before, Distinct-append, All-append, update-some}
use lmdb_js.Env.Join.{Joined, join-Joined, listed-apart}

nat-cases : (n : ℕ) → (n ≡ 0) ⊎ ((m : ℕ) × (n ≡ suc m))
nat-cases zero = inl refl
nat-cases (suc m) = inr (m, refl)

-- The wrap i has an environment that is not in the table.
module _ (n : ℕ) (t : Table) (counted : IsCounted n t) (i : ℕ) (below : i < n) (h : Handle)
    (at_i : t.env i ≡ some h) (absent : listed h t.envs ≡ false) where
  -- no other wrap has it
  apart : (j : ℕ) (g : Handle) → j < n → (j == i) ≡ false → t.env j ≡ some g → (g == h) ≡ false
  apart j g j_below other has = elim (Bool-cases (g == h)) [
    | inr away ↦ away
    | inl same ↦
        let at_j = has ∙ ap some (same-== g h same) in
        let one = counted.sole j i h j_below below at_j at_i absent in
        absurd (cc (other, ap (λ k. k == i) one, refl-== i))
  ]

  entries-closed :
      (env : ℕ → Option Handle) (ps : List EnvPath)
      → listed h ps ≡ false
      → All (Entry env n t.closed) ps
      → All (Entry env n (h ∷ t.closed)) ps
  entries-closed env ps away all =
      All-others h ps away
        (λ p other e. record {
          counted = e.counted;
          used = e.used;
          unclosed = unclosed-other h p.env t.closed other e.unclosed;
        })
        all

  abbrev joined : Handle → List EnvPath → Table
  joined g ps = record { envs = ps; env = update t.env i (some g); closed = h ∷ t.closed }

  joined-IsCounted :
      (g : Handle) (ps : List EnvPath)
      → Joined t.env n i below h at_i t.closed t.envs g ps
      → IsCounted n (joined g ps)
  joined-IsCounted g ps j = record {
    entries = entries-closed (update t.env i (some g)) ps (j.same h ∙ absent) j.entries;
    distinct = j.distinct;
    alive = λ k f k_below has. elim (update-some t.env i k g f has) [
      | inl (same, it) ↦
          subst (λ l. is_in l (h ∷ t.closed) ≡ false) it
            (unclosed-other h g t.closed (listed-apart g h t.envs j.there absent) j.unclosed)
      | inr (other, has') ↦
          unclosed-other h f t.closed (apart k f k_below other has')
            (counted.alive k f k_below has')
    ];
    sole = λ k l f k_below l_below has_k has_l away.
        let f_away = sym (j.same f) ∙ away in
        elim (update-some t.env i k g f has_k) [
          | inl (k_same, it) ↦ absurd (cc (it, f_away, j.there))
          | inr (k_other, has_k') ↦ elim (update-some t.env i l g f has_l) [
            | inl (l_same, it) ↦ absurd (cc (it, f_away, j.there))
            | inr (l_other, has_l') ↦ counted.sole k l f k_below l_below has_k' has_l' f_away
          ]
        ];
  }

  -- the environment is given up, or closed
  dropped-IsCounted : IsCounted n (record t { env = update t.env i none })
  dropped-IsCounted = record {
    entries = others-Entry t.env n i below h t.envs t.closed at_i absent counted.entries;
    distinct = counted.distinct;
    alive = λ j g j_below has. counted.alive j g j_below (update-other t.env i j g has).1;
    sole = λ j k g j_below k_below has_j has_k away.
        counted.sole j k g j_below k_below (update-other t.env i j g has_j).1
          (update-other t.env i k g has_k).1 away;
  }

  closed-IsCounted : IsCounted n (record t { env = update t.env i none; closed = h ∷ t.closed })
  closed-IsCounted = record {
    entries = entries-closed (update t.env i none) t.envs absent dropped-IsCounted.entries;
    distinct = counted.distinct;
    alive = λ j g j_below has.
        let (other, has') = update-other t.env i j g has in
        unclosed-other h g t.closed (apart j g j_below other has') (counted.alive j g j_below has');
    sole = dropped-IsCounted.sole;
  }

  away :
      (j : ℕ) → j < n → (j == i) ≡ false → (o : Option Handle) → t.env j ≡ o → points_to h o ≡ false
  away j j_below other none has = refl
  away j j_below other (some g) has = apart j g j_below other has

  alone : holders (update t.env i none) n h ≡ 0
  alone = holders-zero (update t.env i none) n h (λ j j_below. elim (Bool-cases (j == i)) [
    | inl same ↦ ap (points_to h) (update-there t.env i none j same)
    | inr other ↦
        ap (points_to h) (update-away t.env i none j other) ∙ away j j_below other (t.env j) refl
  ])

  entered-Entry :
      (path : List ℕ)
      → Entry (update t.env i (some h)) n t.closed (record { path = path; env = h; count = 1 })
  entered-Entry path = record {
    counted =
        (let one = holders-left t.env n i below h at_i in
          let moved = holders-update t.env i n (some h) h below in
          let before = ap one_if (points_to-some h (t.env i) at_i) in
          omega (arith, alone, one, moved, before, ap one_if (refl-== h)));
    used = omega arith;
    unclosed = counted.alive i h below at_i;
  }

  -- the environment has been opened
  entered-IsCounted :
      (path : List ℕ)
      → IsCounted n (record t {
        envs = t.envs ++ (record { path = path; env = h; count = 1 } ∷ []);
        env = update t.env i (some h);
      })
  entered-IsCounted path =
      let p : EnvPath = record { path = path; env = h; count = 1 } in
      record {
        entries =
            All-append (Entry (update t.env i (some h)) n t.closed) t.envs p
              (All-others h t.envs absent
                (λ q other e.
                  other-Entry t.env n i below (some h) (some h) q t.closed t.closed at_i
                    (==_sym h q.env ∙ other) (==_sym h q.env ∙ other) refl e)
                counted.entries)
              (entered-Entry path);
        distinct = Distinct-append t.envs p counted.distinct absent;
        alive = λ j g j_below has. elim (update-some t.env i j h g has) [
          | inl (same, it) ↦ subst (λ l. is_in l t.closed ≡ false) it (counted.alive i h below at_i)
          | inr (other, has') ↦ counted.alive j g j_below has'
        ];
        sole = λ j k g j_below k_below has_j has_k away.
            let (before, other) = listed-before g t.envs p away in
            elim (update-some t.env i j h g has_j) [
              | inl (same, it) ↦ absurd (cc (it, other, refl-== h))
              | inr (j_other, has_j') ↦ elim (update-some t.env i k h g has_k) [
                | inl (same, it) ↦ absurd (cc (it, other, refl-== h))
                | inr (k_other, has_k') ↦ counted.sole j k g j_below k_below has_j' has_k' before
              ]
            ];
      }

  module _ (lmdb : Lmdb) (o : Options) where
    join-found :
        (g : Handle) (ps : List EnvPath)
        → join o.path t.envs ≡ some (g, ps)
        → open_env lmdb i h o t ≡ (0, joined g ps)
    unfolding open_env
    join-found g ps found = simp (open_env, found)

    refused :
        (c : ℕ)
        → join o.path t.envs ≡ none
        → setup_code lmdb h o ≡ suc c
        → open_env lmdb i h o t ≡ (suc c, record t { env = update t.env i none })
    unfolding open_env
    refused c new fails = simp (open_env, new, fails)

    unopened :
        (c : ℕ)
        → join o.path t.envs ≡ none
        → setup_code lmdb h o ≡ 0
        → lmdb.env_open h o.path (open_flags o.flags) ≡ suc c
        → open_env lmdb i h o t
          ≡ (suc c, record t { env = update t.env i none; closed = h ∷ t.closed })
    unfolding open_env
    unopened c new ready fails = simp (open_env, new, ready, fails)

    opened :
        join o.path t.envs ≡ none
        → setup_code lmdb h o ≡ 0
        → lmdb.env_open h o.path (open_flags o.flags) ≡ 0
        → open_env lmdb i h o t ≡ (
          0,
          record t {
            envs = t.envs ++ (record { path = o.path; env = h; count = 1 } ∷ []);
            env = update t.env i (some h);
          },
        )
    unfolding open_env
    opened new ready succeeds = simp (open_env, new, ready, succeeds)

    pub open_env-IsCounted : IsCounted n (open_env lmdb i h o t).1
    open_env-IsCounted =
        elim (join-Joined t.env n i below h at_i t.closed o.path t.envs absent counted.entries
          counted.distinct) [
            | inr (g, ps, found, j) ↦
                subst (λ r. IsCounted n r.1) (sym (join-found g ps found)) (joined-IsCounted g ps j)
            | inl new ↦ elim (nat-cases (setup_code lmdb h o)) [
              | inr (c, fails) ↦
                  subst (λ r. IsCounted n r.1) (sym (refused c new fails)) dropped-IsCounted
              | inl ready ↦ elim (nat-cases (lmdb.env_open h o.path (open_flags o.flags))) [
                | inr (c, fails) ↦
                    subst (λ r. IsCounted n r.1) (sym (unopened c new ready fails)) closed-IsCounted
                | inl succeeds ↦
                    subst (λ r. IsCounted n r.1) (sym (opened new ready succeeds))
                      (entered-IsCounted o.path)
              ]
            ]
          ]
