-- ===== src/Env/Close.antt =====
-- `EnvWrap::closeEnv` of src/env.cpp and the counts of the table.
use mathlib.Core.Path.{subst}
use lmdb_js.Prelude.{
  ℕ, ◌<◌, update, ◌≡◌, refl, sym, ap, ◌∙◌, inl, inr, Bool, true, false, Bool-cases, Option-cases,
  Option, none, some, List, ◌∷◌, ◌==◌, if◌then◌else◌, same-==, update-away, update-there,
}
use lmdb_js.Env.{Handle, EnvPath, Table, leave, close_env}
use lmdb_js.Env.Counts.{points_to-some, zero-holders, is_in, listed, IsCounted, All-others, ==_sym}
use lmdb_js.Env.Leave.{Left, leave-Left}

-- a wrap that has something is not the one that has nothing now
pub update-other :
    (env : ℕ → Option Handle) (i j : ℕ) (h : Handle)
    → update env i none j ≡ some h
    → ((j == i) ≡ false) × (env j ≡ some h)
update-other env i j h has = elim (Bool-cases (j == i)) [
  | inl same ↦ absurd (cc (update-there env i none j same, has))
  | inr other ↦ (other, sym (update-away env i none j other) ∙ has)
]

pub unclosed-other :
    (h g : Handle) (closed : List Handle)
    → (g == h) ≡ false
    → is_in g closed ≡ false
    → is_in g (h ∷ closed) ≡ false
unclosed-other h g closed other unclosed = rw (==_sym h g ∙ other) unclosed

-- the table after `closeEnv` of a wrap that has `h`
abbrev pub left : ℕ → Handle → Bool × List EnvPath → Table → Table
left i h r t = record {
  envs = r.1;
  env = update t.env i none;
  closed = if r.0 then h ∷ t.closed else t.closed;
}

module _ (n : ℕ) (t : Table) (counted : IsCounted n t) (i : ℕ) (below : i < n) (h : Handle)
    (at_i : t.env i ≡ some h) where
  -- the environment is closed
  last-IsCounted :
      (ps : List EnvPath)
      → Left t.env n i below h t.closed t.envs (true, ps)
      → IsCounted n (left i h (true, ps) t)
  last-IsCounted ps l =
      let apart : (j : ℕ) (g : Handle)
          → j < n
          → t.env j ≡ some g
          → (j == i) ≡ false
          → (g == h) ≡ false =
        λ j g j_below has other. elim (Bool-cases (g == h)) [
          | inr g_other ↦ g_other
          | inl same ↦
              let away = zero-holders (update t.env i none) n h j (l.nobody refl) j_below in
              let points =
                points_to-some h (update t.env i none j)
                  (update-away t.env i none j other ∙ has ∙ ap some (same-== g h same)) in
              absurd (cc (away, points))
        ] in
      record {
        entries =
            All-others h ps (l.gone refl)
              (λ p other e. record {
                counted = e.counted;
                used = e.used;
                unclosed = unclosed-other h p.env t.closed other e.unclosed;
              })
              l.entries;
        distinct = l.distinct;
        alive = λ j g j_below has.
            let (other, has') = update-other t.env i j g has in
            unclosed-other h g t.closed (apart j g j_below has' other)
              (counted.alive j g j_below has');
        sole = λ j k g j_below k_below has_j has_k absent.
            let (j_other, has_j') = update-other t.env i j g has_j in
            let (k_other, has_k') = update-other t.env i k g has_k in
            counted.sole j k g j_below k_below has_j' has_k'
              (sym (l.others g (apart j g j_below has_j' j_other)) ∙ absent);
      }

  -- the environment is not closed
  more-IsCounted :
      (ps : List EnvPath)
      → Left t.env n i below h t.closed t.envs (false, ps)
      → IsCounted n (left i h (false, ps) t)
  more-IsCounted ps l =
      let same_listed : (g : Handle) → listed g ps ≡ listed g t.envs = λ g.
        elim (Bool-cases (g == h)) [
          | inl same ↦
              subst (λ k. listed k ps ≡ listed k t.envs) (sym (same-== g h same)) (l.stays refl)
          | inr other ↦ l.others g other
        ] in
      record {
        entries = l.entries;
        distinct = l.distinct;
        alive = λ j g j_below has. counted.alive j g j_below (update-other t.env i j g has).1;
        sole = λ j k g j_below k_below has_j has_k absent.
            counted.sole j k g j_below k_below (update-other t.env i j g has_j).1
              (update-other t.env i k g has_k).1 (sym (same_listed g) ∙ absent);
      }

  left-IsCounted :
      (r : Bool × List EnvPath)
      → Left t.env n i below h t.closed t.envs r
      → IsCounted n (left i h r t)
  left-IsCounted (true, ps) l = last-IsCounted ps l
  left-IsCounted (false, ps) l = more-IsCounted ps l

  pub close_env-left : close_env i t ≡ left i h (leave h t.envs) t
  unfolding close_env
  close_env-left = simp (close_env, at_i)

  pub close_env-has : IsCounted n (close_env i t)
  close_env-has = subst (IsCounted n) (sym close_env-left) (
      left-IsCounted (leave h t.envs)
        (leave-Left t.env n i below h t.closed t.envs at_i counted.entries counted.distinct))

pub close_env-IsCounted :
    (n : ℕ) (t : Table) (i : ℕ) → i < n → IsCounted n t → IsCounted n (close_env i t)
unfolding close_env
close_env-IsCounted n t i below counted = elim (Option-cases (t.env i)) [
  | inl nothing ↦ simp (close_env, nothing) counted
  | inr (h, at_i) ↦ close_env-has n t counted i below h at_i
]
