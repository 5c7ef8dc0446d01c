-- ===== src/Env/Last.antt =====
-- The last wrap of an environment closes it: `EnvWrap::closeEnv` of src/env.cpp.
use mathlib.Core.Path.{subst}
use lmdb_js.Prelude.{
  ℕ, ◌≤◌, ◌<◌, update, ◌≡◌, refl, sym, ap, ◌∙◌, inl, inr, Bool, true, false, Bool-cases, Option,
  none, some, List, [], ◌∷◌, ◌==◌, All, arith, same-==,
}
use lmdb_js.Env.{Handle, EnvPath, Table, leave, close_env}
use lmdb_js.Env.Counts.{holders, is_in, listed, Entry, IsCounted, refl-==}
use lmdb_js.Env.Leave.{Left, leave-Left}
use lmdb_js.Env.Close.{left, close_env-left}

-- a listed environment has a wrap
listed-held :
    (env : ℕ → Option Handle) (n : ℕ) (closed : List Handle) (h : Handle) (ps : List EnvPath)
    → listed h ps ≡ true
    → All (Entry env n closed) ps
    → (1 ≤ holders env n h) × (is_in h closed ≡ false)
listed-held env n closed h [] there all = absurd (cc there)
listed-held env n closed h (p ∷ ps) there (e, all) = elim (Bool-cases (p.env == h)) [
  | inl same ↦
      let it = same-== p.env h same in
      (
        omega (arith, e.used, e.counted, ap (holders env n) it),
        ap (λ g. is_in g closed) (sym it) ∙ e.unclosed,
      )
  | inr other ↦ listed-held env n closed h ps (sym (rw other refl) ∙ there) all
]

-- The environment is closed if no wrap has it now.
abbrev pub ClosesLast : ℕ → Handle → Table → Type 0
ClosesLast n h t = is_in h t.closed ≡ (holders t.env n h == 0)

some-holder : (k : ℕ) → 1 ≤ k → (k == 0) ≡ false
some-holder k held = ground arith

left-ClosesLast :
    (n : ℕ) (t : Table) (i : ℕ) (below : i < n) (h : Handle) (r : Bool × List EnvPath)
    → listed h t.envs ≡ true
    → IsCounted n t
    → Left t.env n i below h t.closed t.envs r
    → ClosesLast n h (left i h r t)
left-ClosesLast n t i below h (true, ps) there counted l =
    rw (refl-== h) (sym (ap (λ k. k == 0) (l.nobody refl)))
left-ClosesLast n t i below h (false, ps) there counted l =
    let (held, unclosed) =
      listed-held (update t.env i none) n t.closed h ps (l.stays refl ∙ there) l.entries in
    unclosed ∙ sym (some-holder (holders (update t.env i none) n h) held)

-- Closing a wrap, one of the first n, whose environment is in the table, in a state whose counts
-- are right: the environment is closed if and only if no wrap has it any longer.
pub close_env-ClosesLast :
    (n : ℕ) (t : Table) (i : ℕ) (h : Handle)
    → i < n
    → t.env i ≡ some h
    → listed h t.envs ≡ true
    → IsCounted n t
    → ClosesLast n h (close_env i t)
close_env-ClosesLast n t i h below has there counted =
    subst (ClosesLast n h) (sym (close_env-left n t counted i below h has)) (
      left-ClosesLast n t i below h (leave h t.envs) there counted
        (leave-Left t.env n i below h t.closed t.envs has counted.entries counted.distinct))
