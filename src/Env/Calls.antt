-- ===== src/Env/Calls.antt =====
-- The wraps of src/env.cpp that are made, opened and closed in any order, and their environments.
use mathlib.Core.Path.{subst}
use lmdb_js.Prelude.{
  ℕ, ◌<◌, ◌≡◌, refl, sym, ap, ◌∙◌, ◌⊎◌, inl, inr, false, Option-cases, Option, none, some, List, [],
  ◌∷◌, same-==,
}
use lmdb_js.Env.{Handle, Table, Options, Lmdb, construct, open_env, open_wrap, close_env, close}
use lmdb_js.Env.Counts.{
  points_to, points_to-some, is_in, listed, DistinctEnvs, IsCounted, All-others, ==_sym,
}
use lmdb_js.Env.Leave.{other-Entry}
use lmdb_js.Env.Close.{close_env-IsCounted}
use lmdb_js.Env.Entering.{update-some}
use lmdb_js.Env.Opening.{open_env-IsCounted}

pub data Call : Type 0 where
  construct_at : ℕ → Handle → Call
  open_at : ℕ → Options → Call
  close_at : ℕ → Call

-- no wrap has an environment yet
abbrev pub start : Table
start = record { envs = []; env = λ i. none; closed = [] }

abbrev kept_or : Table → Option Table → Table
kept_or t none = t
kept_or t (some t') = t'

-- The wrap is one of the first n. A new wrap has a new environment, and a wrap is opened once.
unfoldable pub IsAllowed : ℕ → Call → Table → Type 0
IsAllowed n (construct_at i h) t =
    (i < n)
    × (t.env i ≡ none)
    × (is_in h t.closed ≡ false)
    × (listed h t.envs ≡ false)
    × ((j : ℕ) → j < n → points_to h (t.env j) ≡ false)
IsAllowed n (open_at i o) t = (i < n) × ((h : Handle) → t.env i ≡ some h → listed h t.envs ≡ false)
IsAllowed n (close_at i) t = i < n

other-has :
    (env : ℕ → Option Handle) (n k : ℕ) (h g : Handle)
    → points_to h (env k) ≡ false
    → env k ≡ some g
    → h ≡ g
    → ⊥
other-has env n k h g away has it =
    let points = points_to-some h (env k) (has ∙ ap some (sym it)) in cc (away, points)

construct-IsCounted :
    (n i : ℕ) (h : Handle) (t : Table)
    → IsAllowed n (construct_at i h) t
    → IsCounted n t
    → IsCounted n (construct i h t)
unfolding IsAllowed
construct-IsCounted n i h t (below, nothing, unclosed, absent, away) counted = record {
  entries =
      All-others h t.envs absent
        (λ p other e.
          other-Entry t.env n i below none (some h) p t.closed t.closed nothing refl
            (==_sym h p.env ∙ other) refl e)
        counted.entries;
  distinct = counted.distinct;
  alive = λ j g j_below has. elim (update-some t.env i j h g has) [
    | inl (same, it) ↦ subst (λ l. is_in l t.closed ≡ false) it unclosed
    | inr (other, has') ↦ counted.alive j g j_below has'
  ];
  sole = λ j k g j_below k_below has_j has_k free. elim (update-some t.env i j h g has_j) [
    | inl (j_same, it) ↦ elim (update-some t.env i k h g has_k) [
      | inl (k_same, it') ↦ same-== j i j_same ∙ sym (same-== k i k_same)
      | inr (k_other, has_k') ↦ absurd (other-has t.env n k h g (away k k_below) has_k' it)
    ]
    | inr (j_other, has_j') ↦ elim (update-some t.env i k h g has_k) [
      | inl (k_same, it) ↦ absurd (other-has t.env n j h g (away j j_below) has_j' it)
      | inr (k_other, has_k') ↦ counted.sole j k g j_below k_below has_j' has_k' free
    ]
  ];
}

module _ (lmdb : Lmdb) where
  -- the table that a call leaves
  unfoldable pub call : Call → Table → Table
  call (construct_at i h) t = construct i h t
  call (open_at i o) t = elim (open_wrap lmdb i o t) [ none ↦ t | some (c, t') ↦ t' ]
  call (close_at i) t = kept_or t (close i t)

  unfoldable pub calls : List Call → Table → Table
  calls [] t = t
  calls (c ∷ cs) t = calls cs (call c t)

  unfoldable pub AreAllowed : ℕ → List Call → Table → Type 0
  AreAllowed n [] t = Unit
  AreAllowed n (c ∷ cs) t = IsAllowed n c t × AreAllowed n cs (call c t)

  -- a call without a wrap's environment throws
  open-cases :
      (i : ℕ) (o : Options) (t : Table)
      → (call (open_at i o) t ≡ t)
        ⊎ ((h : Handle) × (t.env i ≡ some h) × (call (open_at i o) t ≡ (open_env lmdb i h o t).1))
  unfolding call open_wrap
  open-cases i o t = elim (Option-cases (t.env i)) [
    | inl nothing ↦ inl (simp (call, open_wrap, nothing))
    | inr (h, has) ↦ inr (h, has, simp (call, open_wrap, has))
  ]

  close-cases :
      (i : ℕ) (t : Table) → (call (close_at i) t ≡ t) ⊎ (call (close_at i) t ≡ close_env i t)
  unfolding call close
  close-cases i t = elim (Option-cases (t.env i)) [
    | inl nothing ↦ inl (simp (call, close, nothing))
    | inr (h, has) ↦ inr (simp (call, close, has))
  ]

  call-construct :
      (n i : ℕ) (h : Handle) (t : Table)
      → IsAllowed n (construct_at i h) t
      → IsCounted n t
      → IsCounted n (call (construct_at i h) t)
  unfolding call
  call-construct n i h t allowed counted = construct-IsCounted n i h t allowed counted

  call-IsCounted :
      (n : ℕ) (c : Call) (t : Table) → IsAllowed n c t → IsCounted n t → IsCounted n (call c t)
  unfolding IsAllowed
  call-IsCounted n (construct_at i h) t allowed counted = call-construct n i h t allowed counted
  call-IsCounted n (open_at i o) t (below, once) counted = elim (open-cases i o t) [
    | inl throws ↦ subst (IsCounted n) (sym throws) counted
    | inr (h, has, opens) ↦
        subst (IsCounted n) (sym opens)
          (open_env-IsCounted n t counted i below h has (once h has) lmdb o)
  ]
  call-IsCounted n (close_at i) t below counted = elim (close-cases i t) [
    | inl throws ↦ subst (IsCounted n) (sym throws) counted
    | inr closes ↦ subst (IsCounted n) (sym closes) (close_env-IsCounted n t i below counted)
  ]

  calls-kept :
      (n : ℕ) (cs : List Call) (t : Table)
      → AreAllowed n cs t
      → IsCounted n t
      → IsCounted n (calls cs t)
  unfolding calls AreAllowed
  calls-kept n [] t allowed counted = counted
  calls-kept n (c ∷ cs) t (first, rest) counted =
      calls-kept n cs (call c t) rest (call-IsCounted n c t first counted)

  start-IsCounted : (n : ℕ) → IsCounted n start
  unfolding DistinctEnvs
  start-IsCounted n = record {
    entries = tt;
    distinct = tt;
    alive = λ i h below has. refl;
    sole = λ i j h i_below j_below has_i has_j absent. absurd (cc has_i);
  }

  -- From the empty table, any calls that make, open and close the first n wraps, where a new
  -- wrap has an environment that no wrap and no entry has and that is not closed, and a wrap
  -- whose environment is in the table is not opened again: each entry counts the wraps that
  -- have its environment, is used by one at least and is not closed; no two entries have the
  -- same environment; no wrap has an environment that has been closed; and an environment
  -- outside the table is one wrap's.
  pub calls-IsCounted :
      (n : ℕ) (cs : List Call) → AreAllowed n cs start → IsCounted n (calls cs start)
  calls-IsCounted n cs allowed = calls-kept n cs start allowed (start-IsCounted n)
