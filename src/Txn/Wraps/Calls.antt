-- ===== src/Txn/Wraps/Calls.antt =====
-- The calls of src/txn.cpp, `getReadTxn` and `resetCurrentReadTxn` of src/env.cpp, in any order.
use mathlib.Core.Path.{subst}
use lmdb_js.Prelude.{
  ℕ, ◌≡◌, sym, inl, inr, Bool, false, Option-cases, Option, some, List, [], ◌∷◌, arith,
}
use lmdb_js.Txn.State.{Handle, Worker, Env, Host}
use lmdb_js.Txn.Wraps.{
  points_to, end_wrap, Outcome, code, closed, Request, abort, reset, destroy, reset_current_read,
  commit, renew, create, get_read_txn,
}
use lmdb_js.Txn.Wraps.Tracking.{IsTracked, IsFresh, end_wrap-IsTracked}
use lmdb_js.Txn.Wraps.Attach.{after}
use lmdb_js.Txn.Wraps.Begin.{begin_wrapped, begun, IsBeginning, begin_wrapped-IsTracked}
use lmdb_js.Txn.Wraps.Create.{created, RefusesReaders, create-IsTracked}

-- a call of a method, with the wrap that it is called on
pub data Call : Type 0 where
  create_at : ℕ → Request → Option ℕ → Call
  abort_at : ℕ → Call
  commit_at : ℕ → Call
  reset_at : ℕ → Call
  renew_at : ℕ → Call
  destroy_at : ℕ → Call
  get_read : Call
  reset_read : Call
  begin_at : ℕ → ℕ → Call

module _ (host : Host) where
  -- the state that a call leaves
  unfoldable pub call : Call → Env → Env
  call (create_at i request parent) e = created host e (create host i request parent e)
  call (abort_at i) e = after host e (abort i e)
  call (commit_at i) e = after host e (commit host i e)
  call (reset_at i) e = after host e (reset i e)
  call (renew_at i) e = after host e (renew host i e)
  call (destroy_at i) e = destroy i e
  call get_read e = (get_read_txn host e).1
  call reset_read e = reset_current_read e
  call (begin_at i flags) e = begun host e (begin_wrapped host i flags e)

  unfoldable pub calls : List Call → Env → Env
  calls [] e = e
  calls (c ∷ cs) e = calls cs (call c e)

  -- A new wrap stands where no pointer leads, and LMDB begins the transaction of a reader that
  -- `TxnWrap::begin` asks for.
  unfoldable pub IsAllowed : Call → Env → Type 0
  IsAllowed (create_at i request parent) e = IsFresh i e × (points_to i parent ≡ false)
  IsAllowed (begin_at i flags) e = IsBeginning host i flags e
  IsAllowed _ e = Unit

  unfoldable pub AreAllowed : List Call → Env → Type 0
  AreAllowed [] e = Unit
  AreAllowed (c ∷ cs) e = IsAllowed c e × AreAllowed cs (call c e)

  -- fields that readers and writers are not kept in
  same-IsTracked :
      (held renewed : Bool) (worker : Option Worker) (read : Option Handle) (e : Env)
      → IsTracked e
      → IsTracked
          (record e { locked = held; renewed = renewed; worker = worker; current_read = read })
  same-IsTracked held renewed worker read e t = record {
    listed = t.listed;
    distinct = t.distinct;
    current = t.current;
    parents = t.parents;
  }

  after-closed : (e : Env) (o : Outcome) → o ≡ closed → IsTracked e → IsTracked (after host e o)
  unfolding after
  after-closed e o ends t = simp (ends, after) t

  after-code :
      (e e' : Env) (o : Outcome) (n : ℕ) → o ≡ code n e' → IsTracked e' → IsTracked (after host e o)
  unfolding after
  after-code e e' o n ends t = simp (ends, after) t

  abort-IsTracked : (i : ℕ) (e : Env) → IsTracked e → IsTracked (after host e (abort i e))
  unfolding abort
  abort-IsTracked i e t = elim (Option-cases (e.wrap i).txn) [
    | inl shut ↦ after-closed e (abort i e) (simp (abort, shut)) t
    | inr (h, opened) ↦
        after-code e (end_wrap i e) (abort i e) 0 (simp (abort, opened)) (end_wrap-IsTracked i e t)
  ]

  commit-IsTracked : (i : ℕ) (e : Env) → IsTracked e → IsTracked (after host e (commit host i e))
  unfolding commit
  commit-IsTracked i e t = elim (Option-cases (e.wrap i).txn) [
    | inl shut ↦ after-closed e (commit host i e) (simp (commit, shut)) t
    | inr (h, opened) ↦ elim (Option-cases e.worker) [
      | inl alone ↦
          after-code e (end_wrap i e) (commit host i e) (host.commit_code e (some h))
            (simp (commit, opened, alone)) (end_wrap-IsTracked i e t)
      | inr (w, works) ↦
          let e' : Env = record e { locked = false } in
          after-code e (end_wrap i e') (commit host i e) (host.commit_code e (some h))
            (simp (commit, opened, works))
            (end_wrap-IsTracked i e' (same-IsTracked false e.renewed e.worker e.current_read e t))
    ]
  ]

  reset-IsTracked : (i : ℕ) (e : Env) → IsTracked e → IsTracked (after host e (reset i e))
  unfolding reset
  reset-IsTracked i e t = elim (Option-cases (e.wrap i).txn) [
    | inl shut ↦ after-closed e (reset i e) (simp (reset, shut)) t
    | inr (h, opened) ↦
        after-code e (record e { renewed = false }) (reset i e) 0 (simp (reset, opened))
          (same-IsTracked e.locked false e.worker e.current_read e t)
  ]

  renew-IsTracked : (i : ℕ) (e : Env) → IsTracked e → IsTracked (after host e (renew host i e))
  unfolding renew
  renew-IsTracked i e t = elim (Option-cases (e.wrap i).txn) [
    | inl shut ↦ after-closed e (renew host i e) (simp (renew, shut)) t
    | inr (h, opened) ↦
        after-code e e (renew host i e) (host.renew_code e (some h)) (simp (renew, opened)) t
  ]

  destroy-IsTracked : (i : ℕ) (e : Env) → IsTracked e → IsTracked (destroy i e)
  unfolding destroy
  destroy-IsTracked i e t = elim (Option-cases (e.wrap i).txn) [
    | inl shut ↦ simp (destroy, shut) t
    | inr (h, opened) ↦ simp (destroy, opened) (end_wrap-IsTracked i e t)
  ]

  get_read-kept :
      (e : Env)
      → (get_read_txn host e).1 ≡ record e {
        current_read = (get_read_txn host e).1.current_read;
        renewed = (get_read_txn host e).1.renewed;
      }
  unfolding get_read_txn
  get_read-kept e = ground arith

  get_read-IsTracked : (e : Env) → IsTracked e → IsTracked (get_read_txn host e).1
  get_read-IsTracked e t =
      let e' = (get_read_txn host e).1 in
      subst (λ e''. IsTracked e'') (sym (get_read-kept e))
        (same-IsTracked e.locked e'.renewed e.worker e'.current_read e t)

  call-IsTracked :
      RefusesReaders host
      → (c : Call) (e : Env) → IsAllowed c e
      → IsTracked e
      → IsTracked (call c e)
  unfolding call IsAllowed
  call-IsTracked refuses (create_at i request parent) e (fresh, other) t =
      create-IsTracked host refuses i request parent e t fresh other
  call-IsTracked refuses (abort_at i) e allowed t = abort-IsTracked i e t
  call-IsTracked refuses (commit_at i) e allowed t = commit-IsTracked i e t
  call-IsTracked refuses (reset_at i) e allowed t = reset-IsTracked i e t
  call-IsTracked refuses (renew_at i) e allowed t = renew-IsTracked i e t
  call-IsTracked refuses (destroy_at i) e allowed t = destroy-IsTracked i e t
  call-IsTracked refuses get_read e allowed t = get_read-IsTracked e t
  call-IsTracked refuses reset_read e allowed t =
      same-IsTracked e.locked false e.worker e.current_read e t
  call-IsTracked refuses (begin_at i flags) e allowed t =
      begin_wrapped-IsTracked host i flags e t allowed

  -- Any calls that make transactions by the constructor or by `TxnWrap::begin`, commit, abort,
  -- reset, renew and destroy them, or ask for the current read transaction or reset it, keep the
  -- lists of an environment: each listed wrap is an open read transaction and listed once, and what
  -- is or becomes the current write transaction is not a reader. This is so if LMDB begins no
  -- transaction inside a reader, a new wrap stands where no pointer leads, and LMDB does not refuse
  -- the read transaction that `TxnWrap::begin` asks for.
  pub calls-IsTracked :
      RefusesReaders host
      → (cs : List Call) (e : Env) → AreAllowed cs e
      → IsTracked e
      → IsTracked (calls cs e)
  unfolding calls AreAllowed
  calls-IsTracked refuses [] e allowed t = t
  calls-IsTracked refuses (c ∷ cs) e (first, rest) t =
      calls-IsTracked refuses cs (call c e) rest (call-IsTracked refuses c e first t)
