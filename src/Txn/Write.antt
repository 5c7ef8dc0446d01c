-- ===== src/Txn/Write.antt =====
-- Write transactions of the main thread: `EnvWrap::beginTxn`, `commitTxn`, `abortTxn` of src/env.cpp
-- with `AcquireTxn` and `UnlockTxn` of src/writer.cpp.
pub mod Nesting
use Prim.Native.Nat.{bit_and, bit_or}
use lmdb_js.Prelude.{
  ℕ, zero, ◌+◌, ◌-◌, Bool, true, false, not, ◌&&◌, ◌||◌, Option, none, some, List, [], ◌∷◌, ◌==◌,
  if◌then◌else◌, ◌>>=◌,
}
use lmdb_js.Txn.State.{
  Handle, Interruption, idle, allow_commit, interrupt_batch, user_has_lock, is_allow_commit, Worker,
  Tracked, TxnWrap, Env, Host,
}

-- `TXN_ABORTABLE`, `TXN_SYNCHRONOUS_COMMIT`, `TXN_FROM_WORKER`
abbrev pub is_abortable : ℕ → Bool
is_abortable flags = not (bit_and flags 1 == 0)

abbrev pub is_synchronous : ℕ → Bool
is_synchronous flags = not (bit_and flags 2 == 0)

abbrev pub from_worker : ℕ → ℕ
from_worker flags = bit_or flags 4

abbrev pub end_txn : Option Handle → List Handle → List Handle
end_txn none hs = hs
end_txn (some h) hs = h ∷ hs

-- `pthread_mutex_lock(writingLock)`; `none` if the thread holds the lock already and would wait for
-- itself
abbrev pub lock : Env → Option Env
lock e = if e.locked then none else some (record e { locked = true })

module _ (host : Host) where
  -- `WriteWorker::AcquireTxn`: the transaction, the flags, and the state
  unfoldable pub acquire : Worker → ℕ → Env → Option (Option Handle × ℕ × Env)
  acquire w flags e = lock e >>= λ e'.
      if is_synchronous flags && is_allow_commit w.interruption
      then some (
        none,
        from_worker flags,
        record e' { worker = some (host.meanwhile (record w { interruption = interrupt_batch })) },
      )
      else some (
        w.txn,
        from_worker flags,
        record e' { worker = some (record w { interruption = user_has_lock }) },
      )

  -- the transaction that the new one stands in, if there is one
  unfoldable pub current_txn : ℕ → Env → Option (Option Handle × ℕ × Env)
  unfolding acquire
  current_txn flags e = elim (e.write_txns) [
    | t ∷ ts ↦ some (t.txn, flags, e)
    | [] ↦ elim (e.worker) [
      | some w ↦ acquire w flags e
      | none ↦ lock e >>= λ e'. some (none, flags, e')
    ]
  ]

  -- `new TxnTracked`, whose `parent` is null unless the code sets it
  abbrev pub track : List Tracked → Option Handle → ℕ → Env → Env
  track parents txn flags e = record e {
    write_txns = record { txn = txn; flags = flags } ∷ parents;
  }

  -- `mdb_txn_begin` leaves the variable as it was if it fails
  abbrev pub begin_or : Env → Option Handle → ℕ → Option Handle → Option Handle
  begin_or e parent flags before = elim (host.begin e parent (bit_and flags 0xf0000)) [
    | none ↦ before
    | some h ↦ some h
  ]

  abbrev pub not_abortable : ℕ → ℕ
  not_abortable flags = flags - bit_and flags 1

  -- `EnvWrap::beginTxn` for a write transaction
  unfoldable pub begin_write : ℕ → Env → Option Env
  unfolding current_txn
  begin_write flags e = current_txn flags e >>= λ (txn, flags', e'). elim txn [
    | some h ↦
        if is_abortable flags'
        then (if e'.write_map
            then some (track [] (some h) (not_abortable flags') e')
            else some (track e'.write_txns (begin_or e' (some h) flags' (some h)) flags' e'))
        else some (track [] (some h) flags' e')
    | none ↦ some (track [] (begin_or e' none flags' none) (bit_or flags' 1) e')
  ]

  -- `WriteWorker::UnlockTxn`, or the unlocking without a worker
  abbrev pub unlock : Env → Env
  unlock e = elim (e.worker) [
    | none ↦ record e { locked = false }
    | some w ↦ record e { locked = false; worker = some (record w { interruption = idle }) }
  ]

  -- the end of `commitTxn` and of `abortTxn`
  abbrev pub pop : List Tracked → Env → Env
  pop parents e =
      let e' = record e { write_txns = parents } in elim parents [ [] ↦ unlock e' | t ∷ ts ↦ e' ]

  -- `EnvWrap::commitTxn`, which is also `commitEnvTxn`: the code, which is thrown if it is not 0.
  -- `none` is a null pointer.
  unfoldable pub commit_write : Env → Option (ℕ × Env)
  commit_write e = elim (e.write_txns) [
    | [] ↦ none
    | t ∷ ts ↦
        if is_abortable t.flags
        then some (host.commit_code e t.txn, pop ts (record e { ended = end_txn t.txn e.ended }))
        else some (0, pop ts e)
  ]

  -- `EnvWrap::abortTxn`, which is also `abortEnvTxn`: whether it throws, and the state
  unfoldable pub abort_write : Env → Option (Bool × Env)
  abort_write e = elim (e.write_txns) [
    | [] ↦ none
    | t ∷ ts ↦
        if is_abortable t.flags
        then some (false, pop ts (record e { ended = end_txn t.txn e.ended }))
        else some (true, pop ts e)
  ]
