-- ===== src/Txn/State.antt =====
-- The state that the transactions of an `EnvWrap` (src/lmdb-js.h) share.
use lmdb_js.Prelude.{ℕ, Bool, true, false, Option, List}

-- `MDB_txn *` that are not null; `none` stands for null
abbrev pub Handle : Type 0
Handle = ℕ

-- the values of `interruptionStatus`
pub data Interruption : Type 0 where
  idle : Interruption
  allow_commit : Interruption
  interrupt_batch : Interruption
  restart_worker_txn : Interruption
  user_has_lock : Interruption

abbrev pub is_allow_commit : Interruption → Bool
is_allow_commit allow_commit = true
is_allow_commit _ = false

-- the fields of a `WriteWorker` that the main thread uses
pub record Worker : Type 0 where
  pub txn : Option Handle
  pub interruption : Interruption

-- `TxnTracked`; its `parent` is the rest of the list that it stands in
pub record Tracked : Type 0 where
  pub txn : Option Handle
  pub flags : ℕ

-- A `TxnWrap`: its transaction, its parent, its flags, and whether `ew` is set.
pub record TxnWrap : Type 0 where
  pub txn : Option Handle
  pub parent : Option ℕ
  pub flags : ℕ
  pub attached : Bool

-- An `EnvWrap`. `write_txns` is `writeTxn` with its parents, the current one first; `locked` tells
-- whether the main thread holds `writingLock`. Wraps are named by numbers. `ended` has the
-- transactions that LMDB has committed or aborted, the last one first.
pub record Env : Type 0 where
  pub write_map : Bool
  pub worker : Option Worker
  pub locked : Bool
  pub write_txns : List Tracked
  pub current_write : Option ℕ
  pub read_txns : List ℕ
  pub current_read : Option Handle
  pub renewed : Bool
  pub wrap : ℕ → TxnWrap
  pub ended : List Handle

-- What the code leaves to LMDB and to the worker's thread: `mdb_txn_begin` with a parent and flags,
-- which gives no transaction if it fails; the codes of `mdb_txn_commit` and `mdb_txn_renew`; and
-- what becomes of the worker while the main thread waits.
pub record Host : Type 0 where
  pub begin : Env → Option Handle → ℕ → Option Handle
  pub begin_code : Env → Option Handle → ℕ → ℕ
  pub commit_code : Env → Option Handle → ℕ
  pub renew_code : Env → Option Handle → ℕ
  pub meanwhile : Worker → Worker
