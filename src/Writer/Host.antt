-- ===== src/Writer/Host.antt =====
-- What `DoWrites` of src/writer.cpp calls and shares: LMDB, and the other threads.
use lmdb_js.Prelude.{ℕ, Bool, List}
use lmdb_js.Writer.Instr.{Double}

-- the return codes that `DoWrites` tells apart
pub data Rc : Type 0 where
  success : Rc
  key_exists : Rc
  not_found : Rc
  other : ℕ → Rc

-- `Txn` is the state of a transaction. `get` gives the record where the code is `success`.
-- `reserve` is `mdb_put` with `MDB_RESERVE`: with the code and the transaction it gives what the
-- transaction becomes when bytes are copied to the place that LMDB returned. The rest is what the
-- code does with a `double`: take it for an address, and compare versions.
pub record Host : Type 1 where
  pub Txn : Type 0
  pub get : Txn → ℕ → List ℕ → Rc × List ℕ
  pub put : Txn → ℕ → List ℕ → List ℕ → ℕ → Rc × Txn
  pub reserve : Txn → ℕ → List ℕ → ℕ → ℕ → Rc × Txn × (List ℕ → Txn)
  pub del : Txn → ℕ → List ℕ → Rc × Txn
  pub del_value : Txn → ℕ → List ℕ → List ℕ → Rc × Txn
  pub drop : Txn → ℕ → Bool → Rc × Txn
  pub buffer : Bool → Double → ℕ → List ℕ
  pub to_address : Double → ℕ
  pub is_any_version : Double → Bool
  pub is_version : Double → List ℕ → Bool

-- What the worker shares with other threads: the instruction buffer, the transaction (a waiting
-- worker may have it committed and begun again), and `finishedProgress`.
pub record World (Txn : Type 0) : Type 0 where
  pub mem : ℕ → ℕ
  pub txn : Txn
  pub finished : Bool

-- The other threads: what they do just before the worker's compare and exchange on a flag word, and
-- while the worker is in `WaitForCallbacks`, which is told whether it may commit.
pub record Others (Txn : Type 0) : Type 0 where
  pub interfere : World Txn → World Txn
  pub wait : Bool → World Txn → World Txn
