-- ===== src/Txn/Write/Nesting.antt =====
-- Write transactions that are nested by `beginTxn` and `commitTxn` or `abortTxn` of src/env.cpp.
pub mod Opening
pub mod Restoring
use Prim.Native.Nat.{bit_and, bit_or}
use lmdb_js.Prelude.{
  ℕ, ◌≡◌, refl, ap, sym, ◌∙◌, ◌⊎◌, inl, inr, Bool, true, false, Bool-cases, Option-cases, Option,
  none, some, List, [], ◌∷◌, arith, ◌&&◌, if◌then◌else◌, ◌>>=◌,
}
use lmdb_js.Txn.State.{
  Handle, Worker, Tracked, Env, Host, is_allow_commit, interrupt_batch, user_has_lock,
}
use lmdb_js.Txn.Write.{
  is_abortable, not_abortable, from_worker, end_txn, is_synchronous, acquire, lock, current_txn,
  track, begin_or, begin_write, unlock, pop, commit_write, abort_write,
}

-- a transaction with its flags, those inside it, and whether it is committed
mutual
  pub data Nest : Type 0 where
    nest : ℕ → Nests → Bool → Nest

  pub data Nests : Type 0 where
    nil : Nests
    cons : Nest → Nests → Nests

-- the flags of the ones inside others have `TXN_ABORTABLE`
unfoldable mutual
  pub IsNestable : Nest → Type 0
  IsNestable (nest flags body commits) = AreChildren body

  pub AreChildren : Nests → Type 0
  AreChildren nil = Unit
  AreChildren (cons n ns) = IsChild n × AreChildren ns

  pub IsChild : Nest → Type 0
  IsChild (nest flags body commits) = (is_abortable flags ≡ true) × AreChildren body

module _ (host : Host) where
  -- `commitTxn` or `abortTxn`
  unfoldable pub end_current : Bool → Env → Option Env
  end_current true e = commit_write host e >>= λ (rc, e'). some e'
  end_current false e = abort_write host e >>= λ (throws, e'). some e'

  -- the calls for nested transactions, in their order
  unfoldable mutual
    pub run : Nest → Env → Option Env
    run (nest flags body commits) e =
        begin_write host flags e >>= λ e1. run_all body e1 >>= λ e2. end_current commits e2

    pub run_all : Nests → Env → Option Env
    run_all nil e = some e
    run_all (cons n ns) e = run n e >>= λ e'. run_all ns e'

  -- a write transaction without a parent is begun when LMDB is asked for it
  abbrev pub Begins : Type 0
  Begins = (e : Env) (flags : ℕ) → (h : Handle) × (host.begin e none flags ≡ some h)

  -- the lock and the tracked transactions are as before
  abbrev pub Restores : Env → Option Env → Type 0
  Restores e none = ⊥
  Restores e (some e') =
      (e'.write_txns ≡ e.write_txns) × (e'.locked ≡ e.locked) × (e'.write_map ≡ e.write_map)
