-- ===== src/Txn/Wraps.antt =====
-- Wrapped transactions: `TxnWrap` of src/txn.cpp, and `EnvWrap::cleanupStrayTxns`, `getReadTxn` and
-- `resetCurrentReadTxn` of src/env.cpp.
pub mod Tracking
pub mod Stray
pub mod Current
pub mod Attach
pub mod Create
pub mod Calls
pub mod Begin
use Prim.Native.Nat.{bit_and}
use lmdb_js.Prelude.{
  ℕ, zero, suc, update, Bool, true, false, not, Option, none, some, List, [], ◌∷◌, ◌++◌, ◌==◌,
  if◌then◌else◌, ◌>>=◌,
}
use lmdb_js.Txn.State.{Handle, Worker, TxnWrap, Env, Host}
use lmdb_js.Txn.Write.{acquire, end_txn}

-- `flags & MDB_RDONLY`
abbrev pub is_read_only : ℕ → Bool
is_read_only flags = not (bit_and flags 0x20000 == 0)

-- whether a pointer is the one to `i`
abbrev pub points_to : ℕ → Option ℕ → Bool
points_to i none = false
points_to i (some j) = i == j

-- `readTxns.erase(std::find(...))`
abbrev pub erase : ℕ → List ℕ → List ℕ
erase i [] = []
erase i (j ∷ js) = if i == j then js else j ∷ erase i js

-- the fields of the wrap `i` are set
abbrev pub set_wrap : ℕ → TxnWrap → Env → Env
set_wrap i w e = record e { wrap = update e.wrap i w }

-- `TxnWrap::removeFromEnvWrap`
unfoldable pub remove_from_env : ℕ → Env → Env
remove_from_env i e =
    let w = e.wrap i in
    set_wrap i (record w { txn = none; attached = false })
      (if w.attached
        then (if points_to i e.current_write
            then record e { current_write = w.parent }
            else record e { read_txns = erase i e.read_txns })
        else e)

-- `mdb_txn_abort`, or the end of `mdb_txn_commit`, and `removeFromEnvWrap`
unfoldable pub end_wrap : ℕ → Env → Env
end_wrap i e = remove_from_env i (record e { ended = end_txn (e.wrap i).txn e.ended })

-- How a method ends: with the code that it throws, 0 for none; or with an error that it throws before
-- it does anything.
pub data Outcome : Type 0 where
  code : ℕ → Env → Outcome
  closed : Outcome
  already_open : Outcome

-- what the constructor is called for
pub data Request : Type 0 where
  callback : Request
  with_flags : ℕ → Request

-- `TxnWrap::abort`
unfoldable pub abort : ℕ → Env → Outcome
abort i e = elim ((e.wrap i).txn) [ none ↦ closed | some h ↦ code 0 (end_wrap i e) ]

-- `TxnWrap::reset`
unfoldable pub reset : ℕ → Env → Outcome
reset i e = elim ((e.wrap i).txn) [ none ↦ closed | some h ↦ code 0 (record e { renewed = false }) ]

-- `TxnWrap::~TxnWrap`
unfoldable pub destroy : ℕ → Env → Env
destroy i e = elim ((e.wrap i).txn) [ none ↦ e | some h ↦ end_wrap i e ]

-- `EnvWrap::resetCurrentReadTxn`
abbrev pub reset_current_read : Env → Env
reset_current_read e = record e { renewed = false }

-- the loop of `cleanupStrayTxns`, on fuel
unfoldable pub stray_loop : ℕ → Env → Option Env
stray_loop zero e = elim (e.read_txns) [ [] ↦ some e | i ∷ is ↦ none ]
stray_loop (suc fuel) e = elim (e.read_txns) [
  | [] ↦ some e
  | i ∷ is ↦ stray_loop fuel (end_wrap i e)
]

-- `EnvWrap::cleanupStrayTxns`
unfoldable pub cleanup_stray : ℕ → Env → Option Env
cleanup_stray fuel e = stray_loop fuel (elim (e.current_write) [ none ↦ e | some i ↦ end_wrap i e ])

module _ (host : Host) where
  -- `TxnWrap::commit`; a transaction that is open belongs to an environment
  unfoldable pub commit : ℕ → Env → Outcome
  commit i e = elim ((e.wrap i).txn) [
    | none ↦ closed
    | some h ↦
        code (host.commit_code e (some h))
          (end_wrap i (elim (e.worker) [ none ↦ e | some w ↦ record e { locked = false } ]))
  ]

  -- `TxnWrap::renew`
  unfoldable pub renew : ℕ → Env → Outcome
  renew i e = elim ((e.wrap i).txn) [ none ↦ closed | some h ↦ code (host.renew_code e (some h)) e ]

  -- the end of `TxnWrap::ctor`
  unfoldable pub attach : ℕ → Option Handle → Option ℕ → ℕ → Env → Env
  attach i txn parent flags e =
      set_wrap i (record { txn = txn; parent = parent; flags = flags; attached = true })
        (if is_read_only flags
          then record e { read_txns = e.read_txns ++ (i ∷ []); current_read = txn }
          else record e { current_write = some i })

  -- `mdb_txn_begin` and the end of the constructor
  unfoldable pub begin_wrap : ℕ → Option Handle → Option ℕ → ℕ → Env → Outcome
  begin_wrap i parent_txn parent flags e = elim (host.begin e parent_txn flags) [
    | none ↦ code (host.begin_code e parent_txn flags) e
    | some h ↦ code 0 (attach i (some h) parent flags e)
  ]

  -- The constructor without a callback's transaction. `none` is a thread that waits for itself.
  unfoldable pub create_own : ℕ → ℕ → Option ℕ → Env → Option Outcome
  create_own i flags (some p) e = some (begin_wrap i (e.wrap p).txn (some p) flags e)
  create_own i flags none e =
      if is_read_only flags then some (begin_wrap i none none flags e) else elim (e.current_write) [
        | some j ↦ some already_open
        | none ↦ elim (e.worker) [
          | none ↦ some (begin_wrap i none none flags e)
          | some w ↦
              acquire host w flags e >>= λ (txn, flags', e'). some (begin_wrap i txn none flags' e')
        ]
      ]

  -- `TxnWrap::ctor`
  unfoldable pub create : ℕ → Request → Option ℕ → Env → Option Outcome
  create i (with_flags flags) parent e = create_own i flags parent e
  create i callback parent e = elim (e.worker) [
    | none ↦ create_own i 0 parent e
    | some w ↦ acquire host w 0 e >>= λ (txn, flags, e'). some (code 0 (attach i txn none flags e'))
  ]

  -- `EnvWrap::getReadTxn`: the transaction and the state
  unfoldable pub get_read_txn : Env → Option Handle × Env
  get_read_txn e =
      let written : Option Handle = elim (e.write_txns) [ [] ↦ none | t ∷ ts ↦ t.txn ] in
      elim written [
        | some h ↦ (some h, e)
        | none ↦ if e.renewed then (e.current_read, e) else elim (e.current_read) [
          | some h ↦ (some h, record e { renewed = true })
          | none ↦
              let txn = host.begin e none 0x20000 in
              (txn, record e { current_read = txn; renewed = true })
        ]
      ]
