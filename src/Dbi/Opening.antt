-- ===== src/Dbi/Opening.antt =====
-- `DbiWrap::open` of src/dbi.cpp: a database is opened in the read transaction or, if it has to be
-- created, in a write transaction of its own.
pub mod Flags
pub mod Attempts
pub mod Owned
use Prim.Native.Nat.{bit_and, bit_or}
use lmdb_js.Prelude.{
  ℕ, ◌-◌, ◌+◌, Bool, true, false, ◌&&◌, Option, none, some, List, [], ◌∷◌, ◌==◌, if◌then◌else◌,
}
use lmdb_js.Compression.{Settings}
use lmdb_js.Dbi.{Dbi}
use lmdb_js.Txn.State.{Handle, Tracked, Env, Host}
use lmdb_js.Txn.Wraps.{get_read_txn}

-- the kinds of `LmdbKeyType` that `open` tells apart
pub data KeyType : Type 0 where
  default_key : KeyType
  uint32_key : KeyType
  other_key : KeyType

-- `EACCES`
abbrev pub eacces : ℕ
eacces = 13

-- without `HAS_VERSIONS`, and with `MDB_INTEGERKEY` for keys of 32 bits
abbrev pub integer_flag : KeyType → ℕ → ℕ
integer_flag uint32_key flags = bit_or flags 8
integer_flag _ flags = flags

abbrev pub open_flags : KeyType → ℕ → ℕ
open_flags key_type flags = integer_flag key_type (flags - bit_and flags 0x1000)

abbrev pub uses_fast_compare : KeyType → Bool → Bool
uses_fast_compare default_key has_name = has_name
uses_fast_compare _ has_name = false

-- A `DbiWrap`: the number of the database, whether it is open, what the reads use, and the kind of its
-- keys.
pub record DbiWrap : Type 0 where
  pub dbi : ℕ
  pub is_open : Bool
  pub reading : Dbi
  pub key_type : KeyType

-- what became of a transaction that `open` began
pub data Fate : Type 0 where
  none_begun : Fate
  committed : Handle → Fate
  aborted : Handle → Fate

-- The variables of `open` behind its attempts: `rc`, `dbi`, `txn`; and what became of a transaction of
-- its own, with the environment.
pub record Tried : Type 0 where
  pub code : ℕ
  pub dbi : ℕ
  pub txn : Option Handle
  pub fate : Fate
  pub env : Env

-- What `open` leaves: its code, the wrap, what became of a transaction of its own, the transaction in
-- which it set `compareFast`, if it did, and the environment.
pub record Opened : Type 0 where
  pub code : ℕ
  pub wrap : DbiWrap
  pub fate : Fate
  pub compared : Option (Option Handle)
  pub env : Env

-- `mdb_dbi_open` in a transaction, which may be null, with flags: its code and the number
module _ (host : Host) (dbi_open : Option Handle → ℕ → ℕ × ℕ) where
  -- With what `mdb_txn_begin` gave: the second attempt, and the commit, whose code is not looked at,
  -- or the abort.
  unfoldable pub attempt_in : Option Handle → Option Handle → ℕ → ℕ → Env → Tried
  attempt_in none txn flags dbi e = record {
    code = host.begin_code e none 0;
    dbi = dbi;
    txn = txn;
    fate = none_begun;
    env = e;
  }
  attempt_in (some h) txn flags dbi e = record {
    code = (dbi_open (some h) flags).0;
    dbi = (dbi_open (some h) flags).1;
    txn = some h;
    fate = if (dbi_open (some h) flags).0 == 0 then committed h else aborted h;
    env = record e { ended = h ∷ e.ended };
  }

  -- after `EACCES`, with `writeTxn` and its parents
  unfoldable pub retry : List Tracked → Option Handle → ℕ → ℕ → Env → Tried
  retry (t ∷ ts) txn flags dbi e = record {
    code = eacces;
    dbi = dbi;
    txn = txn;
    fate = none_begun;
    env = e;
  }
  retry [] txn flags dbi e = attempt_in (host.begin e none 0) txn flags dbi e

  -- from the first attempt on
  unfoldable pub attempt : Option Handle → ℕ → Env → Tried
  attempt txn flags e =
      let (code, dbi) = dbi_open txn flags in
      if code == eacces
      then retry e.write_txns txn flags dbi e
      else record { code = code; dbi = dbi; txn = txn; fate = none_begun; env = e }

  -- `DbiWrap::open`, on a wrap with any fields
  unfoldable pub open_db : ℕ → Bool → Bool → KeyType → Option Settings → DbiWrap → Env → Opened
  open_db flags has_name has_versions key_type compression before e =
      let (txn, e1) = get_read_txn host e in
      let t = attempt txn (open_flags key_type flags) e1 in
      record {
        code = t.code;
        wrap = record {
          dbi = t.dbi;
          is_open = if t.code == 0 then true else before.is_open;
          reading = record { has_versions = has_versions; compression = compression };
          key_type = key_type;
        };
        fate = t.fate;
        compared =
            if (t.code == 0) && uses_fast_compare key_type has_name then some t.txn else none;
        env = t.env;
      }
