-- ===== src/Dbi/Opening/Owned.antt =====
-- What `DbiWrap::open` of src/dbi.cpp comes to on every path.
use lmdb_js.Prelude.{ℕ, ◌≡◌, ◌≢◌, ◌⊎◌, Bool, true, Option, none, some}
use lmdb_js.Compression.{Settings}
use lmdb_js.Txn.State.{Handle, Env, Host}
use lmdb_js.Txn.Wraps.{get_read_txn}
use lmdb_js.Dbi.Opening.{KeyType, default_key, DbiWrap, Opened}
use lmdb_js.Dbi.Opening.Flags.{asked}
use lmdb_js.Dbi.Opening.Attempts.{used, Gives, Ends}

-- where `compareFast` belongs: in a named database whose keys are of the default kind
abbrev pub comparing_in : KeyType → Bool → Option Handle → Option (Option Handle)
comparing_in default_key true txn = some txn
comparing_in _ _ txn = none

module _ (host : Host) (dbi_open : Option Handle → ℕ → ℕ × ℕ) where
  -- the wrap and the comparison, by the code
  abbrev pub Sets :
      (read : Option Handle) (flags : ℕ) (has_name : Bool) (key_type : KeyType) (before : DbiWrap)
      → Opened
      → Type 0
  Sets read flags has_name key_type before r =
      ((r.code ≡ 0)
        × Gives host dbi_open read flags r.fate r.wrap.dbi
        × (r.wrap.is_open ≡ true)
        × (r.compared ≡ comparing_in key_type has_name (used read r.fate)))
      ⊎ ((r.code ≢ 0) × (r.wrap.is_open ≡ before.is_open) × (r.compared ≡ none))

  module _ (flags : ℕ) (has_name has_versions : Bool) (key_type : KeyType)
      (compression : Option Settings) (before : DbiWrap) (e : Env) where
    pub record Opens (r : Opened) : Type 0 where
      pub ends :
          Ends host dbi_open
            (get_read_txn host e).0
            (asked key_type flags)
            (get_read_txn host e).1
            r.code
            r.env.ended
            r.fate
      pub kept : r.env ≡ record (get_read_txn host e).1 { ended = r.env.ended }
      pub reads :
          ((get_read_txn host e).1.ended ≡ e.ended)
          × ((get_read_txn host e).1.write_txns ≡ e.write_txns)
      pub sets : Sets (get_read_txn host e).0 (asked key_type flags) has_name key_type before r
      pub reading :
          r.wrap.reading ≡ record { has_versions = has_versions; compression = compression }
      pub keyed : r.wrap.key_type ≡ key_type
