-- ===== src/Tests/Opens.antt =====
-- A database that is created by `DbiWrap::open` (src/dbi.cpp).
use lmdb_js.Prelude.{ℕ, ◌≡◌, refl, true, false, Option, none, some, [], ◌∷◌, ◌==◌, if◌then◌else◌}
use lmdb_js.Txn.State.{Handle, Host}
use lmdb_js.Txn.Wraps.{get_read_txn}
use lmdb_js.Dbi.Opening.{
  DbiWrap, default_key, committed, Opened, attempt_in, retry, attempt, open_db,
}
use lmdb_js.Tests.Txns.{childless, idle_env}

-- read transactions are 7, write transactions are 8
abbrev numbering : Host
numbering = record childless { begin = λ e parent flags. if flags == 0 then some 8 else some 7 }

-- the database is there only for a write transaction
abbrev creates : Option Handle → ℕ → ℕ × ℕ
creates none flags = (22, 0)
creates (some h) flags = if h == 8 then (0, 5) else (13, 0)

-- a wrap that was not open
abbrev unopened : DbiWrap
unopened = record {
  dbi = 0;
  is_open = false;
  reading = record { has_versions = false; compression = none };
  key_type = default_key;
}

abbrev created : Opened
created = open_db numbering creates 0x41000 true true default_key none unopened idle_env

created-ended : created.env.ended ≡ 8 ∷ []
unfolding open_db attempt retry attempt_in get_read_txn
created-ended = refl

created-fate : created.fate ≡ committed 8
unfolding open_db attempt retry attempt_in get_read_txn
created-fate = refl

created-compared : created.compared ≡ some (some 8)
unfolding open_db attempt retry attempt_in get_read_txn
created-compared = refl
