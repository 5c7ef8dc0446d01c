-- ===== src/Tests/Reads.antt =====
-- A read of a compressed value (src/dbi.cpp), with a target that is too small and with one that is not.
use lmdb_js.Prelude.{ℕ, ◌≡◌, refl, true, inr, Option, none, some, List, [], ◌∷◌, arith}
use lmdb_js.Compression.{get_version_and_uncompress, decompress, unpack_to}
use lmdb_js.Compression.Header.{attach}
use lmdb_js.Txn.State.{Handle}
use lmdb_js.Txn.Wraps.{get_read_txn}
use lmdb_js.Dbi.{Buffers, do_get_by_binary, read_found, unpacked, val_to_binary_fast}
use lmdb_js.Dbi.ReadsBack.{Arrives, do_get_by_binary-ReadsBack}
use lmdb_js.Tests.Values.{
  copying, copying-IsLossless, settings, narrow, version, value, compress_value,
}
use lmdb_js.Tests.Txns.{childless, idle_env}

-- the one entry of the database
abbrev block : List ℕ
block = 254 ∷ 0 ∷ 0 ∷ 4 ∷ value

abbrev get : Option Handle → List ℕ → ℕ × List ℕ
get txn key = (0, attach version block)

abbrev left : List ℕ → List ℕ → List ℕ
left data' old = old

abbrev buffers : Buffers
buffers = record {
  version = none;
  target = 0 ∷ 0 ∷ 0 ∷ 0 ∷ 0 ∷ 9 ∷ [];
  unsafe = [];
  unsafe_size = 0;
}

roomy :
    (do_get_by_binary copying childless get left
      (record { has_versions = true; compression = some settings })
      (1 ∷ [])
      idle_env
      buffers)
    ≡ some (
      4,
      (get_read_txn childless idle_env).1,
      record {
        version = version;
        target = 10 ∷ 20 ∷ 30 ∷ 40 ∷ 0 ∷ 9 ∷ [];
        unsafe = [];
        unsafe_size = 0;
      },
    )
unfolding do_get_by_binary read_found get_version_and_uncompress decompress unpack_to unpacked
    val_to_binary_fast
roomy = refl

do_get_by_binary-ReadsBack_example :
    (b' : Buffers) × (do_get_by_binary copying childless get left
        (record { has_versions = true; compression = some settings })
        (1 ∷ [])
        idle_env
        buffers
      ≡ some (4, (get_read_txn childless idle_env).1, b'))
    × Arrives settings version value buffers b'
do_get_by_binary-ReadsBack_example =
    do_get_by_binary-ReadsBack copying childless get left settings version refl narrow 0 block value
      (1 ∷ []) idle_env buffers copying-IsLossless (omega arith) (inr compress_value) refl
