-- ===== src/Dbi.antt =====
-- The reads of src/dbi.cpp, `DbiWrap::doGetByBinary` and `DbiWrap::getByBinary`, with
-- `valToBinaryFast` of src/misc.cpp.
pub mod Opening
pub mod Stored
pub mod ReadsBack
use lmdb_js.Prelude.{
  ℕ, ◌-◌, ◌%◌, ◌^◌, Bool, true, false, not, ◌&&◌, ◌||◌, Option, none, some, List, [], ◌∷◌, ltb, leb,
  ◌==◌, if◌then◌else◌, ◌>>=◌, length, drop,
}
use lmdb_js.Compression.{Lz4, Settings, Read, get_version_and_uncompress}
use lmdb_js.Txn.State.{Handle, Env, Host}
use lmdb_js.Txn.Wraps.{get_read_txn}

-- a `DbiWrap`: `hasVersions`, and `compression`, which may be null
pub record Dbi : Type 0 where
  pub has_versions : Bool
  pub compression : Option Settings

-- The memory that a read writes to: the version in `keyBuffer`, what stands from `decompressTarget`
-- on, and from `globalUnsafePtr` on, with `globalUnsafeSize`.
pub record Buffers : Type 0 where
  pub version : Option (List ℕ)
  pub target : List ℕ
  pub unsafe : List ℕ
  pub unsafe_size : ℕ

-- `memcpy` to the start of what is there
abbrev pub overwrite : List ℕ → List ℕ → List ℕ
overwrite [] old = old
overwrite (b ∷ bs) [] = b ∷ overwrite bs []
overwrite (b ∷ bs) (x ∷ old) = b ∷ overwrite bs old

-- `valToBinaryFast`: whether there is room, and the memory; `in_target` is whether the value is at
-- `decompressTarget`
unfoldable pub val_to_binary_fast : Option Settings → Bool → List ℕ → Buffers → Bool × Buffers
val_to_binary_fast (some c) in_target value b =
    if in_target
    then (true, b)
    else (if ltb c.decompress_size (length value)
        then (false, b)
        else (true, record b { target = overwrite value b.target }))
val_to_binary_fast none in_target value b =
    if ltb b.unsafe_size (length value)
    then (false, b)
    else (true, record b { unsafe = overwrite value b.unsafe })

-- `MDB_NOTFOUND`, -30798, as a number of 32 bits
abbrev pub not_found : ℕ
not_found = 4294936498

-- what `getByBinary` answers: a number, or it throws the error of a code or of the decompression
pub data Answer : Type 0 where
  number : ℕ → Answer
  lmdb_error : ℕ → Answer
  unpack_error : Answer

abbrev pub settings_of : Option Settings → Settings
settings_of none = record { threshold = 0; decompress_size = 0 }
settings_of (some c) = c

abbrev pub has_compression : Option Settings → Bool
has_compression none = false
has_compression (some c) = true

abbrev pub bytes_of : Option (List ℕ) → List ℕ
bytes_of none = []
bytes_of (some bs) = bs

-- the value has one of the two headers, so that `decompress` turns to `decompressTarget`
abbrev pub has_header : List ℕ → Bool
has_header [] = false
has_header (s ∷ rest) = leb 254 s

abbrev pub keep_version : Option (List ℕ) → Buffers → Buffers
keep_version none b = b
keep_version (some v) b = record b { version = some v }

-- `mdb_get` is the parameter `get`, with its code and the data; `left` is what LZ4 or the code
-- leaves at the target when the decompression is not valid.
module _ (lz4 : Lz4) (host : Host) (get : Option Handle → List ℕ → ℕ × List ℕ)
    (left : List ℕ → List ℕ → List ℕ) where
  -- what `getVersionAndUncompress` has written
  unfoldable pub unpacked : Bool → List ℕ → Read → Buffers → Buffers
  unpacked in_target data' r b =
      if in_target
      then record b {
        target = if r.is_valid then overwrite (bytes_of r.bytes) b.target else left data' b.target;
      }
      else b

  -- from the call of `getVersionAndUncompress` on: what it gave, and the memory. `always` is whether
  -- an invalid value is copied too.
  unfoldable pub read_found : Dbi → Bool → Bool → List ℕ → Buffers → Option (Read × Buffers)
  read_found d can_allocate always data' b =
      let value = if d.has_versions then drop 8 data' else data' in
      let in_target = has_compression d.compression && has_header value in
      get_version_and_uncompress lz4 (settings_of d.compression) d.has_versions
        (has_compression d.compression) can_allocate data'
      >>= λ (version, r).
          let b' = unpacked in_target data' r (keep_version version b) in
          some (
            r,
            if r.is_valid || always
                then (val_to_binary_fast d.compression in_target (bytes_of r.bytes) b').1
                else b',
          )

  -- `DbiWrap::doGetByBinary`: the number of 32 bits that it returns
  unfoldable pub do_get_by_binary : Dbi → List ℕ → Env → Buffers → Option (ℕ × Env × Buffers)
  do_get_by_binary d key e b =
      let (txn, e') = get_read_txn host e in
      let (code, data') = get txn key in
      if code == 0
      then (read_found d false false data' b >>= λ (r, b'). some (r.size % 2 ^ 32, e', b'))
      else some (if code == not_found then 0xffffffff else code, e', b)

  -- `DbiWrap::getByBinary`
  unfoldable pub get_by_binary : Dbi → List ℕ → Env → Buffers → Option (Answer × Env × Buffers)
  get_by_binary d key e b =
      let (txn, e') = get_read_txn host e in
      let (code, data') = get txn key in
      if code == 0
      then (read_found d true true data' b >>= λ (r, b').
          some (if r.throws then unpack_error else number r.size, e', b'))
      else some (if code == not_found then number 0xffffffff else lmdb_error code, e', b)
