-- ===== src/Compression.antt =====
-- The value compression of src/compression.cpp, and what src/misc.cpp does with it on a read.
pub mod Header
pub mod RoundTrip
pub mod Handshake
use Prim.Native.Nat.{bit_or}
use lmdb_js.Prelude.{
  ℕ, ◌+◌, ◌-◌, ◌*◌, ◌/◌, ◌%◌, ◌^◌, Bool, true, false, not, ◌&&◌, Option, none, some, List, [], ◌∷◌,
  ◌++◌, ◌≡◌, ltb, leb, ◌==◌, if◌then◌else◌, ◌>>=◌, u32, u64, length, get_elem?, take, drop,
}

-- LZ4 with a dictionary already chosen. `pack data bound` is `LZ4_compress_fast_continue`, `none`
-- if its result is not positive; `unpack data n` is `LZ4_decompress_safe_usingDict`, `none` if its
-- result is negative, else the n bytes at the target. `bound` is `LZ4_COMPRESSBOUND`.
pub record Lz4 : Type 0 where
  pub bound : ℕ → ℕ
  pub pack : List ℕ → ℕ → Option (List ℕ)
  pub unpack : List ℕ → ℕ → Option (List ℕ)

-- what LZ4 promises: unpacking what it packed gives the data back
abbrev pub IsLossless : Lz4 → Type 0
IsLossless lz4 =
    (data' packed : List ℕ) (bound : ℕ)
    → lz4.pack data' bound ≡ some packed
    → lz4.unpack packed (length data') ≡ some data'

-- the fields of `Compression` that are numbers
pub record Settings : Type 0 where
  pub threshold : ℕ
  pub decompress_size : ℕ

-- what `compress` leaves in the value: it as it was, a new block, or nothing after a failure
pub data Stored : Type 0 where
  plain : List ℕ → Stored
  packed : List ℕ → Stored
  failed : Stored

-- `((uint8_t*)data)[0] >= 250` for a value that is not empty
abbrev pub is_marked : List ℕ → Bool
is_marked [] = false
is_marked (b ∷ bs) = leb 250 b

-- the byte k of a number, as `(uint8_t)(n >> k)`
abbrev pub byte_at : ℕ → ℕ → ℕ
byte_at n k = n / 2 ^ k % 2 ^ 8

-- byte 1 of the long header is never written, and has the value `junk` of the new block
unfoldable pub header : ℕ → ℕ → List ℕ
header junk n =
    if leb 0x1000000 n
    then 255
      ∷ junk
      ∷ byte_at n 40
      ∷ byte_at n 32
      ∷ byte_at n 24
      ∷ byte_at n 16
      ∷ byte_at n 8
      ∷ byte_at n 0
      ∷ []
    else 254 ∷ byte_at n 16 ∷ byte_at n 8 ∷ byte_at n 0 ∷ []

-- the value that a read ends with; `bytes` is `none` where the target's contents are not determined
pub record Read : Type 0 where
  pub is_valid : Bool
  pub throws : Bool
  pub size : ℕ
  pub bytes : Option (List ℕ)

abbrev pub whole : List ℕ → Read
whole bs = record { is_valid = true; throws = false; size = length bs; bytes = some bs }

module _ (lz4 : Lz4) (c : Settings) where
  unfoldable pub compress : ℕ → List ℕ → Stored
  compress junk value =
      let n = length value in
      if ltb n c.threshold && not (is_marked value)
      then plain value
      else (elim (lz4.pack value (lz4.bound n)) [
        | none ↦ failed
        | some body ↦ packed (header junk n ++ body)
      ])

  -- from the point on where the header has been read
  unfoldable pub unpack_to : Bool → List ℕ → ℕ → ℕ → Read
  unpack_to can_allocate value n header_size =
      if ltb c.decompress_size n
      then record { is_valid = false; throws = false; size = n; bytes = none }
      else (elim (lz4.unpack (drop header_size value) n) [
        | none ↦ record { is_valid = false; throws = can_allocate; size = n; bytes = none }
        | some bs ↦ record { is_valid = true; throws = false; size = n; bytes = some bs }
      ])

  -- `none` is a read behind the end of the value
  unfoldable pub decompress : Bool → List ℕ → Option Read
  decompress can_allocate value = get_elem? value 0 >>= λ status.
      if status == 254
      then (get_elem? value 1 >>= λ b1. get_elem? value 2 >>= λ b2. get_elem? value 3 >>= λ b3.
          some (unpack_to can_allocate value (bit_or (bit_or (b1 * 2 ^ 16) (b2 * 2 ^ 8)) b3) 4))
      else (if status == 255
          then (get_elem? value 4 >>= λ b4. get_elem? value 5 >>= λ b5. get_elem? value 6 >>= λ b6.
              get_elem? value 7 >>= λ b7. some (
                unpack_to can_allocate value
                  (bit_or (bit_or (bit_or (b4 * 2 ^ 24) (b5 * 2 ^ 16)) (b6 * 2 ^ 8)) b7) 8))
          else some (record {
            is_valid = false;
            throws = can_allocate;
            size = length value;
            bytes = some value;
          }))

  -- `getVersionAndUncompress`: the bytes of the version, if the database has versions, and the value.
  -- `none` is a value too short for its version, which the code would read all the same.
  unfoldable pub get_version_and_uncompress :
      Bool → Bool → Bool → List ℕ → Option (Option (List ℕ) × Read)
  get_version_and_uncompress has_versions has_compression can_allocate data' =
      (if has_versions
        then (if ltb (length data') 8 then none else some (some (take 8 data'), drop 8 data'))
        else some (none, data'))
      >>= λ (version, value).
          if length value == 0
          then some (version, whole value)
          else (if has_compression && is_marked value
              then (decompress can_allocate value >>= λ r. some (version, r))
              else some (version, whole value))
