-- ===== src/Compression/RoundTrip.antt =====
-- A value that `Compression::compress` of src/compression.cpp stored is read back by
-- `getVersionAndUncompress` of src/misc.cpp.
use lmdb_js.Prelude.{
  ℕ, ◌^◌, ◌≤◌, ◌<◌, ◌≡◌, ap, sym, ◌∙◌, Bool, true, false, not, ◌&&◌, Option, none, some, List, ◌++◌,
  arith, ltb, ◌>>=◌, length, drop, Bool-cases, Option-cases, inl, inr,
}
use lmdb_js.Compression.{
  Lz4, IsLossless, Settings, Stored, plain, packed, failed, is_marked, header, whole, compress,
  unpack_to, get_version_and_uncompress,
}
use lmdb_js.Compression.Header.{
  attach, has, IsVersion, read_packed, get-plain, get-version, unpack_to-roomy, unpack_to-narrow,
  packed-injective,
}

module _ (lz4 : Lz4) (c : Settings) where
  -- What a read must give for what `compress` left of `value`: the version and the value, with no
  -- error. Where nothing is stored, LZ4 has failed.
  abbrev pub ReadsBack : Bool → Option (List ℕ) → List ℕ → Stored → Type 0
  ReadsBack can_allocate version value (plain bs) =
      get_version_and_uncompress lz4 c (has version) true can_allocate (attach version bs)
      ≡ some (version, whole value)
  ReadsBack can_allocate version value (packed bs) =
      get_version_and_uncompress lz4 c (has version) true can_allocate (attach version bs)
      ≡ some (version, whole value)
  ReadsBack can_allocate version value failed = lz4.pack value (lz4.bound (length value)) ≡ none

  -- the read of a block that LZ4 packed
  abbrev Unpacks : Option (List ℕ) → List ℕ → ℕ → List ℕ → Bool → Type 0
  Unpacks version value junk body can_allocate =
      (k : ℕ) × (drop k (header junk (length value) ++ body) ≡ body)
      × (get_version_and_uncompress lz4 c (has version) true can_allocate
            (attach version (header junk (length value) ++ body))
          ≡ some (
            version,
            unpack_to lz4 c can_allocate (header junk (length value) ++ body) (length value) k,
          ))

  packed-Unpacks :
      (version : Option (List ℕ)) (value : List ℕ) (junk : ℕ) (body : List ℕ) (can_allocate : Bool)
      → IsVersion version
      → length value < 2 ^ 32
      → Unpacks version value junk body can_allocate
  packed-Unpacks version value junk body can_allocate v h =
      let (k, rest, run) = read_packed lz4 c can_allocate junk (length value) body h in
      (
        k,
        rest,
        get-version lz4 c true can_allocate version _ v
            ∙ ap (λ m. m >>= λ r. some (version, r.1)) run,
      )

  module _ (can_allocate : Bool) (junk : ℕ) (version : Option (List ℕ)) (value : List ℕ)
      (v : IsVersion version) (h : length value < 2 ^ 32) where
    -- A value below 2 ^ 32 bytes that `compress` left as it was or compressed is read back
    -- whole, with the version of eight bytes before it if there is one, if LZ4 is lossless
    -- and the target for decompression has room for the value. Where `compress` fails, LZ4
    -- has failed.
    pub compress-ReadsBack :
        IsLossless lz4
        → length value ≤ c.decompress_size
        → ReadsBack can_allocate version value (compress lz4 c junk value)
    unfolding compress
    compress-ReadsBack lossless room =
        let n = length value in
        elim (Bool-cases (ltb n c.threshold && not (is_marked value))) [
          | inl raw ↦ rw raw (
              get-version lz4 c true can_allocate version value v
              ∙ ap (λ m. m >>= λ r. some (version, r.1))
                  (get-plain lz4 c can_allocate value (ground arith)))
          | inr large ↦ elim (Option-cases (lz4.pack value (lz4.bound n))) [
            | inl fails ↦ rw (large, fails, compress) fails
            | inr (body, e) ↦
                let (k, rest, run) = packed-Unpacks version value junk body can_allocate v h in
                let unpacked : lz4.unpack (drop k (header junk n ++ body)) n ≡ some value =
                  ap (λ t. lz4.unpack t n) rest ∙ lossless value body (lz4.bound n) e in
                rw (large, e, compress)
                  (run
                    ∙ ap (λ r. some (version, r))
                        (unpack_to-roomy lz4 c can_allocate (header junk n ++ body) n k value room
                          unpacked))
          ]
        ]

    -- If the target for decompression is smaller than a value below 2 ^ 32 bytes that was
    -- compressed, the read gives its version, is not valid, throws nothing and tells the size
    -- of the value.
    pub compress-too_small :
        (bs : List ℕ)
        → c.decompress_size < length value
        → compress lz4 c junk value ≡ packed bs
        → get_version_and_uncompress lz4 c (has version) true can_allocate (attach version bs)
          ≡ some (
            version,
            record { is_valid = false; throws = false; size = length value; bytes = none },
          )
    unfolding compress
    compress-too_small bs small e =
        let n = length value in
        elim (Bool-cases (ltb n c.threshold && not (is_marked value))) [
          | inl raw ↦ cc (rw raw at e)
          | inr large ↦ elim (Option-cases (lz4.pack value (lz4.bound n))) [
            | inl fails ↦ cc (rw (large, fails, compress) at e)
            | inr (body, p) ↦
                let (k, rest, run) = packed-Unpacks version value junk body can_allocate v h in
                let same : header junk n ++ body ≡ bs =
                  packed-injective lz4 c (rw (large, p, compress) at e) in
                ap
                  (λ t.
                    get_version_and_uncompress lz4 c (has version) true can_allocate
                      (attach version t))
                  (sym same)
                ∙ run
                ∙ ap (λ r. some (version, r))
                    (unpack_to-narrow lz4 c can_allocate (header junk n ++ body) n k small)
          ]
        ]
