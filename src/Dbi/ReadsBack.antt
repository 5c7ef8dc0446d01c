-- ===== src/Dbi/ReadsBack.antt =====
-- A value that src/compression.cpp stored is read back by `DbiWrap::doGetByBinary` of src/dbi.cpp.
use mathlib.Core.Path.{subst}
use native.Mathlib.Decide.{dec_lt}
use lmdb_js.Prelude.{
  ℕ, ◌%◌, ◌^◌, ◌<◌, ◌≡◌, refl, sym, ap, ◌∙◌, ◌⊎◌, inl, inr, Bool, true, false, ◌||◌, Bool-cases,
  Option, none, some, List, ◌++◌, ltb, if◌then◌else◌, ◌>>=◌, length, drop, arith,
}
use lmdb_js.Compression.{
  Lz4, IsLossless, Settings, plain, packed, Read, whole, is_marked, header, compress, unpack_to,
  get_version_and_uncompress,
}
use lmdb_js.Compression.Header.{
  attach, has, IsVersion, read_packed, get-plain, get-version, unpack_to-roomy, unpack_to-narrow,
}
use lmdb_js.Txn.State.{Handle, Env, Host}
use lmdb_js.Txn.Wraps.{get_read_txn}
use lmdb_js.Dbi.{
  Dbi, Buffers, overwrite, val_to_binary_fast, has_header, keep_version, bytes_of, unpacked,
  read_found, do_get_by_binary,
}
use lmdb_js.Dbi.Stored.{compress-plain, compress-packed, stored_value, header-has, plain-has, kept}

-- the value is at the target, if there is room for it
abbrev pub Arrives : Settings → Option (List ℕ) → List ℕ → Buffers → Buffers → Type 0
Arrives c version value b b' =
    (b'.version ≡ (keep_version version b).version)
    × ((c.decompress_size < length value) ⊎ (b'.target ≡ overwrite value b.target))

module _ (lz4 : Lz4) (host : Host) (get : Option Handle → List ℕ → ℕ × List ℕ)
    (left : List ℕ → List ℕ → List ℕ) (c : Settings) (version : Option (List ℕ))
    (v : IsVersion version) where
  abbrev dbi : Dbi
  dbi = record { has_versions = has version; compression = some c }

  abbrev kb : Buffers → Buffers
  kb b = keep_version version b

  abbrev copied : List ℕ → Buffers → Buffers
  copied value b = record (kb b) { target = overwrite value (kb b).target }

  abbrev choice : Bool → List ℕ → Buffers → Bool × Buffers
  choice small value b = if small then (false, kb b) else (true, copied value b)

  -- what is done after `getVersionAndUncompress`
  abbrev after : Bool → List ℕ → Read → Buffers → Buffers
  after in_target data' r b =
      let b' = unpacked lz4 host get left in_target data' r (keep_version version b) in
      if r.is_valid || false
      then (val_to_binary_fast (some c) in_target (bytes_of r.bytes) b').1
      else b'

  read_found-after :
      (in_target : Bool) (bs : List ℕ) (r : Read) (b : Buffers)
      → has_header bs ≡ in_target
      → get_version_and_uncompress lz4 c (has version) true false (attach version bs)
        ≡ some (version, r)
      → read_found lz4 host get left dbi false false (attach version bs) b
        ≡ some (r, after in_target (attach version bs) r b)
  unfolding read_found
  read_found-after in_target bs r b same run =
      let there = ap has_header (stored_value version bs v) ∙ same in rw (there, run, ◌>>=◌) refl

  abbrev Reads : List ℕ → List ℕ → Buffers → Type 0
  Reads bs value b =
      (r : Read) × (b' : Buffers) × (read_found lz4 host get left dbi false false
          (attach version bs) b
        ≡ some (r, b'))
      × (r.size ≡ length value)
      × Arrives c version value b b'

  keep-target : (b : Buffers) → (keep_version version b).target ≡ b.target
  keep-target b = kept version b

  plain-Arrives :
      (data' value : List ℕ) (b : Buffers)
      → Arrives c version value b (after false data' (whole value) b)
  unfolding unpacked val_to_binary_fast
  plain-Arrives data' value b = elim (Bool-cases (ltb c.decompress_size (length value))) [
    | inl small ↦ (ap (λ t. (choice t value b).1.version) small, inl (ground (arith, small)))
    | inr fits ↦ (
      ap (λ t. (choice t value b).1.version) fits,
      inr (ap (λ t. (choice t value b).1.target) fits ∙ ap (overwrite value) (keep-target b)),
    )
  ]

  unpacked-Arrives :
      (data' value : List ℕ) (b : Buffers)
      → Arrives c version value b (after true data' (whole value) b)
  unfolding unpacked val_to_binary_fast
  unpacked-Arrives data' value b = (refl, inr (ap (overwrite value) (keep-target b)))

  narrow-Arrives :
      (data' value : List ℕ) (b : Buffers)
      → c.decompress_size < length value
      → Arrives c version value b (
          after true data'
            (record { is_valid = false; throws = false; size = length value; bytes = none })
            b)
  unfolding unpacked
  narrow-Arrives data' value b small = (refl, inl small)

  plain-Reads : (value : List ℕ) (b : Buffers) → is_marked value ≡ false → Reads value value b
  plain-Reads value b raw = (
    whole value,
    after false (attach version value) (whole value) b,
    read_found-after false value (whole value) b (plain-has value raw) (
        get-version lz4 c true false version value v
        ∙ ap (λ m. m >>= λ r. some (version, r.1)) (get-plain lz4 c false value raw)),
    refl,
    plain-Arrives (attach version value) value b,
  )

  packed-Reads :
      (junk : ℕ) (value body : List ℕ) (b : Buffers)
      → IsLossless lz4
      → length value < 2 ^ 32
      → lz4.pack value (lz4.bound (length value)) ≡ some body
      → Reads (header junk (length value) ++ body) value b
  packed-Reads junk value body b lossless short p =
      let n = length value in
      let block = header junk n ++ body in
      let marked = header-has junk n body in
      let (k, rest, run) = read_packed lz4 c false junk n body short in
      let whole_run : get_version_and_uncompress lz4 c (has version) true false
            (attach version block)
          ≡ some (version, unpack_to lz4 c false block n k) =
        get-version lz4 c true false version block v
        ∙ ap (λ m. m >>= λ r. some (version, r.1)) run in
      elim (dec_lt c.decompress_size n) [
        | yes small ↦
            let r : Read = record { is_valid = false; throws = false; size = n; bytes = none } in
            (
              r,
              after true (attach version block) r b,
              read_found-after true block r b marked (
                  whole_run
                  ∙ ap (λ r. some (version, r)) (unpack_to-narrow lz4 c false block n k small)),
              refl,
              narrow-Arrives (attach version block) value b small,
            )
        | no fits ↦
            let unpacked : lz4.unpack (drop k block) n ≡ some value =
              ap (λ t. lz4.unpack t n) rest ∙ lossless value body (lz4.bound n) p in
            (
              whole value,
              after true (attach version block) (whole value) b,
              read_found-after true block (whole value) b marked (
                  whole_run
                  ∙ ap (λ r. some (version, r))
                      (unpack_to-roomy lz4 c false block n k value (omega (arith, fits)) unpacked)),
              refl,
              unpacked-Arrives (attach version block) value b,
            )
      ]

  -- the number that is returned
  returns :
      (bs value key : List ℕ) (e : Env) (b : Buffers)
      → length value < 2 ^ 32
      → get (get_read_txn host e).0 key ≡ (0, attach version bs)
      → Reads bs value b
      → (b' : Buffers) × (do_get_by_binary lz4 host get left dbi key e b
          ≡ some (length value, (get_read_txn host e).1, b'))
        × Arrives c version value b b'
  unfolding do_get_by_binary
  returns bs value key e b short found (r, b', run, size, arrives) =
      let word : r.size % 2 ^ 32 ≡ length value = omega (arith, size, short) in
      (b', rw (found, run, ◌>>=◌, word) refl, arrives)

  -- A value below 2 ^ 32 bytes that `compress` left as it was or compressed, and that is stored
  -- with the version of eight bytes before it if the database has versions, is read by
  -- `doGetByBinary`, if LZ4 is lossless and LMDB finds it: the read returns the size of the
  -- value, whatever the size of the target, keeps the version, and either the target is too
  -- small or has the value at its start. The target may have another size than when the value
  -- was stored.
  pub do_get_by_binary-ReadsBack :
      (stored : Settings) (junk : ℕ) (bs value key : List ℕ) (e : Env) (b : Buffers)
      → IsLossless lz4
      → length value < 2 ^ 32
      → (compress lz4 stored junk value ≡ plain bs) ⊎ (compress lz4 stored junk value ≡ packed bs)
      → get (get_read_txn host e).0 key ≡ (0, attach version bs)
      → (b' : Buffers) × (do_get_by_binary lz4 host get left dbi key e b
          ≡ some (length value, (get_read_txn host e).1, b'))
        × Arrives c version value b b'
  do_get_by_binary-ReadsBack stored junk bs value key e b lossless short (inl s) found =
      let (same, raw) = compress-plain lz4 stored junk value bs s in
      returns bs value key e b short found
        (subst (λ t. Reads t value b) (sym same) (plain-Reads value b raw))
  do_get_by_binary-ReadsBack stored junk bs value key e b lossless short (inr s) found =
      let (body, p, same) = compress-packed lz4 stored junk value bs s in
      returns bs value key e b short found
        (subst (λ t. Reads t value b) same (packed-Reads junk value body b lossless short p))
