-- ===== src/Compression/Header.antt =====
-- The header of a compressed value of src/compression.cpp, read back by
-- `getVersionAndUncompress` of src/misc.cpp.
use Prim.Native.Nat.{bit_or}
use lmdb_js.Prelude.{
  ℕ, ◌*◌, ◌^◌, ◌≤◌, ◌<◌, ◌≡◌, refl, ap, ◌∙◌, Bool, true, false, Option, none, some, List, ◌∷◌, ◌++◌,
  arith, ltb, leb, ◌==◌, ◌>>=◌, length, drop, take-append, drop-append, length-append, Bool-cases,
  inl, inr, bit_or_three, bit_or_four,
}
use lmdb_js.Compression.{
  Lz4, Settings, packed, is_marked, byte_at, header, whole, unpack_to, decompress,
  get_version_and_uncompress,
}

-- the eight bytes of a version in front of a value, in a database that has versions
abbrev pub attach : Option (List ℕ) → List ℕ → List ℕ
attach none value = value
attach (some version) value = version ++ value

abbrev pub has : Option (List ℕ) → Bool
has none = false
has (some version) = true

abbrev pub IsVersion : Option (List ℕ) → Type 0
IsVersion none = Unit
IsVersion (some version) = length version ≡ 8

module _ (lz4 : Lz4) (c : Settings) where
  -- the header tells the length of the value, and how long itself is
  decompress-header :
      (can_allocate : Bool) (junk n : ℕ) (body : List ℕ)
      → n < 2 ^ 32
      → (k : ℕ) × (drop k (header junk n ++ body) ≡ body)
        × (decompress lz4 c can_allocate (header junk n ++ body)
            ≡ some (unpack_to lz4 c can_allocate (header junk n ++ body) n k))
  unfolding decompress header
  decompress-header can_allocate junk n body h = elim (Bool-cases (leb 0x1000000 n)) [
    | inr short ↦
        let value : bit_or (bit_or (byte_at n 16 * 2 ^ 16) (byte_at n 8 * 2 ^ 8)) (byte_at n 0)
            ≡ n =
          bit_or_three (byte_at n 16) (byte_at n 8) (byte_at n 0) (omega arith) (omega arith)
            (omega arith)
          ∙ ground arith in
        rw short (
          4,
          refl,
          ap
              (λ t. some (
                unpack_to lz4 c can_allocate (254 ∷ byte_at n 16 ∷ byte_at n 8 ∷ byte_at n 0 ∷ body)
                  t 4))
              value,
        )
    | inl long ↦
        let value : bit_or
              (bit_or (bit_or (byte_at n 24 * 2 ^ 24) (byte_at n 16 * 2 ^ 16))
                (byte_at n 8 * 2 ^ 8))
              (byte_at n 0)
            ≡ n =
          bit_or_four (byte_at n 24) (byte_at n 16) (byte_at n 8) (byte_at n 0) (omega arith)
            (omega arith) (omega arith) (omega arith)
          ∙ omega arith in
        rw long (
          8,
          refl,
          ap
              (λ t. some (
                unpack_to lz4 c can_allocate
                  (255
                    ∷ junk
                    ∷ byte_at n 40
                    ∷ byte_at n 32
                    ∷ byte_at n 24
                    ∷ byte_at n 16
                    ∷ byte_at n 8
                    ∷ byte_at n 0
                    ∷ body)
                  t 8))
              value,
        )
  ]

  header-is_marked :
      (junk n : ℕ) (body : List ℕ)
      → (is_marked (header junk n ++ body) ≡ true) × (length (header junk n ++ body) == 0 ≡ false)
  unfolding header
  header-is_marked junk n body = elim (Bool-cases (leb 0x1000000 n)) [
    | inl long ↦ rw long (refl, ground arith)
    | inr short ↦ rw short (refl, ground arith)
  ]

  -- the read of a block that `compress` made
  pub read_packed :
      (can_allocate : Bool) (junk n : ℕ) (body : List ℕ)
      → n < 2 ^ 32
      → (k : ℕ) × (drop k (header junk n ++ body) ≡ body)
        × (get_version_and_uncompress lz4 c false true can_allocate (header junk n ++ body)
            ≡ some (none, unpack_to lz4 c can_allocate (header junk n ++ body) n k))
  unfolding get_version_and_uncompress
  read_packed can_allocate junk n body h =
      let (k, rest, run) = decompress-header can_allocate junk n body h in
      let (marked, filled) = header-is_marked junk n body in
      (k, rest, rw (filled, marked, run) refl)

  pub get-plain :
      (can_allocate : Bool) (value : List ℕ)
      → is_marked value ≡ false
      → get_version_and_uncompress lz4 c false true can_allocate value ≡ some (none, whole value)
  unfolding get_version_and_uncompress
  get-plain can_allocate value h = rw h (ground arith)

  -- a version in front of the value is taken off, and does not change how the value is read
  pub get-version :
      (has_compression can_allocate : Bool) (version : Option (List ℕ)) (value : List ℕ)
      → IsVersion version
      → get_version_and_uncompress lz4 c
          (has version)
          has_compression
          can_allocate
          (attach version value)
        ≡ (get_version_and_uncompress lz4 c false has_compression can_allocate value >>= λ r.
            some (version, r.1))
  unfolding get_version_and_uncompress
  get-version hc ca none value v = ground arith
  get-version hc ca (some bs) value v =
      let long : ltb (length (bs ++ value)) 8 ≡ false = ground (arith, length-append bs value) in
      rw (long, take-append 8 bs value v, drop-append 8 bs value v) (ground arith)

  pub unpack_to-roomy :
      (can_allocate : Bool) (block : List ℕ) (n k : ℕ) (bs : List ℕ)
      → n ≤ c.decompress_size
      → lz4.unpack (drop k block) n ≡ some bs
      → unpack_to lz4 c can_allocate block n k
        ≡ record { is_valid = true; throws = false; size = n; bytes = some bs }
  unfolding unpack_to
  unpack_to-roomy can_allocate block n k bs room e = ground arith

  pub unpack_to-narrow :
      (can_allocate : Bool) (block : List ℕ) (n k : ℕ)
      → c.decompress_size < n
      → unpack_to lz4 c can_allocate block n k
        ≡ record { is_valid = false; throws = false; size = n; bytes = none }
  unfolding unpack_to
  unpack_to-narrow can_allocate block n k small = ground arith

  pub packed-injective : {xs ys : List ℕ} → packed xs ≡ packed ys → xs ≡ ys
  packed-injective e = cc
