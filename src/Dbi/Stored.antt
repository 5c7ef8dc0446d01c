-- ===== src/Dbi/Stored.antt =====
-- What `compress` of src/compression.cpp stored, as the reads of src/dbi.cpp find it.
use lmdb_js.Prelude.{
  ℕ, ◌≡◌, refl, inl, inr, true, false, not, ◌&&◌, Bool-cases, Option-cases, Option, none, some,
  List, [], ◌∷◌, ◌++◌, ltb, if◌then◌else◌, length, drop, drop-append, arith,
}
use lmdb_js.Compression.{Lz4, Settings, plain, packed, is_marked, header, compress}
use lmdb_js.Compression.Header.{attach, has, IsVersion, packed-injective}
use lmdb_js.Dbi.{Buffers, has_header, keep_version}

-- the block that `compress` stored
module _ (lz4 : Lz4) (c : Settings) (junk : ℕ) (value bs : List ℕ) where
  pub compress-plain :
      compress lz4 c junk value ≡ plain bs → (bs ≡ value) × (is_marked value ≡ false)
  unfolding compress
  compress-plain e = ground arith

  pub compress-packed :
      compress lz4 c junk value ≡ packed bs
      → (body : List ℕ) × (lz4.pack value (lz4.bound (length value)) ≡ some body)
        × (header junk (length value) ++ body ≡ bs)
  unfolding compress
  compress-packed e = elim (Bool-cases (ltb (length value) c.threshold && not (is_marked value))) [
    | inl raw ↦ cc (rw raw at e)
    | inr large ↦ elim (Option-cases (lz4.pack value (lz4.bound (length value)))) [
      | inl fails ↦ cc (rw (large, fails, compress) at e)
      | inr (body, p) ↦ (body, p, packed-injective lz4 c (rw (large, p, compress) at e))
    ]
  ]

pub stored_value :
    (version : Option (List ℕ)) (bs : List ℕ)
    → IsVersion version
    → (if has version then drop 8 (attach version bs) else attach version bs) ≡ bs
stored_value none bs v = refl
stored_value (some version) bs v = drop-append 8 version bs v

pub header-has : (junk n : ℕ) (body : List ℕ) → has_header (header junk n ++ body) ≡ true
unfolding header
header-has junk n body = ground arith

pub plain-has : (value : List ℕ) → is_marked value ≡ false → has_header value ≡ false
plain-has [] h = refl
plain-has (b ∷ bs) h = ground arith

pub kept : (version : Option (List ℕ)) (b : Buffers) → (keep_version version b).target ≡ b.target
kept none b = refl
kept (some v) b = refl
