-- ===== src/Tests/Values.antt =====
-- Stored values of src/compression.cpp on concrete data, with a codec that only copies.
use lmdb_js.Prelude.{
  ℕ, ◌+◌, ◌≡◌, refl, true, false, Option, none, some, List, [], ◌∷◌, arith, ltb, ◌==◌, length,
  if◌then◌else◌,
}
use lmdb_js.Compression.{
  Lz4, IsLossless, Settings, packed, header, compress, get_version_and_uncompress,
}
use lmdb_js.Compression.Header.{attach}
use lmdb_js.Compression.RoundTrip.{ReadsBack, compress-ReadsBack, compress-too_small}

abbrev pub copying : Lz4
copying = record {
  bound = λ n. n + 16;
  pack = λ data' bound. if ltb bound (length data') then none else some data';
  unpack = λ body n. if length body == n then some body else none;
}

pub copying-IsLossless : IsLossless copying
copying-IsLossless data' body bound e = ground arith

abbrev pub settings : Settings
settings = record { threshold = 3; decompress_size = 64 }

abbrev pub narrow : Settings
narrow = record { threshold = 3; decompress_size = 2 }

abbrev pub version : Option (List ℕ)
version = some (1 ∷ 2 ∷ 3 ∷ 4 ∷ 5 ∷ 6 ∷ 7 ∷ 8 ∷ [])

abbrev pub value : List ℕ
value = 10 ∷ 20 ∷ 30 ∷ 40 ∷ []

compress-ReadsBack_example :
    ReadsBack copying settings true version value (compress copying settings 0 value)
compress-ReadsBack_example =
    compress-ReadsBack copying settings true 0 version value refl (omega arith) copying-IsLossless
      (omega arith)

pub compress_value : compress copying narrow 0 value ≡ packed (254 ∷ 0 ∷ 0 ∷ 4 ∷ value)
unfolding compress header
compress_value = refl

compress-too_small_example :
    get_version_and_uncompress copying narrow true true true
      (attach version (254 ∷ 0 ∷ 0 ∷ 4 ∷ value))
    ≡ some (version, record { is_valid = false; throws = false; size = 4; bytes = none })
compress-too_small_example =
    compress-too_small copying narrow true 0 version value refl (omega arith)
      (254 ∷ 0 ∷ 0 ∷ 4 ∷ value) (omega arith) compress_value
