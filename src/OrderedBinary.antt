-- ===== src/OrderedBinary.antt =====
-- The key comparison of src/ordered-binary.cpp, on a little-endian machine.
pub mod Words
pub mod Order
use Prim.Native.Nat.{bit_and}
use lmdb_js.Prelude.{ℕ, zero, suc, ◌+◌, ◌*◌, ◌/◌, ◌%◌, ◌^◌, compare, Ordering, ◌==◌, if◌then◌else◌}
use lmdb_js.Prelude.Int.{ℤ, pos, negsuc, size_difference}

-- an `MDB_val`: its size, and the bytes from its address on, also those behind its end
pub record Val : Type 0 where
  pub size : ℕ
  pub byte : ℕ → ℕ

-- `*(uint32_t*) p`
abbrev pub load_word : Val → ℕ → ℕ
load_word v p =
    v.byte p + v.byte (p + 1) * 2 ^ 8 + v.byte (p + 2) * 2 ^ 16 + v.byte (p + 3) * 2 ^ 24

-- `ntohl`, which is `_byteswap_ulong`
unfoldable pub ntohl : ℕ → ℕ
ntohl w = w % 2 ^ 8 * 2 ^ 24 + w / 2 ^ 8 % 2 ^ 8 * 2 ^ 16 + w / 2 ^ 16 % 2 ^ 8 * 2 ^ 8 + w / 2 ^ 24

-- the mask of the last word, by the number of bytes that remain
abbrev pub tail_mask : ℕ → ℕ
tail_mask n = if n == 2 then 0x0000ffff else if n == 1 then 0x000000ff else 0x00ffffff

abbrev pub decide_words : ℕ → ℕ → ℤ → ℤ
decide_words a b otherwise = elim (compare a b) [
  | Ordering.gt ↦ pos 1
  | Ordering.lt ↦ negsuc 0
  | Ordering.eq ↦ otherwise
]

-- `p` is how far `dataA` and `dataB` have gone; the last argument is `remaining`
unfoldable pub compare_from : Val → Val → ℕ → ℕ → ℤ
compare_from a b p zero = size_difference a.size b.size
compare_from a b p (suc (suc (suc (suc n)))) =
    let rest = compare_from a b (p + 4) n in
    decide_words (ntohl (load_word a p)) (ntohl (load_word b p)) rest
compare_from a b p n =
    decide_words (ntohl (load_word a p)) (ntohl (bit_and (load_word b p) (tail_mask n)))
      (size_difference a.size b.size)

unfoldable pub compare_fast : Val → Val → ℤ
compare_fast a b = compare_from a b 0 b.size
