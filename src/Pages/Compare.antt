-- ===== src/Pages/Compare.antt =====
-- The comparison functions of mdb.c, on a little-endian machine: `mdb_cmp_long`, `mdb_cmp_int`,
-- `mdb_cmp_cint`, `mdb_cmp_memn` and `mdb_cmp_memnr`. Their results are used for their signs only.
use lmdb_js.Prelude.{
  ℕ, zero, suc, ◌+◌, ◌-◌, ◌*◌, ◌^◌, compare, Ordering, Option, none, some, ltb, ◌==◌, if◌then◌else◌,
  u32,
}
use lmdb_js.OrderedBinary.{Val, load_word}
use lmdb_js.OrderedBinary.Words.{then_compare}

-- `*(unsigned short *) p`
abbrev pub load_half : Val → ℕ → ℕ
load_half v p = v.byte p + v.byte (p + 1) * 2 ^ 8

-- `*(mdb_size_t *) p`
abbrev pub load_long : Val → ℕ → ℕ
load_long v p = load_word v p + load_word v (p + 4) * 2 ^ 32

unfoldable pub cmp_long : Val → Val → Ordering
cmp_long a b = compare (load_long a 0) (load_long b 0)

unfoldable pub cmp_int : Val → Val → Ordering
cmp_int a b = compare (load_word a 0) (load_word b 0)

-- `do { x = *--u - *--c; } while(!x && u > a->mv_data);` with `u` and `c` at an offset; `none` is a
-- read in front of the keys
unfoldable pub cint_from : Val → Val → ℕ → Option Ordering
cint_from a b zero = none
cint_from a b (suc zero) = none
cint_from a b (suc (suc n)) =
    let rest = cint_from a b n in
    elim (compare (load_half a n) (load_half b n)) [
      | Ordering.lt ↦ some Ordering.lt
      | Ordering.gt ↦ some Ordering.gt
      | Ordering.eq ↦ if n == 0 then some Ordering.eq else rest
    ]

-- both keys are read as far as the first one goes
unfoldable pub cmp_cint : Val → Val → Option Ordering
unfolding cint_from
cmp_cint a b = cint_from a b a.size

-- `memcmp` of n bytes from offset p on
unfoldable pub memcmp : Val → Val → ℕ → ℕ → Ordering
memcmp a b p zero = Ordering.eq
memcmp a b p (suc n) = then_compare (compare (a.byte p) (b.byte p)) (memcmp a b (p + 1) n)

-- `len` is an `unsigned int`
unfoldable pub cmp_memn : Val → Val → Ordering
unfolding memcmp
cmp_memn a b =
    let len = if ltb b.size a.size then u32 b.size else u32 a.size in
    then_compare (memcmp a b 0 len) (compare a.size b.size)

-- `while (p1 > p1_lim)`, with n bytes left before `p1_lim`, and offsets `p1` and `p2`
unfoldable pub memnr_loop : Val → Val → ℕ → ℕ → ℕ → Ordering
memnr_loop a b zero p1 p2 = Ordering.eq
memnr_loop a b (suc n) p1 p2 =
    then_compare (compare (a.byte (p1 - 1)) (b.byte (p2 - 1))) (memnr_loop a b n (p1 - 1) (p2 - 1))

unfoldable pub cmp_memnr : Val → Val → Ordering
unfolding memnr_loop
cmp_memnr a b =
    let p1_lim = if ltb b.size a.size then a.size - b.size else 0 in
    then_compare (memnr_loop a b (a.size - p1_lim) a.size b.size) (compare a.size b.size)
