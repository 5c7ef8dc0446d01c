-- ===== src/Dbi/Opening/Flags.antt =====
-- The flags that `DbiWrap::open` of src/dbi.cpp passes on, by their digits.
use Prim.Native.Nat.{bit_and, bit_or}
use lmdb_js.Prelude.{
  ℕ, ◌+◌, ◌-◌, ◌*◌, ◌/◌, ◌%◌, ◌^◌, ◌<◌, ◌≡◌, refl, arith, bit_and-zero, bit_and-halves, bit_or-zero,
  bit_or-halves,
}
use lmdb_js.Dbi.Opening.{KeyType, default_key, uint32_key, other_key, open_flags}

-- the digit of a number for 2 ^ k
abbrev pub digit : ℕ → ℕ → ℕ
digit k x = x / 2 ^ k % 2

-- `HAS_VERSIONS` taken away, and `MDB_INTEGERKEY` set for keys of 32 bits
abbrev pub asked : KeyType → ℕ → ℕ
asked uint32_key flags = flags - digit 12 flags * 2 ^ 12 + (1 - digit 3 flags) * 2 ^ 3
asked _ flags = flags - digit 12 flags * 2 ^ 12

bit_and-even : (a b : ℕ) → b % 2 ≡ 0 → bit_and a b ≡ bit_and (a / 2) (b / 2) * 2
bit_and-even a b even = omega (arith, bit_and-halves a b)

has_versions-digit : (x : ℕ) → x < 2 ^ 32 → bit_and x 0x1000 ≡ digit 12 x * 2 ^ 12
has_versions-digit x h = omega (
  arith,
  bit_and-even (x) 4096 refl,
  bit_and-even (x / 2) 2048 refl,
  bit_and-even (x / 2 / 2) 1024 refl,
  bit_and-even (x / 2 / 2 / 2) 512 refl,
  bit_and-even (x / 2 / 2 / 2 / 2) 256 refl,
  bit_and-even (x / 2 / 2 / 2 / 2 / 2) 128 refl,
  bit_and-even (x / 2 / 2 / 2 / 2 / 2 / 2) 64 refl,
  bit_and-even (x / 2 / 2 / 2 / 2 / 2 / 2 / 2) 32 refl,
  bit_and-even (x / 2 / 2 / 2 / 2 / 2 / 2 / 2 / 2) 16 refl,
  bit_and-even (x / 2 / 2 / 2 / 2 / 2 / 2 / 2 / 2 / 2) 8 refl,
  bit_and-even (x / 2 / 2 / 2 / 2 / 2 / 2 / 2 / 2 / 2 / 2) 4 refl,
  bit_and-even (x / 2 / 2 / 2 / 2 / 2 / 2 / 2 / 2 / 2 / 2 / 2) 2 refl,
  bit_and-halves (x / 2 / 2 / 2 / 2 / 2 / 2 / 2 / 2 / 2 / 2 / 2 / 2) 1,
  bit_and-zero 32 (x / 2 / 2 / 2 / 2 / 2 / 2 / 2 / 2 / 2 / 2 / 2 / 2 / 2) (omega arith),
)

integer_key-digit : (x : ℕ) → x < 2 ^ 32 → bit_or x 8 ≡ x + (1 - digit 3 x) * 2 ^ 3
integer_key-digit x h = omega (
  arith,
  bit_or-halves (x) 8,
  bit_or-halves (x / 2) 4,
  bit_or-halves (x / 2 / 2) 2,
  bit_or-halves (x / 2 / 2 / 2) 1,
  bit_or-zero 32 (x / 2 / 2 / 2 / 2) (omega arith),
)

-- the code's masks do this
pub open_flags-asked :
    (key_type : KeyType) (flags : ℕ)
    → flags < 2 ^ 32
    → open_flags key_type flags ≡ asked key_type flags
open_flags-asked uint32_key flags h = omega (
  arith,
  has_versions-digit flags h,
  integer_key-digit (flags - bit_and flags 0x1000) (omega arith),
)
open_flags-asked default_key flags h = omega (arith, has_versions-digit flags h)
open_flags-asked other_key flags h = omega (arith, has_versions-digit flags h)
