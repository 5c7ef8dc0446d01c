-- ===== src/Prelude/Int.antt =====
-- Signed integers over the native numbers, as far as return values need them.
use Prim.Native.Nat.{ℕ, zero, suc, ◌+◌, ◌-◌, ◌^◌, ◌<◌, Ordering, compare}
use mathlib.Core.Path.{◌≡◌}
use mathlib.Core.Bool.{Bool, true, false}
use native.Mathlib.Omega.{arith}
use lmdb_js.Prelude.Tests.{ltb, ◌==◌, if◌then◌else◌, u32, u64}

-- `negsuc n` is -(n + 1)
pub data ℤ : Type 0 where
  pos : ℕ → ℤ
  negsuc : ℕ → ℤ

-- how an integer compares with 0
abbrev pub sign : ℤ → Ordering
sign (pos n) = compare n 0
sign (negsuc n) = Ordering.lt

-- the `int` that a bit pattern stands for
abbrev pub signed32 : ℕ → ℤ
signed32 w = if ltb w (2 ^ 31) then pos w else negsuc (2 ^ 32 - w - 1)

-- a difference of two `size_t` that is returned as an `int`
abbrev pub size_difference : ℕ → ℕ → ℤ
size_difference a b = signed32 (u32 (u64 (a + 2 ^ 64 - b)))

pub sign-size_difference :
    (a b : ℕ) → a < 2 ^ 31 → b < 2 ^ 31 → sign (size_difference a b) ≡ compare a b
sign-size_difference a b h k = ground arith

abbrev pub inc : ℤ → ℤ
inc (pos n) = pos (suc n)
inc (negsuc zero) = pos 0
inc (negsuc (suc n)) = negsuc n

abbrev pub dec : ℤ → ℤ
dec (pos zero) = negsuc 0
dec (pos (suc n)) = pos n
dec (negsuc n) = negsuc (suc n)

-- `a == b`
abbrev pub eqb : ℤ → ℤ → Bool
eqb (pos a) (pos b) = a == b
eqb (negsuc a) (negsuc b) = a == b
eqb _ _ = false

-- `a < b`
abbrev pub ltb_ℤ : ℤ → ℤ → Bool
ltb_ℤ (pos a) (pos b) = ltb a b
ltb_ℤ (pos a) (negsuc b) = false
ltb_ℤ (negsuc a) (pos b) = true
ltb_ℤ (negsuc a) (negsuc b) = ltb b a
