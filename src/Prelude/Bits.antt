-- ===== src/Prelude/Bits.antt =====
-- `|` and `&` of numbers: the law of the lowest digit, and what follows for bounds, for fields that
-- do not overlap and for masks.
use Prim.Native.Nat.{
  ℕ, zero, suc, ◌+◌, ◌*◌, ◌/◌, ◌%◌, ◌^◌, ◌≤◌, ◌<◌, max, min, bit_or, bit_and, digits,
  bit_or-bitwise, bit_and-bitwise,
}
use mathlib.Core.Path.{◌≡◌, refl, ap}
use native.Mathlib.Nat.{pow-suc}
use native.Mathlib.Omega.{arith}

-- more fuel than digits changes nothing
enough_digits :
    (last : ℕ → ℕ) (digit : ℕ → ℕ → ℕ) (more fuel a b : ℕ)
    → a ≤ fuel
    → fuel ≤ more
    → digits last digit fuel a b ≡ digits last digit more a b
enough_digits last digit zero zero a b h k = refl
enough_digits last digit zero (suc fuel) a b h k = absurd (omega arith)
enough_digits last digit (suc more) zero zero b h k = refl
enough_digits last digit (suc more) zero (suc a) b h k = absurd (omega arith)
enough_digits last digit (suc more) (suc fuel) zero b h k = refl
enough_digits last digit (suc more) (suc fuel) (suc a) b h k =
    ap (λ (t : ℕ). t * 2 + digit (suc a % 2) (b % 2))
      (enough_digits last digit more fuel (suc a / 2) (b / 2) (omega arith) (omega arith))

pub bit_or-halves : (a b : ℕ) → bit_or a b ≡ bit_or (a / 2) (b / 2) * 2 + max (a % 2) (b % 2)
bit_or-halves zero b = omega (arith, bit_or-bitwise 0 b, bit_or-bitwise 0 (b / 2))
bit_or-halves (suc a) b = omega (
  arith,
  bit_or-bitwise (suc a) b,
  bit_or-bitwise (suc a / 2) (b / 2),
  enough_digits (λ c. c) max a (suc a / 2) (suc a / 2) (b / 2) (omega arith) (omega arith),
)

pub bit_and-halves : (a b : ℕ) → bit_and a b ≡ bit_and (a / 2) (b / 2) * 2 + min (a % 2) (b % 2)
bit_and-halves zero b = omega (arith, bit_and-bitwise 0 b, bit_and-bitwise 0 (b / 2))
bit_and-halves (suc a) b = omega (
  arith,
  bit_and-bitwise (suc a) b,
  bit_and-bitwise (suc a / 2) (b / 2),
  enough_digits (λ c. 0) min a (suc a / 2) (suc a / 2) (b / 2) (omega arith) (omega arith),
)

-- `a | b` needs no more digits than the longer of the two
pub bit_or-lt : (k a b : ℕ) → a < 2 ^ k → b < 2 ^ k → bit_or a b < 2 ^ k
bit_or-lt zero zero zero h l = omega (arith, bit_or-bitwise 0 0)
bit_or-lt zero zero (suc b) h l = absurd (omega arith)
bit_or-lt zero (suc a) b h l = absurd (omega arith)
bit_or-lt (suc k) a b h l = omega (
  arith,
  pow-suc 2 k,
  bit_or-halves a b,
  bit_or-lt k (a / 2) (b / 2) (omega (arith, pow-suc 2 k)) (omega (arith, pow-suc 2 k)),
)

pub le-bit_or : (k a b : ℕ) → a < 2 ^ k → a ≤ bit_or a b
le-bit_or zero a b h = omega arith
le-bit_or (suc k) a b h = omega (
  arith,
  pow-suc 2 k,
  bit_or-halves a b,
  le-bit_or k (a / 2) (b / 2) (omega (arith, pow-suc 2 k)),
)

pub bit_or-zero : (k a : ℕ) → a < 2 ^ k → bit_or a 0 ≡ a
bit_or-zero zero zero h = omega (arith, bit_or-bitwise 0 0)
bit_or-zero zero (suc a) h = absurd (omega arith)
bit_or-zero (suc k) a h =
    omega
      (arith, pow-suc 2 k, bit_or-halves a 0, bit_or-zero k (a / 2) (omega (arith, pow-suc 2 k)))

-- a field of k digits below another one
pub bit_or-add :
    (k w high low : ℕ) → low < 2 ^ k → high < 2 ^ w → bit_or (high * 2 ^ k) low ≡ high * 2 ^ k + low
bit_or-add zero w high zero h l =
    let e : high * 2 ^ 0 ≡ high = omega arith in
    omega (arith, bit_or-zero w high l, ap (λ (t : ℕ). bit_or t 0) e)
bit_or-add zero w high (suc low) h l = absurd (omega arith)
bit_or-add (suc k) w high low h l =
    let e : high * 2 ^ suc k ≡ high * 2 ^ k * 2 =
      omega (arith, ap (λ (t : ℕ). high * t) (pow-suc 2 k)) in
    let half : high * 2 ^ suc k / 2 ≡ high * 2 ^ k = omega (arith, e) in
    omega (
      arith,
      e,
      bit_or-halves (high * 2 ^ suc k) low,
      ap (λ (t : ℕ). bit_or t (low / 2)) half,
      bit_or-add k w high (low / 2) (omega (arith, pow-suc 2 k)) l,
    )

pub bit_and-zero : (k a : ℕ) → a < 2 ^ k → bit_and a 0 ≡ 0
bit_and-zero zero zero h = omega (arith, bit_and-bitwise 0 0)
bit_and-zero zero (suc a) h = absurd (omega arith)
bit_and-zero (suc k) a h =
    omega
      (arith, pow-suc 2 k, bit_and-halves a 0, bit_and-zero k (a / 2) (omega (arith, pow-suc 2 k)))

-- a mask of the k lowest digits
pub bit_and-mask :
    (k w high low mask : ℕ)
    → mask + 1 ≡ 2 ^ k
    → low < 2 ^ k
    → high < 2 ^ w
    → bit_and (high * 2 ^ k + low) mask ≡ low
bit_and-mask zero w high zero zero e h l =
    let same : high * 2 ^ 0 + 0 ≡ high = omega arith in
    omega (arith, bit_and-zero w high l, ap (λ (t : ℕ). bit_and t 0) same)
bit_and-mask zero w high zero (suc mask) e h l = absurd (omega arith)
bit_and-mask zero w high (suc low) mask e h l = absurd (omega arith)
bit_and-mask (suc k) w high low mask e h l =
    let doubled : high * 2 ^ suc k ≡ high * 2 ^ k * 2 =
      omega (arith, ap (λ (t : ℕ). high * t) (pow-suc 2 k)) in
    let half : (high * 2 ^ suc k + low) / 2 ≡ high * 2 ^ k + low / 2 = omega (arith, doubled) in
    omega (
      arith,
      doubled,
      pow-suc 2 k,
      bit_and-halves (high * 2 ^ suc k + low) mask,
      ap (λ (t : ℕ). bit_and t (mask / 2)) half,
      bit_and-mask k w high (low / 2) (mask / 2) (omega (arith, pow-suc 2 k))
          (omega (arith, pow-suc 2 k)) l,
    )

-- three and four bytes put together, the highest first
pub bit_or_three :
    (a b c : ℕ)
    → a < 256
    → b < 256
    → c < 256
    → bit_or (bit_or (a * 2 ^ 16) (b * 2 ^ 8)) c ≡ a * 2 ^ 16 + b * 2 ^ 8 + c
bit_or_three a b c p q r =
    let one : bit_or (a * 2 ^ 16) (b * 2 ^ 8) ≡ (a * 2 ^ 8 + b) * 2 ^ 8 =
      omega (arith, bit_or-add 16 8 a (b * 2 ^ 8) (omega arith) p) in
    rw one (omega (arith, bit_or-add 8 16 (a * 2 ^ 8 + b) c r (omega arith)))

pub bit_or_four :
    (a b c d : ℕ)
    → a < 256
    → b < 256
    → c < 256
    → d < 256
    → bit_or (bit_or (bit_or (a * 2 ^ 24) (b * 2 ^ 16)) (c * 2 ^ 8)) d
      ≡ a * 2 ^ 24 + b * 2 ^ 16 + c * 2 ^ 8 + d
bit_or_four a b c d p q r s =
    let one : bit_or (a * 2 ^ 24) (b * 2 ^ 16) ≡ (a * 2 ^ 8 + b) * 2 ^ 16 =
      omega (arith, bit_or-add 24 8 a (b * 2 ^ 16) (omega arith) p) in
    let two : bit_or ((a * 2 ^ 8 + b) * 2 ^ 16) (c * 2 ^ 8) ≡ (a * 2 ^ 16 + b * 2 ^ 8 + c) * 2 ^ 8 =
      omega (arith, bit_or-add 16 16 (a * 2 ^ 8 + b) (c * 2 ^ 8) (omega arith) (omega arith)) in
    rw (one, two) (omega (arith, bit_or-add 8 24 (a * 2 ^ 16 + b * 2 ^ 8 + c) d s (omega arith)))
