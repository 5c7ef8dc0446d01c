-- ===== src/OrderedBinary/Words.antt =====
-- The words that `compareFast` of src/ordered-binary.cpp compares, as the digits of numbers.
use Prim.Native.Nat.{bit_and}
use lmdb_js.Prelude.{
  ℕ, zero, suc, ◌+◌, ◌*◌, ◌^◌, ◌<◌, ◌≡◌, ap, ◌∙◌, compare, Ordering, List, [], ◌∷◌, arith,
  bit_and-mask,
}
use lmdb_js.OrderedBinary.{Val, load_word, ntohl, tail_mask}

-- n bytes from `p` on
abbrev pub bytes : (ℕ → ℕ) → ℕ → ℕ → List ℕ
bytes f p zero = []
bytes f p (suc n) = f p ∷ bytes f (p + 1) n

abbrev pub then_compare : Ordering → Ordering → Ordering
then_compare Ordering.lt o = Ordering.lt
then_compare Ordering.gt o = Ordering.gt
then_compare Ordering.eq o = o

-- the order of byte strings: by the first byte that differs, and a prefix comes first
unfoldable pub lexicographic : List ℕ → List ℕ → Ordering
lexicographic [] [] = Ordering.eq
lexicographic [] (y ∷ ys) = Ordering.lt
lexicographic (x ∷ xs) [] = Ordering.gt
lexicographic (x ∷ xs) (y ∷ ys) = then_compare (compare x y) (lexicographic xs ys)

-- bytes in memory order as the digits of a number
abbrev pub digits4 : ℕ → ℕ → ℕ → ℕ → ℕ
digits4 a b c d = ((a * 256 + b) * 256 + c) * 256 + d

compare-digit :
    (a b c d : ℕ)
    → b < 256
    → d < 256
    → compare (a * 256 + b) (c * 256 + d) ≡ then_compare (compare a c) (compare b d)
compare-digit a b c d h k = ground arith

pub compare-digits4 :
    (a b c d a' b' c' d' : ℕ)
    → b < 256
    → c < 256
    → d < 256
    → b' < 256
    → c' < 256
    → d' < 256
    → compare (digits4 a b c d) (digits4 a' b' c' d')
      ≡ then_compare
          (compare a a')
          (then_compare (compare b b') (then_compare (compare c c') (compare d d')))
compare-digits4 a b c d a' b' c' d' h1 h2 h3 k1 k2 k3 =
    rw
      (
        compare-digit ((a * 256 + b) * 256 + c) d ((a' * 256 + b') * 256 + c') d' h3 k3,
        compare-digit (a * 256 + b) c (a' * 256 + b') c' h2 k2,
        compare-digit a b a' b' h1 k1,
      )
      (ground arith)

abbrev pub AreBytes : (ℕ → ℕ) → Type 0
AreBytes f = (i : ℕ) → f i < 256

pub ntohl-load_word :
    (v : Val) (p : ℕ)
    → AreBytes v.byte
    → ntohl (load_word v p) ≡ digits4 (v.byte p) (v.byte (p + 1)) (v.byte (p + 2)) (v.byte (p + 3))
unfolding ntohl
ntohl-load_word v p h = omega (arith, h p, h (p + 1), h (p + 2), h (p + 3))

-- the mask drops the bytes behind the end of the key
module _ (v : Val) (p : ℕ) (h : AreBytes v.byte) where
  abbrev b0 : ℕ
  b0 = v.byte p

  abbrev b1 : ℕ
  b1 = v.byte (p + 1)

  abbrev b2 : ℕ
  b2 = v.byte (p + 2)

  abbrev b3 : ℕ
  b3 = v.byte (p + 3)

  masked :
      (k high low mask : ℕ)
      → mask + 1 ≡ 2 ^ k
      → low < 2 ^ k
      → high < 2 ^ 32
      → load_word v p ≡ high * 2 ^ k + low
      → bit_and (load_word v p) mask ≡ low
  masked k high low mask e l w split =
      ap (λ t. bit_and t mask) split ∙ bit_and-mask k 32 high low mask e l w

  pub tail_one : ntohl (bit_and (load_word v p) (tail_mask 1)) ≡ digits4 b0 0 0 0
  unfolding ntohl
  tail_one = omega (
    arith,
    h p,
    h (p + 1),
    h (p + 2),
    h (p + 3),
    masked 8 (b1 + b2 * 2 ^ 8 + b3 * 2 ^ 16) b0 255 (omega arith) (h p)
        (omega (arith, h (p + 1), h (p + 2), h (p + 3))) (omega arith),
  )

  pub tail_two : ntohl (bit_and (load_word v p) (tail_mask 2)) ≡ digits4 b0 b1 0 0
  unfolding ntohl
  tail_two = omega (
    arith,
    h p,
    h (p + 1),
    masked 16 (b2 + b3 * 2 ^ 8) (b0 + b1 * 2 ^ 8) 65535 (omega arith)
        (omega (arith, h p, h (p + 1))) (omega (arith, h (p + 2), h (p + 3))) (omega arith),
  )

  pub tail_three : ntohl (bit_and (load_word v p) (tail_mask 3)) ≡ digits4 b0 b1 b2 0
  unfolding ntohl
  tail_three = omega (
    arith,
    h p,
    h (p + 1),
    h (p + 2),
    masked 24 b3 (b0 + b1 * 2 ^ 8 + b2 * 2 ^ 16) 16777215 (omega arith)
        (omega (arith, h p, h (p + 1), h (p + 2))) (omega (arith, h (p + 3))) (omega arith),
  )
