-- ===== src/OrderedBinary/Order.antt =====
-- `compareFast` of src/ordered-binary.cpp orders keys as byte strings.
use lmdb_js.Prelude.{ℕ, zero, suc, ◌+◌, ◌^◌, ◌≤◌, ◌<◌, ◌≡◌, ap, ◌∙◌, compare, Ordering, arith}
use lmdb_js.Prelude.Int.{ℤ, sign, size_difference, sign-size_difference}
use lmdb_js.OrderedBinary.{Val, load_word, ntohl, decide_words, compare_from, compare_fast}
use lmdb_js.OrderedBinary.Words.{
  bytes, then_compare, lexicographic, digits4, compare-digits4, AreBytes, ntohl-load_word, tail_one,
  tail_two, tail_three,
}

-- byte by byte, with the bytes of `a` read on behind its end
bytewise : Val → Val → ℕ → ℕ → Ordering
bytewise a b p zero = compare a.size b.size
bytewise a b p (suc n) = then_compare (compare (a.byte p) (b.byte p)) (bytewise a b (p + 1) n)

module _ (a b : Val) (small_a : a.size < 2 ^ 31) (small_b : b.size < 2 ^ 31)
    (bytes_a : AreBytes a.byte) (bytes_b : AreBytes b.byte)
    (padded : (i : ℕ) → a.size ≤ i → i < b.size + 3 → a.byte i ≡ 0) where
  sign-decide_words :
      (x y : ℕ) (z : ℤ) → sign (decide_words x y z) ≡ then_compare (compare x y) (sign z)
  sign-decide_words x y z = ground arith

  -- a byte of `a` behind the end of `b` tells no more than the sizes do
  extra :
      (i : ℕ)
      → b.size ≤ i
      → i < b.size + 3
      → then_compare (compare (a.byte i) 0) (compare a.size b.size) ≡ compare a.size b.size
  extra i h k = ground (arith, padded i)

  sizes : sign (size_difference a.size b.size) ≡ compare a.size b.size
  sizes = sign-size_difference a.size b.size small_a small_b

  -- a whole word of `a` against the digits of a word of `b`
  word-bytewise :
      (p w x y z u : ℕ) (o : ℤ)
      → w ≡ digits4 x y z u
      → y < 256
      → z < 256
      → u < 256
      → sign (decide_words (ntohl (load_word a p)) w o)
        ≡ then_compare (compare (a.byte p) x) (
            then_compare (compare (a.byte (p + 1)) y) (
              then_compare
                (compare (a.byte (p + 2)) z)
                (then_compare (compare (a.byte (p + 3)) u) (sign o))))
  word-bytewise p w x y z u o e hy hz hu =
      sign-decide_words (ntohl (load_word a p)) w o
      ∙ ap (λ t. then_compare (compare (ntohl (load_word a p)) t) (sign o)) e
      ∙ ap (λ t. then_compare (compare t (digits4 x y z u)) (sign o)) (ntohl-load_word a p bytes_a)
      ∙ ap (λ t. then_compare t (sign o))
          (compare-digits4 (a.byte p) (a.byte (p + 1)) (a.byte (p + 2)) (a.byte (p + 3)) x y z u
            (bytes_a (p + 1)) (bytes_a (p + 2)) (bytes_a (p + 3)) hy hz hu)
      ∙ ground arith

  compare_from-bytewise :
      (p n : ℕ) → p + n ≡ b.size → sign (compare_from a b p n) ≡ bytewise a b p n
  unfolding compare_from bytewise
  compare_from-bytewise p zero e = sizes
  compare_from-bytewise p (suc zero) e =
      word-bytewise p _ (b.byte p) 0 0 0 _ (tail_one b p bytes_b) (omega arith) (omega arith)
        (omega arith)
      ∙ rw (
        sizes,
        extra (p + 3) (omega arith) (omega arith),
        extra (p + 2) (omega arith) (omega arith),
        extra (p + 1) (omega arith) (omega arith),
      )
  compare_from-bytewise p (suc (suc zero)) e =
      word-bytewise p _ (b.byte p) (b.byte (p + 1)) 0 0 _ (tail_two b p bytes_b) (bytes_b (p + 1))
        (omega arith) (omega arith)
      ∙ rw (
        sizes,
        extra (p + 3) (omega arith) (omega arith),
        extra (p + 2) (omega arith) (omega arith),
      )
  compare_from-bytewise p (suc (suc (suc zero))) e =
      let two : p + 1 + 1 ≡ p + 2 = omega arith in
      word-bytewise p _ (b.byte p) (b.byte (p + 1)) (b.byte (p + 2)) 0 _ (tail_three b p bytes_b)
        (bytes_b (p + 1)) (bytes_b (p + 2)) (omega arith)
      ∙ rw (sizes, extra (p + 3) (omega arith) (omega arith), two)
  compare_from-bytewise p (suc (suc (suc (suc n)))) e =
      let two : p + 1 + 1 ≡ p + 2 = omega arith in
      let three : p + 2 + 1 ≡ p + 3 = omega arith in
      let four : p + 3 + 1 ≡ p + 4 = omega arith in
      word-bytewise p _ (b.byte p) (b.byte (p + 1)) (b.byte (p + 2)) (b.byte (p + 3)) _
        (ntohl-load_word b p bytes_b) (bytes_b (p + 1)) (bytes_b (p + 2)) (bytes_b (p + 3))
      ∙ rw (two, three, four, compare_from-bytewise (p + 4) n (omega arith))

  -- behind the end of `a` the bytes of `b` decide nothing but that `a` is less
  bytewise-end :
      (p n : ℕ) → a.size ≤ p → p + n ≡ b.size → a.size < b.size → bytewise a b p n ≡ Ordering.lt
  unfolding bytewise
  bytewise-end p zero h e l = ground arith
  bytewise-end p (suc n) h e l = ground (arith, padded p h (omega arith), bytewise-end (p + 1) n)

  bytewise-lexicographic :
      (p m n : ℕ)
      → p + m ≡ a.size
      → p + n ≡ b.size
      → bytewise a b p n ≡ lexicographic (bytes a.byte p m) (bytes b.byte p n)
  unfolding bytewise lexicographic
  bytewise-lexicographic p zero zero e f = ground arith
  bytewise-lexicographic p (suc m) zero e f = ground arith
  bytewise-lexicographic p zero (suc n) e f = bytewise-end p (suc n) (omega arith) f (omega arith)
  bytewise-lexicographic p (suc m) (suc n) e f =
      rw (bytewise-lexicographic (p + 1) m n (omega arith) (omega arith))

  -- The comparison of two keys by words has the sign of their order as byte strings, where both
  -- sizes are below 2 ^ 31, memory holds bytes, and the bytes behind the end of `a` are zero as
  -- far as the words of `b` reach.
  pub compare_fast-lexicographic :
      sign (compare_fast a b) ≡ lexicographic (bytes a.byte 0 a.size) (bytes b.byte 0 b.size)
  unfolding compare_fast
  compare_fast-lexicographic =
      compare_from-bytewise 0 b.size (omega arith)
      ∙ bytewise-lexicographic 0 a.size b.size (omega arith) (omega arith)
