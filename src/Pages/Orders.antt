-- ===== src/Pages/Orders.antt =====
-- `mdb_cmp_memn` and `mdb_cmp_memnr` of mdb.c order keys as byte strings.
use lmdb_js.Prelude.{
  ℕ, zero, suc, ◌+◌, ◌-◌, ◌^◌, ◌≤◌, ◌<◌, ◌≡◌, ◌⊎◌, refl, ap, ◌∙◌, compare, Ordering, List, [], ◌∷◌,
  arith, ltb, u32, Bool-cases, inl, inr,
}
use lmdb_js.OrderedBinary.{Val}
use lmdb_js.OrderedBinary.Words.{bytes, then_compare, lexicographic}
use lmdb_js.Pages.Compare.{memcmp, cmp_memn, memnr_loop, cmp_memnr}

-- the bytes before offset n, the last one first
abbrev pub backwards : (ℕ → ℕ) → ℕ → List ℕ
backwards f zero = []
backwards f (suc n) = f n ∷ backwards f n

then_compare_assoc :
    (x y z : Ordering) → then_compare (then_compare x y) z ≡ then_compare x (then_compare y z)
then_compare_assoc Ordering.lt y z = refl
then_compare_assoc Ordering.gt y z = refl
then_compare_assoc Ordering.eq y z = refl

compare-suc : (m n : ℕ) → compare (suc m) (suc n) ≡ compare m n
compare-suc m n = ground arith

module _ (a b : Val) where
  -- one byte of each, and then the rest
  step :
      (x y m n : ℕ) (o : Ordering) (xs ys : List ℕ)
      → then_compare o (compare m n) ≡ lexicographic xs ys
      → then_compare (then_compare (compare x y) o) (compare (suc m) (suc n))
        ≡ lexicographic (x ∷ xs) (y ∷ ys)
  unfolding lexicographic
  step x y m n o xs ys e =
      then_compare_assoc (compare x y) o (compare (suc m) (suc n))
      ∙ ap (λ t. then_compare (compare x y) (then_compare o t)) (compare-suc m n)
      ∙ ap (then_compare (compare x y)) e

  memcmp-lexicographic :
      (p m n k : ℕ)
      → k ≤ m
      → k ≤ n
      → (k ≡ m) ⊎ (k ≡ n)
      → then_compare (memcmp a b p k) (compare m n)
        ≡ lexicographic (bytes a.byte p m) (bytes b.byte p n)
  unfolding memcmp lexicographic
  memcmp-lexicographic p zero zero zero h i e = ground arith
  memcmp-lexicographic p zero (suc n) zero h i e = ground arith
  memcmp-lexicographic p (suc m) zero zero h i e = ground arith
  memcmp-lexicographic p (suc m) (suc n) zero h i e = absurd (ground arith)
  memcmp-lexicographic p zero n (suc k) h i e = absurd (omega arith)
  memcmp-lexicographic p (suc m) zero (suc k) h i e = absurd (omega arith)
  memcmp-lexicographic p (suc m) (suc n) (suc k) h i e =
      step (a.byte p) (b.byte p) m n (memcmp a b (p + 1) k) (bytes a.byte (p + 1) m)
        (bytes b.byte (p + 1) n)
        (memcmp-lexicographic (p + 1) m n k (omega arith) (omega arith) (ground arith))

  -- The comparison of two keys of fewer than 2 ^ 32 bytes is their order as byte strings.
  pub cmp_memn-lexicographic :
      a.size < 2 ^ 32
      → b.size < 2 ^ 32
      → cmp_memn a b ≡ lexicographic (bytes a.byte 0 a.size) (bytes b.byte 0 b.size)
  unfolding cmp_memn
  cmp_memn-lexicographic h i =
      let same_a : u32 a.size ≡ a.size = omega arith in
      let same_b : u32 b.size ≡ b.size = omega arith in
      elim (Bool-cases (ltb b.size a.size)) [
        | inl longer ↦
            rw (longer, same_b)
              (memcmp-lexicographic 0 a.size b.size b.size (ground arith) (omega arith) (inr refl))
        | inr shorter ↦
            rw (shorter, same_a)
              (memcmp-lexicographic 0 a.size b.size a.size (omega arith) (ground arith) (inl refl))
      ]

  memnr_loop-lexicographic :
      (m n k : ℕ)
      → k ≤ m
      → k ≤ n
      → (k ≡ m) ⊎ (k ≡ n)
      → then_compare (memnr_loop a b k m n) (compare m n)
        ≡ lexicographic (backwards a.byte m) (backwards b.byte n)
  unfolding memnr_loop lexicographic
  memnr_loop-lexicographic zero zero zero h i e = ground arith
  memnr_loop-lexicographic zero (suc n) zero h i e = ground arith
  memnr_loop-lexicographic (suc m) zero zero h i e = ground arith
  memnr_loop-lexicographic (suc m) (suc n) zero h i e = absurd (ground arith)
  memnr_loop-lexicographic zero n (suc k) h i e = absurd (omega arith)
  memnr_loop-lexicographic (suc m) zero (suc k) h i e = absurd (omega arith)
  memnr_loop-lexicographic (suc m) (suc n) (suc k) h i e =
      let before_m : suc m - 1 ≡ m = omega arith in
      let before_n : suc n - 1 ≡ n = omega arith in
      rw (before_m, before_n)
        (step (a.byte m) (b.byte n) m n (memnr_loop a b k m n) (backwards a.byte m)
          (backwards b.byte n)
          (memnr_loop-lexicographic m n k (omega arith) (omega arith) (ground arith)))

  -- The comparison from the end of two keys is the order of their bytes read backwards.
  pub cmp_memnr-lexicographic :
      cmp_memnr a b ≡ lexicographic (backwards a.byte a.size) (backwards b.byte b.size)
  unfolding cmp_memnr
  cmp_memnr-lexicographic = elim (Bool-cases (ltb b.size a.size)) [
    | inl longer ↦
        let len : a.size - (a.size - b.size) ≡ b.size = ground arith in
        rw (longer, len)
          (memnr_loop-lexicographic a.size b.size b.size (ground arith) (omega arith) (inr refl))
    | inr shorter ↦
        let len : a.size - 0 ≡ a.size = omega arith in
        rw (shorter, len)
          (memnr_loop-lexicographic a.size b.size a.size (omega arith) (ground arith) (inl refl))
  ]
