-- ===== src/Midl/Sort/Segments.antt =====
-- The two parts of a split segment in `mdb_midl_sort` of midl.c: what is true while they are sorted.
use native.Mathlib.Decide.{dec_lt, dec_le}
use lmdb_js.Prelude.{ℕ, suc, ◌-◌, ◌≤◌, ◌<◌, ◌∙◌, ◌⊎◌, inl, inr, arith}
use lmdb_js.Midl.Idl.{Idl}
use lmdb_js.Midl.Sort.Moved.{Moved, MovedIn, Falls, IsAbove}
use lmdb_js.Midl.Sort.Split.{IsSplit}

-- what moves in a part moves in the whole
pub MovedIn-wider :
    {n l r l' r' : ℕ} {b c : Idl} → l ≤ l' → r' ≤ r → MovedIn n l' r' b c → MovedIn n l r b c
MovedIn-wider {n} {l} {r} {l'} {r'} {b} {c} low high m = record {
  cap = m.cap;
  moved = record {
    draws = λ q p s. elim (dec_lt q l') [
      | yes before ↦ (q, p, s, m.moved.keeps q (inl before))
      | no after ↦ elim (dec_lt r' q) [
        | yes behind ↦ (q, p, s, m.moved.keeps q (inr behind))
        | no within ↦
            let (q', p', s', e) = m.moved.draws q (omega (arith, after)) (omega (arith, within)) in
            (q', omega (arith, p', low), omega (arith, s', high), e)
      ]
    ];
    keeps = λ q away. elim away [
      | inl before ↦ m.moved.keeps q (inl (omega (arith, before, low)))
      | inr behind ↦ m.moved.keeps q (inr (omega (arith, behind, high)))
    ];
    counts = m.moved.counts;
  };
}

pub Falls-away :
    {n l r l' r' : ℕ} {f g : ℕ → ℕ}
    → Moved n l' r' f g
    → (r < l') ⊎ (r' < l)
    → Falls l r f
    → Falls l r g
Falls-away m away falls q p s = elim away [
  | inl before ↦ omega (
    arith,
    m.keeps q (inl (omega (arith, s, before))),
    m.keeps (suc q) (inl (omega (arith, s, before))),
    falls q p s,
  )
  | inr behind ↦ omega (
    arith,
    m.keeps q (inr (omega (arith, p, behind))),
    m.keeps (suc q) (inr (omega (arith, p, behind))),
    falls q p s,
  )
]

module _ (n l r a i j : ℕ) (f g : ℕ → ℕ) (h : IsSplit l r a i j f) where
  pub IsSplit-left : Moved n l (j - 1) f g → IsSplit l r a i j g
  IsSplit-left m = record {
    low = h.low;
    crossed = h.crossed;
    high = h.high;
    left = λ q p s.
        let (q', p', s', e) = m.draws q p (omega (arith, s)) in
        omega (arith, e, h.left q' p' (omega (arith, s', h.low)));
    middle = λ q p s. m.keeps q (inr (omega (arith, p, h.low))) ∙ h.middle q p s;
    right =
        λ q p s. omega (arith, m.keeps q (inr (omega (arith, p, h.low, h.crossed))), h.right q p s);
  }

  pub IsSplit-right : Moved n i r f g → IsSplit l r a i j g
  IsSplit-right m = record {
    low = h.low;
    crossed = h.crossed;
    high = h.high;
    left = λ q p s. omega (arith, m.keeps q (inl (omega (arith, s, h.crossed))), h.left q p s);
    middle = λ q p s. m.keeps q (inl s) ∙ h.middle q p s;
    right = λ q p s. let (q', p', s', e) = m.draws q p s in omega (arith, e, h.right q' p' s');
  }

module _ (l r a i j : ℕ) (f : ℕ → ℕ) (h : IsSplit l r a i j f) where
  pub IsAbove-left : IsAbove l r f → IsAbove l (j - 1) f
  IsAbove-left above p q low lt le high =
      above p q low lt le (omega (arith, high, h.crossed, h.high))

  pub IsAbove-right : IsAbove l r f → IsAbove i r f
  IsAbove-right above p q low lt le high = elim (dec_lt p l) [
    | yes before ↦ above p q low before (omega (arith, le, h.low, h.crossed)) high
    | no within ↦ elim (dec_lt p j) [
      | yes first ↦ omega (arith, h.left p (omega (arith, within)) first, h.right q le high)
      | no second ↦ omega (arith, h.middle p (omega (arith, second)) lt, h.right q le high)
    ]
  ]

  pub Falls-joined : Falls l (j - 1) f → Falls i r f → Falls l r f
  Falls-joined first second q p s = elim (dec_lt (suc q) j) [
    | yes left ↦ first q p (omega (arith, left))
    | no other ↦ elim (dec_le i q) [
      | yes right ↦ second q right s
      | no inner ↦ elim (dec_lt q j) [
        | yes last ↦ omega (
          arith,
          h.left q p last,
          h.middle (suc q) (omega (arith, other)) (omega (arith, last, h.crossed)),
        )
        | no at_pivot ↦
            let here = h.middle q (omega (arith, at_pivot)) (omega (arith, inner)) in
            elim (dec_lt (suc q) i) [
              | yes more ↦ omega (arith, here, h.middle (suc q) (omega (arith, other)) more)
              | no next ↦ omega (arith, here, h.right (suc q) (omega (arith, next)) s)
            ]
      ]
    ]
  ]
