-- ===== src/Cursor/Ranges.antt =====
-- What `doPosition` of src/cursor.cpp answers for a range, once LMDB has come to its first entry.
use lmdb_js.Prelude.{
  ℕ, zero, suc, ◌+◌, ◌≤◌, ◌<◌, ◌^◌, ◌≡◌, refl, ap, ◌∙◌, inl, inr, Ordering, Bool, true, false, not,
  Bool-cases, Option, none, some, List, [], ◌∷◌, if◌then◌else◌, length, drop, arith,
}
use lmdb_js.Cursor.{
  Val, Op, first_entry, last_entry, next_entry, next_dup, next_nodup, prev_entry, prev_dup,
  prev_nodup, last_dup, set_key, set_range, get_both, get_both_range, get_current, Got, Lmdb, has,
  reaches, is_empty, is_reverse, values_only, past_end, counts_only, iterating_op, return_entry,
  skip_offset, uses_count, counting_op,
}
use lmdb_js.Cursor.Position.{Request, found, counted, positioned, end_of, locate, walk, do_position}
use lmdb_js.Cursor.Walk.{
  Along, before, skip_offset-Along, loop, count_loop-before, first_of, return_entry-first,
}

length-drop : (n : ℕ) (es : List (Val × Val)) → length (drop n es) ≤ length es
length-drop zero es = omega arith
length-drop (suc n) [] = omega arith
length-drop (suc n) (e ∷ es) = omega (arith, length-drop n es)

-- Whether an end key stands behind an entry, by how it compares to it: forward it is the greater
-- one, backward the smaller.
abbrev pub comes_after : Bool → Ordering → Bool
comes_after false Ordering.gt = true
comes_after true Ordering.lt = true
comes_after _ _ = false

module _ {ℓ} {S : Type ℓ} (lmdb : Lmdb S) where
  -- without duplicates every entry counts once
  plain_op :
      (flags : ℕ) (end_key : Val) (op : Op)
      → lmdb.is_dupsort ≡ false
      → (uses_count lmdb flags end_key op ≡ false) × (counting_op lmdb flags end_key op ≡ op)
  plain_op flags end_key first_entry plain = (refl, refl)
  plain_op flags end_key last_entry plain = (refl, refl)
  plain_op flags end_key next_entry plain = (plain, rw plain refl)
  plain_op flags end_key next_dup plain = (refl, refl)
  plain_op flags end_key next_nodup plain = (refl, refl)
  plain_op flags end_key prev_entry plain = (plain, rw plain refl)
  plain_op flags end_key prev_dup plain = (refl, refl)
  plain_op flags end_key prev_nodup plain = (refl, refl)
  plain_op flags end_key last_dup plain = (refl, refl)
  plain_op flags end_key set_key plain = (refl, refl)
  plain_op flags end_key set_range plain = (refl, refl)
  plain_op flags end_key get_both plain = (refl, refl)
  plain_op flags end_key get_both_range plain = (refl, refl)
  plain_op flags end_key get_current plain = (refl, refl)

  -- the key or, among the values of a key, the value of an entry, against that of the end
  abbrev compared : Request → Val → Val → Val → Ordering
  compared r end key data' = elim (values_only r.flags) [
    | true ↦ lmdb.dcmp end data'
    | false ↦ lmdb.cmp end key
  ]

  -- the entry comes before the end key, if there is one that is not empty
  abbrev pub is_within : Request → Val → Val → Bool
  is_within r key data' = elim (r.end_key) [
    | none ↦ true
    | some end ↦ elim end [
      | [] ↦ true
      | byte ∷ bytes ↦ comes_after (is_reverse r.flags) (compared r (byte ∷ bytes) key data')
    ]
  ]

  -- the entries up to the first that does not come before the end key
  abbrev pub leading : Request → List (Val × Val) → List (Val × Val)
  leading r [] = []
  leading r ((k, d) ∷ es) = let rest = leading r es in if is_within r k d then (k, d) ∷ rest else []

  -- the entries of the range, behind the offset
  abbrev pub in_range : Request → List (Val × Val) → List (Val × Val)
  in_range r es = leading r (drop r.offset es)

  reaches-comes_after :
      (reverse : Bool) (o : Ordering) → reaches reverse o ≡ not (comes_after reverse o)
  reaches-comes_after true Ordering.lt = refl
  reaches-comes_after true Ordering.eq = refl
  reaches-comes_after true Ordering.gt = refl
  reaches-comes_after false Ordering.lt = refl
  reaches-comes_after false Ordering.eq = refl
  reaches-comes_after false Ordering.gt = refl

  -- the test of the code, with the byte of an end key that is not empty
  past_end-bounded :
      (flags : ℕ) (byte : ℕ) (bytes key data' : Val)
      → past_end lmdb flags (byte ∷ bytes) key data'
        ≡ not (
            comes_after (is_reverse flags) (elim (values_only flags) [
              | true ↦ lmdb.dcmp (byte ∷ bytes) data'
              | false ↦ lmdb.cmp (byte ∷ bytes) key
            ]))
  past_end-bounded flags byte bytes key data' =
      let there : is_empty (byte ∷ bytes) ≡ false = ground arith in
      elim (Bool-cases (values_only flags)) [
        | inl by_value ↦
            rw (there, by_value)
              (reaches-comes_after (is_reverse flags) (lmdb.dcmp (byte ∷ bytes) data'))
        | inr by_key ↦
            rw (there, by_key)
              (reaches-comes_after (is_reverse flags) (lmdb.cmp (byte ∷ bytes) key))
      ]

  -- `end` is what the request has, or nothing
  past_end-is_within :
      (r : Request) (end : Option Val) (key data' : Val)
      → r.end_key ≡ end
      → past_end lmdb r.flags (end_of r) key data' ≡ not (is_within r key data')
  past_end-is_within r none key data' e = rw e refl
  past_end-is_within r (some []) key data' e = rw e refl
  past_end-is_within r (some (byte ∷ bytes)) key data' e =
      rw e (past_end-bounded r.flags byte bytes key data')

  before-leading :
      (r : Request) (es : List (Val × Val)) → before lmdb r.flags (end_of r) es ≡ leading r es
  before-leading r [] = refl
  before-leading r ((k, d) ∷ es) =
      let same = past_end-is_within r r.end_key k d refl in
      elim (Bool-cases (is_within r k d)) [
        | inl inside ↦ rw (same, inside) (ap (λ t. (k, d) ∷ t) (before-leading r es))
        | inr outside ↦ rw (same, outside) refl
      ]

  abbrev skipped : Request → Got S → Got S
  skipped r g = skip_offset lmdb r.flags (end_of r) (iterating_op r.flags) r.offset g

  walk-count_loop :
      (fuel n : ℕ) (r : Request) (g : Got S)
      → counts_only r.flags ≡ true
      → lmdb.is_dupsort ≡ false
      → loop lmdb r.flags (end_of r) (iterating_op r.flags) fuel 0 (skipped r g) ≡ some n
      → walk lmdb fuel r g ≡ some (counted n)
  unfolding walk
  walk-count_loop fuel n r g counts plain ran =
      let (each, same) = plain_op r.flags (end_of r) (iterating_op r.flags) plain in
      rw (counts, each, same, ran) refl

  walk-positioned :
      (fuel : ℕ) (r : Request) (g : Got S)
      → counts_only r.flags ≡ false
      → walk lmdb fuel r g
        ≡ some (
            positioned
              (return_entry lmdb r.flags (end_of r) (skipped r g))
              (iterating_op r.flags)
              (skipped r g).cursor)
  unfolding walk
  walk-positioned fuel r g reads = rw reads refl

  -- where the search begins
  abbrev pub renewed : Request → S → S
  renewed r s = if has r.flags 0x2000 then lmdb.renew s else s

  do_position-walk :
      (fuel : ℕ) (junk : Val) (r : Request) (s : S) (g : Got S)
      → locate lmdb junk r (renewed r s) ≡ found g
      → do_position lmdb fuel junk r s ≡ walk lmdb fuel r g
  unfolding do_position
  do_position-walk fuel junk r s g at_first = rw (at_first, do_position) refl

  -- In a database without duplicate values, if LMDB comes to the first entry and goes through
  -- the entries `es` from there, fewer than 2 ^ 32, `doPosition` with the flag for counting
  -- answers, with fuel for them, the number of those that stand behind the offset and in front
  -- of the first one that does not come before the end key: that is not smaller than it in its
  -- key, or backward not greater, or so in its value if the request is for the values of a key. An
  -- empty end key or none is no bound.
  pub do_position-in_range :
      (fuel : ℕ) (junk : Val) (r : Request) (s : S) (es : List (Val × Val)) (g : Got S)
      → lmdb.is_dupsort ≡ false
      → counts_only r.flags ≡ true
      → locate lmdb junk r (renewed r s) ≡ found g
      → Along lmdb (iterating_op r.flags) es g
      → length es ≤ fuel
      → length es < 2 ^ 32
      → do_position lmdb fuel junk r s ≡ some (counted (length (in_range r es)))
  do_position-in_range fuel junk r s es g plain counts at_first along enough small =
      let shorter = length-drop r.offset es in
      let op = iterating_op r.flags in
      do_position-walk fuel junk r s g at_first
      ∙ walk-count_loop fuel (length (in_range r es)) r g counts plain (
          count_loop-before lmdb r.flags (end_of r) op fuel (drop r.offset es) 0 (skipped r g)
            (skip_offset-Along lmdb r.flags (end_of r) op r.offset es g along)
            (omega (arith, shorter, enough)) (omega (arith, shorter, small))
          ∙ ap (λ t. some (0 + length t)) (before-leading r (drop r.offset es))
          ∙ ap some (omega arith))

  -- If LMDB comes to the first entry and goes through the entries `es` from there, `doPosition`
  -- without the flag for counting answers the first of those that stand behind the offset and in
  -- front of the first one that does not come before the end key, and 0 if there is none. An entry
  -- comes before the end key if it is smaller than it in its key, or backward greater, or so in its
  -- value if the request is for the values of a key. An empty end key or none is no bound.
  pub do_position-first_of :
      (fuel : ℕ) (junk : Val) (r : Request) (s : S) (es : List (Val × Val)) (g : Got S)
      → counts_only r.flags ≡ false
      → locate lmdb junk r (renewed r s) ≡ found g
      → Along lmdb (iterating_op r.flags) es g
      → (c : S) × (do_position lmdb fuel junk r s
          ≡ some (
              positioned
                (first_of lmdb r.flags (end_of r) (in_range r es))
                (iterating_op r.flags)
                c))
  do_position-first_of fuel junk r s es g reads at_first along =
      let op = iterating_op r.flags in
      (
        (skipped r g).cursor,
        do_position-walk fuel junk r s g at_first
            ∙ walk-positioned fuel r g reads
            ∙ ap (λ x. some (positioned x op (skipped r g).cursor))
                (return_entry-first lmdb r.flags (end_of r) op (drop r.offset es) (skipped r g)
                    (skip_offset-Along lmdb r.flags (end_of r) op r.offset es g along)
                  ∙ ap (first_of lmdb r.flags (end_of r)) (before-leading r (drop r.offset es))),
      )
