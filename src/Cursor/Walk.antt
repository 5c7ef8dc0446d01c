-- ===== src/Cursor/Walk.antt =====
-- The entries that `doPosition` of src/cursor.cpp counts or comes to.
use mathlib.Core.Path.{subst}
use lmdb_js.Prelude.{
  ℕ, zero, suc, ◌+◌, ◌≤◌, ◌<◌, ◌^◌, ◌≡◌, refl, sym, ap, ◌∙◌, inl, inr, true, false, Bool-cases,
  Option, some, List, [], ◌∷◌, ◌==◌, if◌then◌else◌, u32, length, drop, arith,
}
use lmdb_js.Cursor.{
  Val, Op, Got, Lmdb, not_found, Returned, ended, entry, past_end, return_entry, skip_offset,
  count_loop,
}

module _ {ℓ} {S : Type ℓ} (lmdb : Lmdb S) where
  -- `mdb_cursor_get` goes through the entries and then finds no more
  unfoldable pub Along : Op → List (Val × Val) → Got S → Type 0
  Along op [] g = g.rc ≡ not_found
  Along op ((k, d) ∷ es) g =
      (g.rc ≡ 0) × (g.key ≡ k) × (g.data' ≡ d) × Along op es (lmdb.get op g.key g.data' g.cursor)

  module _ (flags : ℕ) (end_key : Val) where
    -- the entries before the end of the range
    abbrev pub before : List (Val × Val) → List (Val × Val)
    before [] = []
    before ((k, d) ∷ es) =
        let rest = before es in if past_end lmdb flags end_key k d then [] else (k, d) ∷ rest

    rc-found : (g : Got S) → g.rc ≡ 0 → (g.rc == 0) ≡ true
    rc-found g rc = ap (λ n. n == 0) rc

    rc-none : (g : Got S) → g.rc ≡ not_found → (g.rc == 0) ≡ false
    rc-none g rc = ap (λ n. n == 0) rc

    skip_offset-stays :
        (op : Op) (n : ℕ) (g : Got S)
        → (g.rc == 0) ≡ false
        → skip_offset lmdb flags end_key op (suc n) g ≡ g
    skip_offset-stays op n g none_left = rw none_left refl

    skip_offset-moves :
        (op : Op) (n : ℕ) (g : Got S)
        → (g.rc == 0) ≡ true
        → skip_offset lmdb flags end_key op (suc n) g
          ≡ skip_offset lmdb flags end_key op n (lmdb.get op g.key g.data' g.cursor)
    skip_offset-moves op n g there = rw there refl

    pub skip_offset-Along :
        (op : Op) (n : ℕ) (es : List (Val × Val)) (g : Got S)
        → Along op es g
        → Along op (drop n es) (skip_offset lmdb flags end_key op n g)
    unfolding Along
    skip_offset-Along op zero es g along = along
    skip_offset-Along op (suc n) [] g along =
        subst (Along op []) (sym (skip_offset-stays op n g (rc-none g along))) along
    skip_offset-Along op (suc n) ((k, d) ∷ es) g (rc, key, data', rest) =
        subst (Along op (drop n es)) (sym (skip_offset-moves op n g (rc-found g rc)))
          (skip_offset-Along op n es (lmdb.get op g.key g.data' g.cursor) rest)

    abbrev pub loop : Op → ℕ → ℕ → Got S → Option ℕ
    loop op fuel n g = count_loop lmdb flags end_key op false fuel n g

    loop-end : (op : Op) (fuel n : ℕ) (g : Got S) → (g.rc == 0) ≡ false → loop op fuel n g ≡ some n
    unfolding count_loop
    loop-end op zero n g none_left = rw none_left refl
    loop-end op (suc fuel) n g none_left = rw none_left refl

    loop-past :
        (op : Op) (fuel n : ℕ) (g : Got S)
        → (g.rc == 0) ≡ true
        → past_end lmdb flags end_key g.key g.data' ≡ true
        → loop op (suc fuel) n g ≡ some n
    unfolding count_loop
    loop-past op fuel n g there past = rw (there, past) refl

    loop-next :
        (op : Op) (fuel n : ℕ) (g : Got S)
        → (g.rc == 0) ≡ true
        → past_end lmdb flags end_key g.key g.data' ≡ false
        → loop op (suc fuel) n g ≡ loop op fuel (u32 (n + 1)) (lmdb.get op g.key g.data' g.cursor)
    unfolding count_loop
    loop-next op fuel n g there inside = rw (there, inside) refl

    past_end-same :
        (g : Got S) (k d : Val)
        → g.key ≡ k
        → g.data' ≡ d
        → past_end lmdb flags end_key g.key g.data' ≡ past_end lmdb flags end_key k d
    past_end-same g k d key data' =
        ap (λ k. past_end lmdb flags end_key k g.data') key
        ∙ ap (λ d. past_end lmdb flags end_key k d) data'

    pub count_loop-before :
        (op : Op) (fuel : ℕ) (es : List (Val × Val)) (n : ℕ) (g : Got S)
        → Along op es g
        → length es ≤ fuel
        → n + length es < 2 ^ 32
        → loop op fuel n g ≡ some (n + length (before es))
    unfolding Along
    count_loop-before op fuel [] n g along enough small =
        loop-end op fuel n g (rc-none g along) ∙ ap some (omega arith)
    count_loop-before op zero ((k, d) ∷ es) n g along enough small = absurd (omega arith)
    count_loop-before op (suc fuel) ((k, d) ∷ es) n g (rc, key, data', rest) enough small =
        let same = past_end-same g k d key data' in
        let there = rc-found g rc in
        elim (Bool-cases (past_end lmdb flags end_key k d)) [
          | inl past ↦ rw past (loop-past op fuel n g there (same ∙ past) ∙ ap some (omega arith))
          | inr inside ↦
              let counts =
                count_loop-before op fuel es (u32 (n + 1)) (lmdb.get op g.key g.data' g.cursor) rest
                  (omega (arith, enough)) (omega (arith, small)) in
              rw inside (
                loop-next op fuel n g there (same ∙ inside)
                ∙ counts
                ∙ ap some (omega (arith, small)))
        ]

    -- the first of the entries
    abbrev pub first_of : List (Val × Val) → Returned
    first_of [] = ended
    first_of ((k, d) ∷ es) = entry k d

    return_entry-past :
        (g : Got S)
        → (g.rc == 0) ≡ true
        → past_end lmdb flags end_key g.key g.data' ≡ true
        → return_entry lmdb flags end_key g ≡ ended
    unfolding return_entry
    return_entry-past g there past = rw (there, past) refl

    return_entry-inside :
        (g : Got S)
        → (g.rc == 0) ≡ true
        → past_end lmdb flags end_key g.key g.data' ≡ false
        → return_entry lmdb flags end_key g ≡ entry g.key g.data'
    unfolding return_entry
    return_entry-inside g there inside = rw (there, inside) refl

    pub return_entry-first :
        (op : Op) (es : List (Val × Val)) (g : Got S)
        → Along op es g
        → return_entry lmdb flags end_key g ≡ first_of (before es)
    unfolding return_entry Along
    return_entry-first op [] g along = simp (return_entry, along)
    return_entry-first op ((k, d) ∷ es) g (rc, key, data', rest) =
        let same = past_end-same g k d key data' in
        let there = rc-found g rc in
        elim (Bool-cases (past_end lmdb flags end_key k d)) [
          | inl past ↦ rw past (return_entry-past g there (same ∙ past))
          | inr inside ↦ rw inside (
              return_entry-inside g there (same ∙ inside)
              ∙ ap (λ k. entry k g.data') key
              ∙ ap (λ d. entry k d) data')
        ]
