-- ===== src/Midl/Id2l/Insert.antt =====
-- `mdb_mid2l_insert` and `mdb_mid3l_insert` of midl.c keep a list sorted.
use native.Mathlib.Numerals.{add-one}
use lmdb_js.Prelude.{
  ℕ, suc, ◌+◌, ◌^◌, ◌≤◌, ◌<◌, ◌≡◌, inl, inr, refl, ap, sym, ◌∙◌, Bool, true, false, compare,
  Ordering, Option, none, some, List, arith, ltb, ◌>>=◌, u32, u64, Bool-cases, Block, load, update,
  store-some, down,
}
use lmdb_js.Midl.BinarySearch.{search-Finds, IsOrdered, Finds}
use lmdb_js.Midl.Id2l.{
  Code, done, duplicate, refused, count, search_mid, move_up, insert_at, is_there, insert,
}
use lmdb_js.Midl.Id2l.Shift.{
  move_up-Moved, insert_sorted, down-insert_sorted, IsAscending, inserted-IsAscending,
}

module _ {A : Type 0} (mid : A → ℕ) (set_mid : A → ℕ → A) where
  abbrev pub entries : Block A → List A
  entries l = down l.cell (count mid set_mid l)

  -- What an insertion of `e` may come to. It does not fault. With code 0 the list is sorted, has
  -- one entry more, and reads as the old one with `e` inserted. With the other codes it is as it
  -- was: the ID is there already, or the list is at its limit.
  abbrev pub Inserts : (ℕ → Bool) → Block A → A → Option (Code × Block A) → Type 0
  Inserts limit l e none = ⊥
  Inserts limit l e (some (done, r)) =
      (count mid set_mid r ≡ count mid set_mid l + 1)
      × (r.cap ≡ l.cap)
      × IsAscending mid set_mid r.cell (count mid set_mid r)
      × (entries r ≡ insert_sorted mid set_mid e (entries l))
      × (limit (count mid set_mid l) ≡ false)
  Inserts limit l e (some (duplicate, r)) =
      (r ≡ l) × ((x : ℕ) × (1 ≤ x) × (x ≤ count mid set_mid l) × (mid (l.cell x) ≡ mid e))
  Inserts limit l e (some (refused, r)) = (r ≡ l) × (limit (count mid set_mid l) ≡ true)

  module _ (set_lem : (e : A) (n : ℕ) → mid (set_mid e n) ≡ n) (l : Block A) (e : A)
      (inside : count mid set_mid l ≤ l.cap) (small : count mid set_mid l + 1 < 2 ^ 32)
      (asc : IsAscending mid set_mid l.cell (count mid set_mid l)) where
    abbrev n : ℕ
    n = count mid set_mid l

    abbrev at : ℕ → Option Ordering
    at i = load l i >>= λ d. some (compare (mid e) (mid d))

    at-compare : (i : ℕ) → i ≤ n → at i ≡ some (compare (mid e) (mid (l.cell i)))
    at-compare i h = ground arith

    at-IsOrdered : IsOrdered at n
    at-IsOrdered = record {
      small = small;
      inside = λ i p q. (compare (mid e) (mid (l.cell i)), at-compare i q);
      down = λ i j p q r h. ground (arith, asc i j p q r);
      up = λ i j p q r h. ground (arith, asc i j p q r);
    }

    abbrev bumped : Block A
    bumped = record { cap = l.cap; cell = update l.cell 0 (set_mid (l.cell 0) (suc n)) }

    insert_at-run :
        (x : ℕ) (m : Block A)
        → move_up mid set_mid x (suc n) bumped ≡ some m
        → x ≤ m.cap
        → insert_at mid set_mid x l e ≡ some (record { cap = m.cap; cell = update m.cell x e })
    unfolding insert_at
    insert_at-run x m run fits =
        let index : u64 (n + 1) ≡ suc n = omega (arith, add-one n) in
        let index32 : u32 (suc n) ≡ suc n = omega arith in
        rw
          (
            index,
            store-some l 0 (set_mid (l.cell 0) (suc n)) (omega arith),
            ◌>>=◌,
            set_lem (l.cell 0) (suc n),
            index32,
            run,
          )
          (store-some m x e fits)

    -- with the smaller IDs in front of `x` and the greater ones from there on
    insert_at-lem :
        (x : ℕ)
        → n < l.cap
        → 1 ≤ x
        → x ≤ suc n
        → ((i : ℕ) → 1 ≤ i → i < x → at i ≡ some Ordering.gt)
        → ((i : ℕ) → x ≤ i → i ≤ n → at i ≡ some Ordering.lt)
        → (r : Block A) × (insert_at mid set_mid x l e ≡ some r)
          × (r.cap ≡ l.cap)
          × (count mid set_mid r ≡ suc n)
          × IsAscending mid set_mid r.cell (count mid set_mid r)
          × (entries r ≡ insert_sorted mid set_mid e (entries l))
    insert_at-lem x room p q before behind =
        let less : (j : ℕ) → 1 ≤ j → j < x → mid (l.cell j) < mid e =
          λ j a b. ground (arith, before j a b) in
        let more : (j : ℕ) → x ≤ j → j ≤ n → mid e < mid (l.cell j) =
          λ j a b. ground (arith, behind j a b) in
        let (m, run, moved) = move_up-Moved mid set_mid x (suc n) bumped room in
        let g = update m.cell x e in
        let here : g x ≡ e = ground arith in
        let low : (j : ℕ) → 1 ≤ j → j < x → g j ≡ l.cell j = λ j a b. ground (arith, moved.low j) in
        let up : (j : ℕ) → x ≤ j → j ≤ n → g (suc j) ≡ l.cell j =
          λ j a b. ground (arith, moved.up j) in
        let head : g 0 ≡ set_mid (l.cell 0) (suc n) = ground (arith, moved.low 0) in
        let total : mid (g 0) ≡ suc n = ap mid head ∙ set_lem (l.cell 0) (suc n) in
        (
          record { cap = m.cap; cell = g },
          insert_at-run x m run (omega (arith, moved.cap)),
          moved.cap,
          total,
          rw total (inserted-IsAscending mid set_mid l.cell g e x n p q here low up asc less more),
          ap (down g) total
              ∙ down-insert_sorted mid set_mid l.cell g e x n p q here low up less more,
        )

    search_mid-lem : (x : ℕ) × (search_mid mid set_mid l (mid e) ≡ some x) × Finds at n x
    unfolding search_mid
    search_mid-lem = search-Finds at n at-IsOrdered

    module _ (limit : ℕ → Bool) (x : ℕ) (run : search_mid mid set_mid l (mid e) ≡ some x)
        (p : 1 ≤ x) where
      there-Inserts :
          x ≤ n → mid (l.cell x) ≡ mid e → Inserts limit l e (insert mid set_mid limit l e)
      unfolding insert
      there-Inserts q same =
          let found : is_there mid set_mid l x (mid e) ≡ true = ground arith in
          let positive : ltb x 1 ≡ false = ground arith in
          rw (run, positive, found) (refl, (x, p, q, same))

      absent-Inserts :
          (limit n ≡ false → n < l.cap)
          → x ≤ suc n
          → ((i : ℕ) → 1 ≤ i → i < x → at i ≡ some Ordering.gt)
          → ((i : ℕ) → x ≤ i → i ≤ n → at i ≡ some Ordering.lt)
          → Inserts limit l e (insert mid set_mid limit l e)
      unfolding insert
      absent-Inserts room q before behind =
          let absent : is_there mid set_mid l x (mid e) ≡ false = ground (arith, behind x) in
          let positive : ltb x 1 ≡ false = ground arith in
          elim (Bool-cases (limit n)) [
            | inl full ↦ rw (run, positive, absent, full) (refl, full)
            | inr free ↦
                let (r, ends, cap, total, sorted, listed) =
                  insert_at-lem x (room free) p q before behind in
                rw (run, positive, absent, free, ends)
                  (total ∙ sym (add-one n), cap, sorted, listed, free)
          ]

    -- An insertion into a list with ascending IDs, whose count is below 2 ^ 32 - 1 and which
    -- has room for one more entry unless it is at its limit, does not fault. With code 0 the
    -- list is still ascending, has one entry more and reads as the old list with the entry
    -- inserted. With the other codes it is as it was, and the ID is there already or the list
    -- is at its limit.
    pub insert-Inserts :
        (limit : ℕ → Bool)
        → (limit n ≡ false → n < l.cap)
        → Inserts limit l e (insert mid set_mid limit l e)
    insert-Inserts limit room =
        let (x, run, finds) = search_mid-lem in
        elim finds [
          | inl (p, q, same) ↦ there-Inserts limit x run p q (ground arith)
          | inr (p, q, before, behind) ↦
              absent-Inserts limit x run p room (omega (arith, add-one n)) before behind
        ]
