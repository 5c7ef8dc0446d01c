-- ===== src/Tests/Cursors.antt =====
-- Cursors of src/cursor.cpp on concrete entries.
use lmdb_js.Prelude.{◌≡◌, refl, true, false, some, List, [], ◌∷◌, Ordering, compare, arith, length}
use lmdb_js.Cursor.{
  Val, next_entry, next_nodup, Got, Lmdb, not_found, iterating_op, count_loop, return_entry, entry,
}
use lmdb_js.Cursor.Position.{Request, found, counted, positioned, locate, walk, do_position}
use lmdb_js.Cursor.Walk.{Along, first_of}
use lmdb_js.Cursor.Ranges.{in_range, do_position-in_range, do_position-first_of}

-- the entries from the cursor's place on
abbrev Rest : Type 0
Rest = List (Val × Val)

abbrev at : Rest → Got Rest
at [] = record { rc = not_found; key = []; data' = []; cursor = [] }
at ((k, d) ∷ es) = record { rc = 0; key = k; data' = d; cursor = (k, d) ∷ es }

abbrev rest : Rest → Rest
rest [] = []
rest (e ∷ es) = es

-- entries that have the key of the first one are passed over
abbrev order : Val → Val → Ordering
order [] [] = Ordering.eq
order [] (b ∷ bs) = Ordering.lt
order (a ∷ xs) [] = Ordering.gt
order (a ∷ xs) (b ∷ ys) = elim (compare a b) [
  | Ordering.lt ↦ Ordering.lt
  | Ordering.eq ↦ order xs ys
  | Ordering.gt ↦ Ordering.gt
]

abbrev plain_lmdb : Lmdb Rest
plain_lmdb = record {
  get = λ op key data' es. elim op [ next_entry ↦ at (rest es) | _ ↦ at es ];
  cmp = order;
  dcmp = order;
  count = λ es. 1;
  renew = λ es. es;
  is_dupsort = false;
}

abbrev four : Rest
four = (1 ∷ [], 10 ∷ []) ∷ (2 ∷ [], 20 ∷ []) ∷ (3 ∷ [], 30 ∷ []) ∷ (5 ∷ [], 50 ∷ []) ∷ []

-- behind the first entry and before the key 5
abbrev counting : Request
counting = record {
  flags = 0x1100;
  offset = 1;
  key = [];
  start_value = [];
  end_key = some (5 ∷ []);
}

abbrev reading : Request
reading = record counting { flags = 0x100 }

four-Along : Along plain_lmdb next_entry four (at four)
unfolding Along
four-Along = (refl, refl, refl, (refl, refl, refl, (refl, refl, refl, (refl, refl, refl, refl))))

locate-counting : locate plain_lmdb [] counting four ≡ found (at four)
unfolding locate
locate-counting = refl

locate-reading : locate plain_lmdb [] reading four ≡ found (at four)
unfolding locate
locate-reading = refl

do_position-in_range_example :
    do_position plain_lmdb 4 [] counting four
    ≡ some (counted (length (in_range plain_lmdb counting four)))
do_position-in_range_example =
    do_position-in_range plain_lmdb 4 [] counting four four (at four) refl refl locate-counting
      four-Along (omega arith) (omega arith)

do_position-first_of_example :
    (c : Rest) × (do_position plain_lmdb 0 [] reading four
      ≡ some (
          positioned
            (first_of plain_lmdb 0x100 (5 ∷ []) (in_range plain_lmdb reading four))
            (iterating_op 0x100)
            c))
do_position-first_of_example =
    do_position-first_of plain_lmdb 0 [] reading four four (at four) refl locate-reading four-Along

two_counted : do_position plain_lmdb 4 [] counting four ≡ some (counted 2)
unfolding do_position locate walk count_loop
two_counted = refl

second_read :
    do_position plain_lmdb 0 [] reading four
    ≡ some (positioned (entry (2 ∷ []) (20 ∷ [])) next_entry (rest four))
unfolding do_position locate walk return_entry
second_read = refl

-- one key with three values; the first is passed over, and all of them are counted
abbrev three_values : Lmdb Rest
three_values = record plain_lmdb {
  get = λ op key data' es. elim op [ next_entry ↦ at (rest es) | next_nodup ↦ at [] | _ ↦ at es ];
  count = λ es. 3;
  is_dupsort = true;
}

abbrev values : Rest
values = (1 ∷ [], 10 ∷ []) ∷ (1 ∷ [], 11 ∷ []) ∷ (1 ∷ [], 12 ∷ []) ∷ []

all_counted : do_position three_values 4 [] counting values ≡ some (counted 3)
unfolding do_position locate walk count_loop
all_counted = refl
