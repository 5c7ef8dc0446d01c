-- ===== src/Cursor/Position.antt =====
-- `CursorWrap::doPosition` of src/cursor.cpp.
use lmdb_js.Prelude.{
  ℕ, Bool, true, false, not, ◌&&◌, ◌||◌, Option, none, some, [], ◌==◌, if◌then◌else◌, ◌>>=◌,
}
use lmdb_js.Cursor.{
  Val, Op, first_entry, last_entry, prev_entry, prev_dup, last_dup, set_key, set_range, get_both,
  get_both_range, Got, Lmdb, not_found, has, is_reverse, values_only, counts_only, is_exact,
  is_empty, iterating_op, is_eq, Returned, return_entry, skip_offset, uses_count, counting_op,
  count_loop,
}

-- what `doPosition` is called with: the key of the buffer, the value that it points to, and the end
-- key, if there is one
pub record Request : Type 0 where
  pub flags : ℕ
  pub offset : ℕ
  pub key : Val
  pub start_value : Val
  pub end_key : Option Val

-- where `doPosition` begins: at a number that it returns, or at an entry
pub data Located {ℓ} (S : Type ℓ) : Type ℓ where
  answer : ℕ → Located S
  found : Got S → Located S

-- a number of entries, or the entry with the cursor
pub data Position {ℓ} (S : Type ℓ) : Type ℓ where
  counted : ℕ → Position S
  positioned : Returned → Op → S → Position S

abbrev pub end_of : Request → Val
end_of r = elim (r.end_key) [ none ↦ [] | some k ↦ k ]

abbrev pub is_bounded : Request → Bool
is_bounded r = elim (r.end_key) [ none ↦ false | some k ↦ true ]

module _ {ℓ} {S : Type ℓ} (lmdb : Lmdb S) where
  -- backward through the values of a key
  unfoldable pub values_back : Val → Val → S → Got S
  values_back key start s =
      let g = lmdb.get (if is_empty start then set_key else get_both_range) key start s in
      let again = lmdb.get set_key g.key g.data' g.cursor in
      if g.rc == 0
      then (if is_empty start
          then lmdb.get last_dup g.key g.data' g.cursor
          else (if is_eq (lmdb.dcmp start g.data')
              then g
              else lmdb.get prev_dup g.key g.data' g.cursor))
      else (if is_empty start
          then g
          else (if again.rc == 0
              then lmdb.get last_dup again.key again.data' again.cursor
              else again))

  -- the values of a key only
  unfoldable pub locate_value : Request → S → Located S
  locate_value r s =
      let start : Val = if is_bounded r then r.start_value else [] in
      let g =
        if is_reverse r.flags
        then values_back r.key start s
        else lmdb.get
            (if is_empty start
              then set_key
              else (if is_exact r.flags then get_both else get_both_range))
            r.key start s in
      if g.rc == not_found
      then answer 0
      else (if counts_only r.flags && (not (is_bounded r) || is_exact r.flags)
          then answer (lmdb.count g.cursor)
          else found g)

  -- from a key on; `junk` is what the data has before
  unfoldable pub locate_key : Val → Request → S → Got S
  locate_key junk r s =
      let g = lmdb.get set_range r.key junk s in
      if is_reverse r.flags
      then (if g.rc == 0
          then (if is_eq (lmdb.cmp r.key g.key)
              then g
              else lmdb.get prev_entry g.key g.data' g.cursor)
          else lmdb.get last_entry g.key g.data' g.cursor)
      else lmdb.get (if is_exact r.flags then set_key else set_range) r.key junk s

  unfoldable pub locate : Val → Request → S → Located S
  locate junk r s =
      if is_empty r.key
      then found (lmdb.get (if is_reverse r.flags then last_entry else first_entry) [] junk s)
      else (if values_only r.flags then locate_value r s else found (locate_key junk r s))

  -- what follows when the cursor stands at its first entry; `fuel` is for the count
  unfoldable pub walk : ℕ → Request → Got S → Option (Position S)
  walk fuel r start =
      let op = iterating_op r.flags in
      let g = skip_offset lmdb r.flags (end_of r) op r.offset start in
      if counts_only r.flags
      then (count_loop lmdb r.flags (end_of r) (counting_op lmdb r.flags (end_of r) op)
            (uses_count lmdb r.flags (end_of r) op) fuel 0 g
          >>= λ n. some (counted n))
      else some (positioned (return_entry lmdb r.flags (end_of r) g) op g.cursor)

  -- `CursorWrap::doPosition`
  unfoldable pub do_position : ℕ → Val → Request → S → Option (Position S)
  do_position fuel junk r s =
      let s' = if has r.flags 0x2000 then lmdb.renew s else s in
      elim (locate junk r s') [ answer n ↦ some (counted n) | found g ↦ walk fuel r g ]
