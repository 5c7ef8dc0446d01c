-- ===== src/Cursor.antt =====
-- Cursors of src/cursor.cpp: `doPosition`, `returnEntry`, `iterate` and `getCurrentValue`.
pub mod Position
pub mod Walk
pub mod Ranges
use Prim.Native.Nat.{bit_and, bit_or}
use lmdb_js.Prelude.{
  ℕ, zero, suc, ◌+◌, ◌-◌, ◌^◌, Ordering, Bool, true, false, not, ◌&&◌, ◌||◌, Option, none, some,
  List, [], ◌∷◌, ◌==◌, if◌then◌else◌, u32, length,
}

-- `MDB_val`, by its bytes
abbrev pub Val : Type 0
Val = List ℕ

-- the operations of `mdb_cursor_get` that the code uses
pub data Op : Type 0 where
  first_entry : Op
  last_entry : Op
  next_entry : Op
  next_dup : Op
  next_nodup : Op
  prev_entry : Op
  prev_dup : Op
  prev_nodup : Op
  last_dup : Op
  set_key : Op
  set_range : Op
  get_both : Op
  get_both_range : Op
  get_current : Op

-- what `mdb_cursor_get` leaves: its code, the key and the data, and the cursor
pub record Got {ℓ} (S : Type ℓ) : Type ℓ where
  pub rc : ℕ
  pub key : Val
  pub data' : Val
  pub cursor : S

-- LMDB's cursor of a database, its comparisons, and `mdb_cursor_count`
pub record Lmdb {ℓ} (S : Type ℓ) : Type ℓ where
  pub get : Op → Val → Val → S → Got S
  pub cmp : Val → Val → Ordering
  pub dcmp : Val → Val → Ordering
  pub count : S → ℕ
  pub renew : S → S
  pub is_dupsort : Bool

-- `MDB_NOTFOUND`, -30798 as an unsigned number
abbrev pub not_found : ℕ
not_found = 4294936498

abbrev pub has : ℕ → ℕ → Bool
has flags bit = not (bit_and flags bit == 0)

abbrev pub has_values : ℕ → Bool
has_values flags = has flags 0x100

abbrev pub is_reverse : ℕ → Bool
is_reverse flags = has flags 0x400

abbrev pub values_only : ℕ → Bool
values_only flags = has flags 0x800

abbrev pub counts_only : ℕ → Bool
counts_only flags = has flags 0x1000

abbrev pub is_exact : ℕ → Bool
is_exact flags = has flags 0x4000

abbrev pub is_empty : Val → Bool
is_empty v = length v == 0

-- `iteratingOp`
abbrev pub iterating_op : ℕ → Op
iterating_op flags =
    if is_reverse flags
    then (if has_values flags
        then (if values_only flags then prev_dup else prev_entry)
        else prev_nodup)
    else (if has_values flags
        then (if values_only flags then next_dup else next_entry)
        else next_nodup)

-- `comparison >= 0` in reverse, else `comparison <= 0`
abbrev pub reaches : Bool → Ordering → Bool
reaches reverse Ordering.eq = true
reaches reverse Ordering.gt = reverse
reaches reverse Ordering.lt = not reverse

-- What `returnEntry` returns: 0, a code with a mark, or the size of the key, with the key and the
-- data that it hands over.
pub data Returned : Type 0 where
  ended : Returned
  failure : ℕ → Returned
  entry : Val → Val → Returned

abbrev pub is_eq : Ordering → Bool
is_eq Ordering.eq = true
is_eq _ = false

module _ {ℓ} {S : Type ℓ} (lmdb : Lmdb S) (flags : ℕ) (end_key : Val) where
  -- whether the entry is at the end of the range or behind it
  abbrev pub past_end : Val → Val → Bool
  past_end key data' =
      not (is_empty end_key)
      && reaches (is_reverse flags)
          (if values_only flags then lmdb.dcmp end_key data' else lmdb.cmp end_key key)

  -- `CursorWrap::returnEntry`
  unfoldable pub return_entry : Got S → Returned
  return_entry g =
      if g.rc == 0
      then (if past_end g.key g.data' then ended else entry g.key g.data')
      else (if g.rc == not_found then ended else failure (bit_or g.rc 0x10000000))

  -- the loop over `offset`
  abbrev pub skip_offset : Op → ℕ → Got S → Got S
  skip_offset op zero g = g
  skip_offset op (suc offset) g =
      if g.rc == 0 then skip_offset op offset (lmdb.get op g.key g.data' g.cursor) else g

  -- `useCursorCount`, and the operation then
  abbrev pub uses_count : Op → Bool
  uses_count prev_entry = lmdb.is_dupsort
  uses_count next_entry = lmdb.is_dupsort
  uses_count _ = false

  abbrev pub counting_op : Op → Op
  counting_op prev_entry = if lmdb.is_dupsort then prev_nodup else prev_entry
  counting_op next_entry = if lmdb.is_dupsort then next_nodup else next_entry
  counting_op op = op

  -- The loop that counts, on fuel: one for each entry.
  unfoldable pub count_loop : Op → Bool → ℕ → ℕ → Got S → Option ℕ
  count_loop op by_key zero n g = if g.rc == 0 then none else some n
  count_loop op by_key (suc fuel) n g =
      let n' = u32 (n + (if by_key then lmdb.count g.cursor else 1)) in
      let rest = count_loop op by_key fuel n' (lmdb.get op g.key g.data' g.cursor) in
      if g.rc == 0 then (if past_end g.key g.data' then some n else rest) else some n

  -- `CursorWrap::iterate`; the variables are not initialised
  abbrev pub iterate : Op → Val → Val → S → Returned × S
  iterate op key data' s = let g = lmdb.get op key data' s in (return_entry g, g.cursor)

  -- `CursorWrap::getCurrentValue`
  abbrev pub get_current_value : Val → Val → S → Returned
  get_current_value key data' s = return_entry (lmdb.get get_current key data' s)
