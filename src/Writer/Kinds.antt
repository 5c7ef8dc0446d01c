-- ===== src/Writer/Kinds.antt =====
-- The kinds of instructions of src/writer.cpp, the bits of a flag word that the writer sets, and the
-- return codes it tells apart.
use lmdb_js.Prelude.{ℕ, Bool, true, false, ◌||◌, ◌==◌, if◌then◌else◌}
use lmdb_js.Writer.Host.{Rc, success, key_exists, not_found, other}

-- the operations that change the database
pub data Change : Type 0 where
  drop_db : Change
  del_key : Change
  del_key_value : Change
  put_value : Change

-- the cases of the `switch`
pub data Kind : Type 0 where
  no_instruction_yet : Kind
  start_of_block : Kind
  end_of_block : Kind
  pointer_next : Kind
  user_callback : Kind
  change : Change → Kind
  unknown_kind : Kind

-- `flags & 0xf`
unfoldable pub kind_of : ℕ → Kind
kind_of op =
    if op == 0
    then no_instruction_yet
    else if op == 2
    then end_of_block
    else if op == 15
    then change put_value
    else if op == 13
    then change del_key
    else if op == 14
    then change del_key_value
    else if op == 1 || op == 4
    then start_of_block
    else if op == 8
    then user_callback
    else if op == 12
    then change drop_db
    else if op == 3
    then pointer_next
    else unknown_kind

-- the bits that the writer sets in a flag word
abbrev pub waiting_operation : ℕ
waiting_operation = 0x2000000

abbrev pub txn_delimiter : ℕ
txn_delimiter = 0x8000000

abbrev pub finished_operation : ℕ
finished_operation = 0x1000000

abbrev pub failed_condition : ℕ
failed_condition = 0x4000000

abbrev pub mdb_reserve : ℕ
mdb_reserve = 0x10000

-- `MDB_NOTFOUND` and `MDB_KEYEXIST` fail a condition and are no errors
abbrev pub is_error : Rc → Bool
is_error success = false
is_error key_exists = false
is_error not_found = false
is_error (other n) = true

abbrev pub is_not_found : Rc → Bool
is_not_found not_found = true
is_not_found _ = false

abbrev pub is_success : Rc → Bool
is_success success = true
is_success _ = false
