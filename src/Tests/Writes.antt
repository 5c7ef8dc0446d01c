-- ===== src/Tests/Writes.antt =====
-- The loop of src/writer.cpp on concrete instructions, over a database that maps the first byte of a
-- key to a record, with nothing under it where the record is empty.
use lmdb_js.Prelude.{
  ℕ, ◌≡◌, refl, true, false, ◌&&◌, List, [], ◌∷◌, arith, ◌==◌, length, if◌then◌else◌, update,
}
use lmdb_js.Writer.Instr.{parse_flags, no_version, Instr}
use lmdb_js.Writer.Host.{Rc, success, not_found, Host, World, Others}
use lmdb_js.Writer.Kinds.{put_value, del_key, kind_of}
use lmdb_js.Writer.Checks.{check_version, check_absent, validate, operate}
use lmdb_js.Writer.Exec.{mark}
use lmdb_js.Writer.Blocks.{
  Cmds, single, block, nil, cons, flatten, flatten_all, IsWellFormed, make_change, carry_out_all,
}
use lmdb_js.Writer.Blocks.Depths.{Plays, play-carry_out_all}
use lmdb_js.Writer.Blocks.Failed.{IsConditional, play-failed_block}
use lmdb_js.Writer.IfVersion.{has_version, found, put-if_version}
use lmdb_js.Tests.Data.{cells}

abbrev Records : Type 0
Records = ℕ → List ℕ

abbrev first : List ℕ → ℕ
first bs = cells bs 0

abbrev get_record : Records → ℕ → List ℕ → Rc × List ℕ
get_record t dbi key =
    if length (t (first key)) == 0 then (not_found, []) else (success, t (first key))

abbrev put_record : Records → ℕ → List ℕ → List ℕ → ℕ → Rc × Records
put_record t dbi key value flags = (success, update t (first key) value)

abbrev delete_record : Records → ℕ → List ℕ → Rc × Records
delete_record t dbi key =
    if length (t (first key)) == 0 then (not_found, t) else (success, update t (first key) [])

-- a record begins with the low word of its version, if that is below 256
abbrev table : Host
table = record {
  Txn = Records;
  get = get_record;
  put = put_record;
  reserve = λ t dbi key size flags. (success, t, λ bs. update t (first key) bs);
  del = delete_record;
  del_value = λ t dbi key value. delete_record t dbi key;
  drop = λ t dbi all. (success, λ i. []);
  buffer = λ by_double p size. [];
  to_address = λ d. d.low;
  is_any_version = λ d. false;
  is_version = λ d bs. first bs == d.low;
}

abbrev alone : Others Records
alone = record { interfere = λ w. w; wait = λ at_top w. w }

-- an instruction of three words, with key 7
abbrev instruction : ℕ → List ℕ → ℕ → ℕ → Instr
instruction flags value if_version next = record {
  flags = parse_flags flags;
  dbi = 1;
  key = 7 ∷ [];
  value = value;
  if_version = record { low = if_version; high = 0 };
  version = no_version;
  next = next;
}

-- `START_CONDITION_BLOCK`, `CONDITIONAL_VERSION`
abbrev opens : ℕ → Instr
opens version = instruction 0x104 [] version 3

-- `PUT`, which contains the bit `CONDITIONAL`
abbrev puts : Instr
puts = instruction 0xf [] 0 6

-- `DEL`
abbrev deletes : Instr
deletes = instruction 13 [] 0 9

-- `BLOCK_END`
abbrev closes : Instr
closes = instruction 2 [] 0 11

-- `PUT`, `CONDITIONAL_VERSION`
abbrev replaces : Instr
replaces = instruction 0x10f (5 ∷ 99 ∷ []) 5 6

-- record 5, 50 under key 7
abbrev start_world : World Records
start_world = record {
  mem = λ i. 0;
  txn = λ i. if i == 7 then 5 ∷ 50 ∷ [] else [];
  finished = false;
}

abbrev nested : Cmds
nested =
    cons
      (block 0 (opens 5) (cons (single 3 puts put_value) (cons (single 6 deletes del_key) nil)) 9
        closes)
      nil

play-carry_out_all_example :
    Plays table alone 0
      (flatten_all nested [])
      []
      start_world
      (carry_out_all table true nested start_world)
      0
      0
      0
unfolding flatten_all IsWellFormed parse_flags kind_of
play-carry_out_all_example =
    play-carry_out_all table alone 0 nested [] start_world 0 0 0
      (((refl, refl), refl, ((refl, refl), ((refl, refl), tt)), (refl, refl), refl), tt)
      (omega arith)

abbrev guarded : Cmds
guarded = cons (single 3 puts put_value) nil

play-failed_block_example :
    (w' : World Records) × Plays table alone 0
      (flatten (block 0 (opens 6) guarded 9 closes) [])
      []
      start_world
      w'
      0
      0
      0
    × (w'.txn ≡ start_world.txn)
unfolding flatten IsWellFormed IsConditional parse_flags kind_of validate check_version check_absent
play-failed_block_example =
    play-failed_block table alone 0 0 (opens 6) guarded 9 closes [] start_world 0 0 0
      ((refl, refl), refl, ((refl, refl), tt), (refl, refl), refl) (refl, tt) (omega arith) refl

put-if_version_example : (make_change table true 3 replaces put_value start_world).txn ≡ (
    if true && has_version table start_world.txn replaces
    then (put_record start_world.txn 1 (7 ∷ []) (found table start_world.txn replaces) 0).1
    else start_world.txn)
unfolding parse_flags
put-if_version_example = put-if_version table true 3 replaces start_world refl refl refl refl refl

-- the record keeps the old value 5, 50, where 5, 99 was to be put
put_keeps_old : (make_change table true 3 replaces put_value start_world).txn 7 ≡ 5 ∷ 50 ∷ []
unfolding make_change validate check_version check_absent parse_flags mark operate
put_keeps_old = refl
