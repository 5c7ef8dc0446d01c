-- ===== src/Writer/Checks.antt =====
-- The tests of an instruction in `DoWrites` of src/writer.cpp, and its calls of LMDB that change the
-- database.
use Prim.Native.Nat.{bit_or}
use lmdb_js.Prelude.{ℕ, ◌+◌, Bool, false, ◌&&◌, ◌||◌, List, ◌++◌, if◌then◌else◌, length}
use lmdb_js.Writer.Instr.{Instr, Double, word_bytes}
use lmdb_js.Writer.Host.{Rc, success, Host}
use lmdb_js.Writer.Kinds.{
  Change, drop_db, del_key, del_key_value, put_value, mdb_reserve, is_not_found, is_success,
}

-- what the tests of an instruction find: whether it is validated, the value that it then works with,
-- and the last return code
pub record Checked : Type 0 where
  pub valid : Bool
  pub value : List ℕ
  pub rc : Rc

module _ (host : Host) where
  abbrev pub version_bytes : Double → List ℕ
  version_bytes v = word_bytes v.low ++ word_bytes v.high

  -- `putWithVersion` of misc.cpp: the space is reserved, and filled if that succeeded
  unfoldable pub put_with_version : host.Txn → ℕ → List ℕ → List ℕ → ℕ → Double → Rc × host.Txn
  put_with_version txn dbi key value flags version =
      let (rc, txn', fill) =
        host.reserve txn dbi key (length value + 8) (bit_or flags mdb_reserve) in
      if is_success rc then (rc, fill (version_bytes version ++ value)) else (rc, txn')

  -- The test of the version. The record that `mdb_get` finds is left in `value`.
  unfoldable pub check_version : host.Txn → Instr → Checked → Checked
  check_version txn i c =
      if i.flags.conditional_version
      then (let (rc, found) = host.get txn i.dbi i.key in
          if is_success rc
          then record {
            valid =
                c.valid && (host.is_any_version i.if_version || host.is_version i.if_version found);
            value = found;
            rc = rc;
          }
          else record c { valid = false; rc = rc })
      else c

  -- the test that the key is not there; `START_CONDITION_BLOCK` is the bit `HAS_KEY`
  unfoldable pub check_absent : host.Txn → Instr → Checked → Checked
  check_absent txn i c =
      if i.flags.if_no_exists && i.flags.has_key
      then (let (rc, found) = host.get txn i.dbi i.key in
          record {
            valid = c.valid && is_not_found rc;
            value = if is_success rc then found else c.value;
            rc = rc;
          })
      else c

  unfoldable pub validate : host.Txn → Instr → Bool → Checked
  unfolding check_version check_absent
  validate txn i validated =
      let c : Checked = record { valid = validated; value = i.value; rc = success } in
      if i.flags.has_key then check_absent txn i (check_version txn i c) else c

  -- the cases of the `switch` that call LMDB to change the database
  unfoldable pub operate : Change → host.Txn → Instr → List ℕ → Rc × host.Txn
  unfolding put_with_version
  operate put_value txn i value =
      if i.flags.set_version
      then put_with_version txn i.dbi i.key value i.flags.put_flags i.version
      else host.put txn i.dbi i.key value i.flags.put_flags
  operate del_key txn i value = host.del txn i.dbi i.key
  operate del_key_value txn i value = host.del_value txn i.dbi i.key value
  operate drop_db txn i value = host.drop txn i.dbi i.flags.delete_database
