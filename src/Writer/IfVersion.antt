-- ===== src/Writer/IfVersion.antt =====
-- A put with the condition `ifVersion` in src/writer.cpp: which value it stores.
use lmdb_js.Prelude.{
  ℕ, ◌≡◌, Bool, true, false, ◌&&◌, ◌||◌, Bool-cases, inl, inr, if◌then◌else◌, List,
}
use lmdb_js.Writer.Instr.{Instr}
use lmdb_js.Writer.Host.{Host, World}
use lmdb_js.Writer.Kinds.{put_value, is_success}
use lmdb_js.Writer.Checks.{validate, operate}
use lmdb_js.Writer.Exec.{mark}
use lmdb_js.Writer.Blocks.{make_change}

module _ (host : Host) where
  -- the record that stands under the instruction's key has the version that is asked for
  unfoldable pub has_version : host.Txn → Instr → Bool
  has_version txn i =
      let (rc, found) = host.get txn i.dbi i.key in
      is_success rc && (host.is_any_version i.if_version || host.is_version i.if_version found)

  -- what `mdb_get` finds under the instruction's key
  abbrev pub found : host.Txn → Instr → List ℕ
  found txn i = (host.get txn i.dbi i.key).1

  -- A conditional put with `ifVersion` and no version of its own and no `ifNoExists`: if the
  -- block is valid and the record has the version, then what is put is the record that the test
  -- found, and not the value of the instruction; else the transaction is unchanged.
  pub put-if_version :
      (valid : Bool) (start : ℕ) (i : Instr) (w : World host.Txn)
      → i.flags.has_key ≡ true
      → i.flags.conditional ≡ true
      → i.flags.conditional_version ≡ true
      → i.flags.if_no_exists ≡ false
      → i.flags.set_version ≡ false
      → (make_change host valid start i put_value w).txn ≡ (
          if valid && has_version w.txn i
          then (host.put w.txn i.dbi i.key (found w.txn i) i.flags.put_flags).1
          else w.txn)
  unfolding make_change validate operate mark has_version
  put-if_version valid start i w key c versioned any plain = elim (Bool-cases valid) [
    | inl v ↦ elim (Bool-cases (is_success (host.get w.txn i.dbi i.key).0)) [
      | inl there ↦
          elim (Bool-cases
            (host.is_any_version i.if_version || host.is_version i.if_version (found w.txn i))) [
              | inl same ↦ simp (key, c, versioned, any, plain, there, v, same)
              | inr differs ↦ simp (key, c, versioned, any, plain, there, v, differs)
            ]
      | inr missing ↦ simp (key, c, versioned, any, plain, missing, v)
    ]
    | inr v ↦ elim (Bool-cases (is_success (host.get w.txn i.dbi i.key).0)) [
      | inl there ↦ simp (key, c, versioned, any, plain, there, v)
      | inr missing ↦ simp (key, c, versioned, any, plain, missing, v)
    ]
  ]
