-- ===== src/Midl/Merge.antt =====
-- `mdb_midl_xmerge` of midl.c: the merge of one list into another, in place and from the end.
pub mod Loop
pub mod Refines
use lmdb_js.Prelude.{
  ℕ, zero, suc, ◌+◌, ◌-◌, ◌^◌, Option, none, some, ltb, if◌then◌else◌, ◌>>=◌, u64, load, store,
}
use lmdb_js.Midl.Idl.{Idl, count}

-- `k--` on a 64-bit number
abbrev pub dec64 : ℕ → ℕ
dec64 k = u64 (k + 2 ^ 64 - 1)

-- the variables of the loop: the list, `j`, `k` and `old_id`
pub record Cursor : Type 0 where
  pub idl : Idl
  pub j : ℕ
  pub k : ℕ
  pub old_id : ℕ

-- `for (; old_id < merge_id; old_id = idl[--j]) idl[k--] = old_id;`
-- At `j` 0 the decrement would run out of the block.
unfoldable pub shift : Idl → ℕ → ℕ → ℕ → ℕ → Option Cursor
shift idl zero k old_id merge_id =
    if ltb old_id merge_id
    then none
    else some (record { idl = idl; j = zero; k = k; old_id = old_id })
shift idl (suc j) k old_id merge_id =
    let rest = store idl k old_id >>= λ l. load l j >>= λ o. shift l j (dec64 k) o merge_id in
    if ltb old_id merge_id
    then rest
    else some (record { idl = idl; j = suc j; k = k; old_id = old_id })

-- the `while` loop over the list that is merged in
unfoldable pub merge_loop : Idl → ℕ → ℕ → ℕ → ℕ → Idl → Option Idl
unfolding shift
merge_loop merge zero j k old_id idl = some idl
merge_loop merge (suc i) j k old_id idl = load merge (suc i) >>= λ merge_id.
    shift idl j k old_id merge_id >>= λ c.
    store c.idl c.k merge_id >>= λ l. merge_loop merge i c.j (dec64 c.k) c.old_id l

-- `idl[0]` holds the greatest number during the scan, which ends every run of the inner loop
unfoldable pub xmerge : Idl → Idl → Option Idl
unfolding merge_loop
xmerge idl merge =
    let total = u64 (count merge + count idl) in
    store idl 0 (2 ^ 64 - 1) >>= λ l. load l (count idl) >>= λ old_id.
    merge_loop merge (count merge) (count idl) total old_id l >>= λ r. store r 0 total
