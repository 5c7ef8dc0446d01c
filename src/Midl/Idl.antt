-- ===== src/Midl/Idl.antt =====
-- The ID list of midl.h and the operations of midl.c that make room in it and write to it:
-- `mdb_midl_alloc`, `_shrink`, `_grow`, `_need`, `_append`, `_append_list`, `_append_range`
-- and the macro `mdb_midl_xappend`.
-- An `MDB_IDL` is a block: `cap` is `ids[-1]`, cell 0 the number of IDs, cells 1 and up the IDs.
-- `malloc` and `realloc` stand behind the parameter `available`, which says whether they have a
-- number of bytes; fresh cells hold the parameter `junk`.
use Prim.Native.Nat.{bit_or}
use lmdb_js.Prelude.{
  ℕ, zero, suc, ◌+◌, ◌-◌, ◌*◌, ◌/◌, ◌^◌, Bool, Option, none, some, ltb, leb, ◌==◌, if◌then◌else◌,
  ◌>>=◌, u32, u64, Block, store, copy, update,
}

abbrev pub Idl : Type 0
Idl = Block ℕ

-- `ids[0]`
abbrev pub count : Idl → ℕ
count l = l.cell 0

-- `MDB_IDL_UM_MAX`
abbrev pub um_max : ℕ
um_max = 2 ^ 17 - 1

abbrev pub enomem : ℕ
enomem = 12

-- an `int` that is added to a 64-bit number
abbrev pub int_to_u64 : ℕ → ℕ
int_to_u64 n = if ltb (u32 n) (2 ^ 31) then u32 n else u32 n + 2 ^ 64 - 2 ^ 32

-- `(num + num/4 + (256 + 2)) & -256`
unfoldable pub rounded : ℕ → ℕ
rounded num = u32 (num + num / 4 + 258) / 256 * 256

module _ (available : ℕ → Bool) where
  unfoldable pub alloc : (ℕ → ℕ) → ℕ → Option Idl
  alloc junk num =
      if available ((num + 2) * 8)
      then some (record { cap = num; cell = update junk 0 0 })
      else none

  unfoldable pub shrink : Idl → Idl
  shrink l =
      if ltb um_max l.cap
      then (if available ((um_max + 2) * 8) then record l { cap = um_max } else l)
      else l

  -- The results of what follows are the return code and the list.
  unfoldable pub grow : Idl → ℕ → ℕ × Idl
  grow l num =
      let more = int_to_u64 num in
      if available (u64 (u64 (l.cap + more + 2) * 8))
      then (0, record l { cap = u64 (l.cap + more) })
      else (enomem, l)

  unfoldable pub need : Idl → ℕ → ℕ × Idl
  need l num =
      let total = u32 (num + count l) in
      if ltb l.cap total
      then (if available (rounded total * 8)
          then (0, record l { cap = u32 (rounded total + 2 ^ 32 - 2) })
          else (enomem, l))
      else (0, l)

  -- `ids[0]++; ids[ids[0]] = id;`, which is also `mdb_midl_xappend`
  unfoldable pub xappend : Idl → ℕ → Option Idl
  xappend l id = store l 0 (u64 (count l + 1)) >>= λ l'. store l' (u64 (count l + 1)) id

  unfoldable pub append : Idl → ℕ → Option (ℕ × Idl)
  unfolding grow xappend
  append l id =
      let (rc, l') = if leb l.cap (count l) then grow l um_max else (0, l) in
      if rc == 0 then (xappend l' id >>= λ r. some (0, r)) else some (enomem, l')

  -- `memcpy(&ids[ids[0]+1], &app[1], ...); ids[0] += app[0];` behind the test for room
  unfoldable pub append_list : Idl → Idl → Option (ℕ × Idl)
  unfolding grow
  append_list l app =
      let (rc, l') = if leb l.cap (u64 (count l + count app)) then grow l (count app) else (0, l) in
      if rc == 0
      then (copy l' (count l' + 1) app 1 (count app) >>= λ r.
          store r 0 (u64 (count r + count app)) >>= λ r'. some (0, r'))
      else some (enomem, l')

  -- `while (n) ids[n--] = id++;` where `ids` is ahead of the list by `len`
  unfoldable pub fill : Idl → ℕ → ℕ → ℕ → Option Idl
  fill l len zero id = some l
  fill l len (suc n) id = store l (len + suc n) id >>= λ l'. fill l' len n (u64 (id + 1))

  unfoldable pub append_range : Idl → ℕ → ℕ → Option (ℕ × Idl)
  unfolding grow fill
  append_range l id n =
      let len = count l in
      let (rc, l') = if ltb l.cap (u64 (len + n)) then grow l (bit_or n um_max) else (0, l) in
      if rc == 0
      then (store l' 0 (u64 (len + n)) >>= λ r. fill r len n id >>= λ r'. some (0, r'))
      else some (enomem, l')
