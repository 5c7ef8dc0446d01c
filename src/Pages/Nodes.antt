-- ===== src/Pages/Nodes.antt =====
-- `mdb_node_del` of mdb.c: a node is taken off a page.
-- A page's body is what stands behind its header: the slots, 2-byte offsets from its start upwards to
-- `lower`, and the nodes from `upper` upwards. Slots and nodes are apart while `lower` is at most
-- `upper`, and stand in two functions here. Offsets are `indx_t`, of 16 bits.
use Prim.Native.Nat.{bit_and}
use lmdb_js.Prelude.{
  ℕ, zero, suc, ◌+◌, ◌-◌, ◌*◌, ◌/◌, ◌%◌, ◌^◌, not, ◌&&◌, Option, none, some, ltb, leb, ◌==◌,
  if◌then◌else◌, update, u32,
}
use lmdb_js.Pages.Search.{PageKind, branch, leaf2}

pub record Body : Type 0 where
  pub lower : ℕ
  pub upper : ℕ
  pub slot : ℕ → ℕ
  pub mem : ℕ → ℕ

abbrev pub u16 : ℕ → ℕ
u16 n = n % 2 ^ 16

-- `NUMKEYS`
abbrev pub num_keys : Body → ℕ
num_keys b = b.lower / 2

abbrev pub half_at : (ℕ → ℕ) → ℕ → ℕ
half_at mem p = mem p + mem (p + 1) * 2 ^ 8

-- `EVEN`
abbrev pub even : ℕ → ℕ
even n = (n + 1) / 2 * 2

-- `sizeof(MDB_ovpage)`
abbrev pub ovpage_size : ℕ
ovpage_size = 24

-- The bytes of the node at `p`: a header of 8, the key, and on a leaf the data, or the place of the
-- data where the flag `F_BIGDATA` is set.
unfoldable pub node_bytes_count : PageKind → (ℕ → ℕ) → ℕ → ℕ
node_bytes_count branch mem p = even (u32 (8 + half_at mem (p + 6)))
node_bytes_count kind mem p =
    let sz = 8 + half_at mem (p + 6) in
    if bit_and (half_at mem (p + 4)) 1 == 1
    then even (u32 (sz + ovpage_size))
    else even (u32 (sz + (half_at mem p + half_at mem (p + 2) * 2 ^ 16)))

-- what becomes of an offset when the node at `ptr` with `sz` bytes goes
abbrev pub lift_offset : ℕ → ℕ → ℕ → ℕ
lift_offset ptr sz p = if ltb p ptr then u16 (p + sz) else p

-- `for (i = j = 0; i < numkeys; i++)`, with the rounds left, `i` and `j`
unfoldable pub slots_loop : ℕ → ℕ → ℕ → ℕ → ℕ → ℕ → (ℕ → ℕ) → ℕ → ℕ
slots_loop indx ptr sz zero i j f = f
slots_loop indx ptr sz (suc n) i j f =
    let (j', g) = if i == indx then (j, f) else (j + 1, update f j (lift_offset ptr sz (f i))) in
    slots_loop indx ptr sz n (i + 1) j' g

-- `memmove` of n bytes
abbrev pub move_bytes : (ℕ → ℕ) → ℕ → ℕ → ℕ → ℕ → ℕ
move_bytes mem to from n y = if leb to y && ltb y (to + n) then mem (from + (y - to)) else mem y

-- `none` is a failed assertion; `ksize` is used on a `leaf2` page only, whose keys stand side by side
-- from the start of the body
unfoldable pub node_del : PageKind → ℕ → ℕ → Body → Option Body
unfolding node_bytes_count slots_loop
node_del kind indx ksize b = if not (ltb indx (num_keys b)) then none else (elim kind [
  | leaf2 ↦ some (record {
    lower = u16 (b.lower + 2 ^ 16 - 2);
    upper = u16 (b.upper + 2 ^ 16 + ksize - 2);
    slot = b.slot;
    mem = move_bytes b.mem (indx * ksize) (indx * ksize + ksize) ((num_keys b - 1 - indx) * ksize);
  })
  | k ↦
      let ptr = b.slot indx in
      let sz = node_bytes_count k b.mem ptr in
      some (record {
        lower = u16 (b.lower + 2 ^ 16 - 2);
        upper = u16 (b.upper + sz);
        slot = slots_loop indx ptr sz (num_keys b) 0 0 b.slot;
        mem = move_bytes b.mem (b.upper + sz) b.upper (ptr - b.upper);
      })
])
