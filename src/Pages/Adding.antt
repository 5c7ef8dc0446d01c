-- ===== src/Pages/Adding.antt =====
-- `mdb_node_add` of mdb.c: a node is put on a page.
use Prim.Native.Nat.{bit_and, bit_or}
use lmdb_js.Prelude.{
  ℕ, zero, suc, ◌+◌, ◌-◌, ◌*◌, ◌/◌, ◌%◌, ◌^◌, Bool, Option, none, some, List, [], ◌∷◌, ◌++◌, ◌⊎◌,
  inl, inr, ltb, leb, ◌==◌, if◌then◌else◌, ◌>>=◌, update, length, take, get_elem?,
}
use lmdb_js.Pages.Search.{PageKind, branch, leaf, leaf2}
use lmdb_js.Pages.Nodes.{Body, u16, num_keys, even, ovpage_size, move_bytes}

-- `memcpy` of a list of bytes
abbrev pub write_bytes : (ℕ → ℕ) → ℕ → List ℕ → ℕ → ℕ
write_bytes mem p bs y =
    if leb p y then (elim (get_elem? bs (y - p)) [ none ↦ mem y | some c ↦ c ]) else mem y

abbrev pub half_bytes : ℕ → List ℕ
half_bytes n = n % 2 ^ 8 ∷ n / 2 ^ 8 % 2 ^ 8 ∷ []

abbrev pub long_bytes : ℕ → List ℕ
long_bytes n =
    half_bytes n ++ half_bytes (n / 2 ^ 16) ++ half_bytes (n / 2 ^ 32) ++ half_bytes (n / 2 ^ 48)

-- `F_ISSET` for `F_BIGDATA`, and for `MDB_RESERVE`
abbrev pub is_big : ℕ → Bool
is_big flags = bit_and flags 1 == 1

abbrev pub is_reserve : ℕ → Bool
is_reserve flags = bit_and flags 0x10000 == 0x10000

-- an `MDB_val` with its size and the bytes at its address
pub record Data : Type 0 where
  pub size : ℕ
  pub bytes : List ℕ

-- the fields of an overflow page that a node keeps
pub record Overflow : Type 0 where
  pub pgno : ℕ
  pub txnid : ℕ
  pub pages : ℕ

-- What a call comes to: the page, with what was written to a new overflow page if there is one; no
-- room, with what `mt_flags` of the transaction is then; or the code of the failed allocation.
pub data Added : Type 0 where
  added : Body → Option (Overflow × List ℕ) → Added
  full : ℕ → Added
  failed : ℕ → Added

-- `for (i = NUMKEYS(mp); i > indx; i--) mp->mp_ptrs[i] = mp->mp_ptrs[i - 1];`
unfoldable pub slots_up : ℕ → ℕ → (ℕ → ℕ) → ℕ → ℕ
slots_up indx zero f = f
slots_up indx (suc i) f =
    let rest = slots_up indx i (update f (suc i) (f i)) in if ltb indx (suc i) then rest else f

-- the header of a node: the size of the data on a leaf, the page number on a branch
abbrev pub node_header : PageKind → ℕ → ℕ → ℕ → ℕ → List ℕ
node_header branch flags pgno size ksize =
    half_bytes pgno ++ half_bytes (pgno / 2 ^ 16) ++ half_bytes (pgno / 2 ^ 32) ++ half_bytes ksize
node_header kind flags pgno size ksize =
    half_bytes size ++ half_bytes (size / 2 ^ 16) ++ half_bytes flags ++ half_bytes ksize

-- from the label `update` on; `none` is a failed assertion
unfoldable pub place_node : ℕ → ℕ → List ℕ → Body → Option Body
unfolding slots_up
place_node indx node_size node b =
    let ofs = u16 (b.upper + 2 ^ 16 - node_size % 2 ^ 16) in
    if leb (b.lower + 2) ofs
    then some (record {
      lower = u16 (b.lower + 2);
      upper = ofs;
      slot = update (slots_up indx (num_keys b) b.slot) indx ofs;
      mem = write_bytes b.mem ofs node;
    })
    else none

-- `node_size > room`
abbrev pub lacks_room : ℕ → Body → Bool
lacks_room node_size b = ltb (u16 (b.upper + 2 ^ 16 - b.lower)) (node_size + 2)

-- `OVPAGES`, where `PAGEHDRSZ` is 24
abbrev pub overflow_pages : ℕ → ℕ → ℕ
overflow_pages page_size size = (23 + size) / page_size + 1

-- `mt_flags |= MDB_TXN_ERROR`
abbrev pub with_txn_error : ℕ → ℕ
with_txn_error txn_flags = bit_or txn_flags 2

-- `mt_flags`, `me_nodemax`, `me_psize`, and `mdb_page_new` for an overflow page of a number of pages:
-- a code, or the page
module _ (txn_flags node_max page_size : ℕ) (page_new : ℕ → ℕ ⊎ Overflow) where
  -- a node whose data stands on the page, or that only tells where they stand
  unfoldable pub add_inline : PageKind → ℕ → ℕ → List ℕ → Body → Option Added
  unfolding place_node
  add_inline kind indx node_size node b =
      if lacks_room (even node_size) b
      then some (full (with_txn_error txn_flags))
      else (place_node indx (even node_size) node b >>= λ r. some (added r none))

  -- a node whose data go to a new overflow page
  unfoldable pub add_overflow : PageKind → ℕ → List ℕ → Data → ℕ → Body → Option Added
  unfolding place_node
  add_overflow kind indx key data' flags b =
      let node_size = even (8 + length key + ovpage_size) in
      if lacks_room node_size b
      then some (full (with_txn_error txn_flags))
      else (elim (page_new (overflow_pages page_size data'.size)) [
        | inl rc ↦ some (failed rc)
        | inr p ↦
            let node =
              node_header kind (bit_or flags 1) 0 data'.size (length key)
              ++ (key ++ (long_bytes p.pgno ++ (long_bytes p.txnid ++ long_bytes p.pages))) in
            place_node indx node_size node b >>= λ r.
            some (added r (some (p, if is_reserve flags then [] else take data'.size data'.bytes)))
      ])

  -- Keys of a fixed size stand side by side from the start of the body.
  unfoldable pub add_fixed : ℕ → ℕ → List ℕ → Body → Body
  add_fixed indx ksize key b = record {
    lower = u16 (b.lower + 2);
    upper = u16 (b.upper + 2 ^ 16 + 2 - ksize);
    slot = b.slot;
    mem =
        write_bytes
          (move_bytes b.mem (indx * ksize + ksize) (indx * ksize) ((num_keys b - indx) * ksize))
          (indx * ksize) (take ksize key);
  }

  -- behind the first assertion
  unfoldable pub add_by_kind : PageKind → ℕ → ℕ → List ℕ → Data → ℕ → ℕ → Body → Option Added
  unfolding add_inline add_overflow add_fixed
  add_by_kind leaf2 indx ksize key data' pgno flags b =
      some (added (add_fixed indx ksize key b) none)
  add_by_kind branch indx ksize key data' pgno flags b =
      add_inline branch indx (8 + length key)
        (node_header branch flags pgno data'.size (length key) ++ (key ++ [])) b
  add_by_kind leaf indx ksize key data' pgno flags b =
      let header = node_header leaf flags pgno data'.size (length key) in
      if is_big flags
      then add_inline leaf indx (8 + length key + ovpage_size)
          (header ++ (key ++ take ovpage_size data'.bytes)) b
      else (if ltb node_max (8 + length key + data'.size)
          then add_overflow leaf indx key data' flags b
          else add_inline leaf indx (8 + length key + data'.size)
              (header ++ (key ++ (if is_reserve flags then [] else take data'.size data'.bytes))) b)

  -- The key is empty where the code gets none. `none` is a failed assertion.
  unfoldable pub node_add : PageKind → ℕ → ℕ → List ℕ → Data → ℕ → ℕ → Body → Option Added
  unfolding add_by_kind
  node_add kind indx ksize key data' pgno flags b =
      if leb b.lower b.upper then add_by_kind kind indx ksize key data' pgno flags b else none
