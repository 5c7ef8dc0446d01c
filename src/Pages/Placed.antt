-- ===== src/Pages/Placed.antt =====
-- What `mdb_node_add` of mdb.c writes from its label `update` on.
use lmdb_js.Prelude.{
  ℕ, ◌+◌, ◌-◌, ◌/◌, ◌%◌, ◌^◌, ◌≤◌, ◌<◌, ◌≡◌, refl, true, some, List, ◌++◌, arith, ltb, leb,
  if◌then◌else◌, update, length,
}
use lmdb_js.OrderedBinary.Words.{bytes}
use lmdb_js.Pages.Search.{PageKind}
use lmdb_js.Pages.Nodes.{Body, u16, num_keys}
use lmdb_js.Pages.Adding.{write_bytes, slots_up, place_node}
use lmdb_js.Pages.Writes.{slots_up-kept, write_bytes-behind, write_bytes-read, write_bytes-rest}
use lmdb_js.Pages.Delete.{IsPage, node_at, bytes-congr, node_bytes_count-congr}

-- where the old nodes stand afterwards
abbrev pub ahead : ℕ → ℕ → ℕ
ahead indx k = if ltb k indx then k else k + 1

module _ (kind : PageKind) (indx : ℕ) (b : Body) where
  -- One key more; each old node as it was, at its place or the next; and the new key and
  -- what follows it behind the header of the node at the index.
  abbrev pub HasNode : (key rest : List ℕ) → Body → Type 0
  HasNode key rest r =
      (num_keys r ≡ num_keys b + 1)
      × ((k : ℕ) → k < num_keys b → node_at kind r (ahead indx k) ≡ node_at kind b k)
      × (bytes r.mem (r.slot indx + 8) (length key) ≡ key)
      × (bytes r.mem (r.slot indx + 8 + length key) (length rest) ≡ rest)

  -- the free space is smaller by a slot and by the size of the node
  abbrev pub Takes : ℕ → Body → Type 0
  Takes size r = (r.lower ≡ b.lower + 2) × (r.upper + size ≡ b.upper) × (r.lower ≤ r.upper)

  module _ (v : IsPage kind b) (inside : indx ≤ num_keys b) (fits : b.upper < 2 ^ 16) where
    pub place_node-HasNode :
        (size : ℕ) (header key rest : List ℕ)
        → length header ≡ 8
        → length (header ++ (key ++ rest)) ≤ size
        → b.lower + 2 + size ≤ b.upper
        → (r : Body) × (place_node indx size (header ++ (key ++ rest)) b ≡ some r)
          × HasNode key rest r
          × Takes size r
    unfolding place_node
    place_node-HasNode size header key rest eight long room =
        let node = header ++ (key ++ rest) in
        let ofs = b.upper - size in
        let ofs_is : u16 (b.upper + 2 ^ 16 - size % 2 ^ 16) ≡ ofs = omega arith in
        let lower_is : u16 (b.lower + 2) ≡ b.lower + 2 = omega arith in
        let test : leb (b.lower + 2) ofs ≡ true = ground arith in
        let slots = slots_up indx (num_keys b) b.slot in
        let mem = write_bytes b.mem ofs node in
        let r : Body = record {
          lower = b.lower + 2;
          upper = ofs;
          slot = update slots indx ofs;
          mem = mem;
        } in
        let counted : (b.lower + 2) / 2 ≡ b.lower / 2 + 1 = omega arith in
        let there : update slots indx ofs indx ≡ ofs = ground arith in
        rw (ofs_is, lower_is, test)
          (
            r,
            refl,
            (
              counted,
              λ k q.
                  let (low, up, high) = slots_up-kept indx (num_keys b) k b.slot in
                  let moved : update slots indx ofs (ahead indx k) ≡ b.slot k = ground arith in
                  let same : (x : ℕ) → mem (b.slot k + x) ≡ b.mem (b.slot k + x) = λ x.
                    write_bytes-behind b.mem ofs (b.slot k + x) node (omega (arith, v.above k q)) in
                  let count =
                    node_bytes_count-congr mem b.mem (b.slot k) (b.slot k) (λ x _. same x) kind in
                  rw (moved, count) (bytes-congr mem b.mem (b.slot k) (b.slot k) _ (λ x _. same x)),
              rw (there) (rw eight at (write_bytes-read b.mem ofs header key rest)),
              rw (there) (write_bytes-rest b.mem ofs header key rest eight),
            ),
            (refl, omega arith, omega arith),
          )
