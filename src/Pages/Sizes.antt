-- ===== src/Pages/Sizes.antt =====
-- `mdb_leaf_size` of mdb.c, by which callers of `mdb_node_add` find whether a page has room.
use lmdb_js.Prelude.{
  ℕ, ◌+◌, ◌-◌, ◌^◌, ◌≤◌, ◌<◌, ◌≡◌, ◌≢◌, ◌⊎◌, inl, inr, false, Option, some, List, arith, ltb, leb,
  true, if◌then◌else◌, length, take, [], ◌++◌, Bool-cases,
}
use lmdb_js.Pages.Search.{leaf}
use lmdb_js.Pages.Nodes.{Body, even, ovpage_size}
use lmdb_js.Pages.Adding.{
  Data, Overflow, Added, full, is_big, is_reserve, node_header, lacks_room, add_inline,
  add_overflow, node_add,
}

unfoldable pub leaf_size : ℕ → List ℕ → Data → ℕ
leaf_size node_max key data' =
    let sz = 8 + length key + data'.size in
    let sz' = if ltb node_max sz then sz - data'.size + ovpage_size else sz in even (sz' + 2)

-- the call does not answer that the page is full
abbrev pub HasRoom : Option Added → Type 0
HasRoom o = (t : ℕ) → o ≢ some (full t)

module _ (txn_flags node_max page_size : ℕ) (page_new : ℕ → ℕ ⊎ Overflow) (b : Body) (indx : ℕ)
    (whole : b.lower ≤ b.upper) (fits : b.upper < 2 ^ 16) where
  add_inline-HasRoom :
      (size : ℕ) (node : List ℕ)
      → b.lower + even size + 2 ≤ b.upper
      → HasRoom (add_inline txn_flags node_max page_size page_new leaf indx size node b)
  unfolding add_inline
  add_inline-HasRoom size node room =
      let roomy : lacks_room (even size) b ≡ false = ground arith in rw roomy (λ t e. ground arith)

  add_overflow-HasRoom :
      (key : List ℕ) (data' : Data) (flags : ℕ)
      → b.lower + even (8 + length key + ovpage_size) + 2 ≤ b.upper
      → HasRoom (add_overflow txn_flags node_max page_size page_new leaf indx key data' flags b)
  unfolding add_overflow
  add_overflow-HasRoom key data' flags room =
      let roomy : lacks_room (even (8 + length key + ovpage_size)) b ≡ false = ground arith in
      rw roomy (λ t e. ground arith)

  -- If the size that `mdb_leaf_size` computes for a key and its data is at most what is left
  -- between `lower` and `upper`, with `lower` at most `upper` and `upper` below 2 ^ 16, then
  -- adding them to the leaf, without the flag for data that are on an overflow page already,
  -- does not answer that the page is full.
  pub leaf_size-HasRoom :
      (ksize : ℕ) (key : List ℕ) (data' : Data) (pgno flags : ℕ)
      → is_big flags ≡ false
      → leaf_size node_max key data' ≤ b.upper - b.lower
      → HasRoom
          (node_add txn_flags node_max page_size page_new leaf indx ksize key data' pgno flags b)
  unfolding node_add leaf_size
  leaf_size-HasRoom ksize key data' pgno flags small room =
      let asserted : leb b.lower b.upper ≡ true = ground arith in
      elim (Bool-cases (ltb node_max (8 + length key + data'.size))) [
        | inl over ↦
            let room' = rw over at room in
            rw (asserted, small, over) (add_overflow-HasRoom key data' flags (omega (arith, room')))
        | inr fit ↦
            let room' = rw fit at room in
            rw (asserted, small, fit)
              (add_inline-HasRoom (8 + length key + data'.size)
                (node_header leaf flags pgno data'.size (length key)
                  ++ (key ++ (if is_reserve flags then [] else take data'.size data'.bytes)))
                (omega (arith, room')))
      ]
