-- ===== src/Pages/Add.antt =====
-- `mdb_node_add` of mdb.c keeps the nodes of a page and puts the new one among them.
use lmdb_js.Prelude.{
  ℕ, ◌+◌, ◌≤◌, ◌<◌, ◌≡◌, ◌⊎◌, inl, Option, none, some, List, [], ◌++◌, ltb, ◌||◌, if◌then◌else◌,
  take,
}
use lmdb_js.Pages.Search.{PageKind, leaf}
use lmdb_js.Pages.Nodes.{Body, even, ovpage_size}
use lmdb_js.Pages.Adding.{
  long_bytes, is_big, is_reserve, overflow_pages, with_txn_error, Data, Overflow, Added, added,
  full, failed,
}
use lmdb_js.Pages.Placed.{HasNode, Takes}

-- The bytes that a node takes on the page: eight for its header, the key, and on a leaf the data, or
-- the place of the data if they are on overflow pages or too large for the page; an even number.
abbrev pub taken : (node_max : ℕ) → PageKind → ℕ → ℕ → ℕ → ℕ
taken node_max leaf key_size data_size flags = even (
    8
    + key_size
    + (if is_big flags || ltb node_max (8 + key_size + data_size) then ovpage_size else data_size))
taken node_max _ key_size data_size flags = even (8 + key_size)

-- What a node has behind its key where its data stand on the page, or already on overflow pages: on a
-- branch nothing; for the caller to fill in, nothing.
abbrev pub written : PageKind → ℕ → Data → List ℕ
written leaf flags data' =
    if is_big flags
    then take ovpage_size data'.bytes
    else (if is_reserve flags then [] else take data'.size data'.bytes)
written _ flags data' = []

-- What it has there when its data go to new overflow pages, which get the data.
abbrev pub Stored : ℕ → Data → Option (Overflow × List ℕ) → List ℕ → List ℕ → Type 0
Stored flags data' none inline rest = rest ≡ inline
Stored flags data' (some (p, beyond)) inline rest =
    (rest ≡ long_bytes p.pgno ++ (long_bytes p.txnid ++ long_bytes p.pages))
    × (beyond ≡ (if is_reserve flags then [] else take data'.size data'.bytes))

module _ (txn_flags node_max page_size : ℕ) (page_new : ℕ → ℕ ⊎ Overflow) (kind : PageKind)
    (indx : ℕ) (b : Body) where
  -- What a call comes to for a node of `size` bytes on the page, with no failed assertion. The page
  -- has the new node; or the room is not enough for it and its slot, and the transaction is marked;
  -- or the room is enough, and no overflow pages could be had for the data.
  abbrev pub Adds :
      (size flags : ℕ) (key : List ℕ) (data' : Data) (inline : List ℕ) → Option Added → Type 0
  Adds size flags key data' inline none = ⊥
  Adds size flags key data' inline (some (added r o)) =
      ((rest : List ℕ) × Stored flags data' o inline rest × HasNode kind indx b key rest r)
      × Takes kind indx b size r
  Adds size flags key data' inline (some (full t)) =
      (b.upper < b.lower + 2 + size) × (t ≡ with_txn_error txn_flags)
  Adds size flags key data' inline (some (failed rc)) =
      (b.lower + 2 + size ≤ b.upper) × (page_new (overflow_pages page_size data'.size) ≡ inl rc)
