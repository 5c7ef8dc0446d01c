-- ===== src/Pages/Search.antt =====
-- `mdb_node_search` of mdb.c: the binary search for a key in a page.
use lmdb_js.Prelude.{
  ℕ, zero, suc, ◌+◌, ◌-◌, ◌/◌, Bool, true, false, ◌&&◌, Ordering, Option, none, some, ltb, leb,
  ◌==◌, if◌then◌else◌, ◌>>=◌,
}
use lmdb_js.OrderedBinary.{Val}
use lmdb_js.Pages.Compare.{cmp_long, cmp_int, cmp_cint, cmp_memn, cmp_memnr}

-- the comparison functions that the code tells apart; `custom` is one that the user gave
pub data Cmp : Type 0 where
  long : Cmp
  int : Cmp
  cint : Cmp
  memn : Cmp
  memnr : Cmp
  custom : (Val → Val → Ordering) → Cmp

unfoldable pub compare_by : Cmp → Val → Val → Option Ordering
compare_by long a b = some (cmp_long a b)
compare_by int a b = some (cmp_int a b)
compare_by cint a b = cmp_cint a b
compare_by memn a b = some (cmp_memn a b)
compare_by memnr a b = some (cmp_memnr a b)
compare_by (custom f) a b = some (f a b)

-- `IS_BRANCH`, `IS_LEAF`, and a leaf that is also `IS_LEAF2`
pub data PageKind : Type 0 where
  branch : PageKind
  leaf : PageKind
  leaf2 : PageKind

-- `NUMKEYS`, and the keys of the nodes, or on a `leaf2` page the keys that stand side by side
pub record Page : Type 0 where
  pub kind : PageKind
  pub num_keys : ℕ
  pub key_at : ℕ → Val

-- `IS_LEAF(mp) ? 0 : 1`: the first key of a branch page is not looked at
abbrev pub first : Page → ℕ
first p = elim (p.kind) [ branch ↦ 1 | leaf ↦ 0 | leaf2 ↦ 0 ]

-- the faster function for integer keys on a branch page
unfoldable pub choose : Cmp → Page → Cmp
choose cint p = elim (p.kind) [
  | branch ↦ if (p.key_at 1).size == 8 then long else int
  | leaf ↦ cint
  | leaf2 ↦ cint
]
choose c p = c

-- The `while` loop. `high` is one more than in the code, where it can be -1; a page has fewer than
-- 2 ^ 16 keys, so that no sum of an `int` wraps around. `none` is a fault, or fuel that ran out.
module _ (probe : ℕ → Option Ordering) where
  unfoldable pub node_loop : ℕ → ℕ → ℕ → ℕ → Ordering → Option (ℕ × Ordering)
  node_loop zero low high i rc = if ltb low high then none else some (i, rc)
  node_loop (suc fuel) low high i rc =
      let mid = (low + high - 1) / 2 in
      let up = node_loop fuel (mid + 1) high mid Ordering.gt in
      let down = node_loop fuel low mid mid Ordering.lt in
      if ltb low high
      then (elim (probe mid) [
        | none ↦ none
        | some Ordering.eq ↦ some (mid, Ordering.eq)
        | some Ordering.gt ↦ up
        | some Ordering.lt ↦ down
      ])
      else some (i, rc)

-- the index that the cursor keeps, `*exactp`, and the index of the node that is returned
pub record Place : Type 0 where
  pub index : ℕ
  pub exact : Bool
  pub node : Option ℕ

-- `if (rc > 0) i++`
abbrev pub settle_index : ℕ → Ordering → ℕ
settle_index i Ordering.gt = i + 1
settle_index i _ = i

abbrev pub is_eq : Ordering → Bool
is_eq Ordering.eq = true
is_eq _ = false

unfoldable pub place : ℕ → ℕ → Ordering → Place
place num_keys i rc =
    let j = settle_index i rc in
    record {
      index = j;
      exact = is_eq rc && ltb 0 num_keys;
      node = if leb num_keys j then none else some j;
    }

-- the comparison of the key with a key of the page
abbrev pub probe_page : Cmp → Page → Val → ℕ → Option Ordering
probe_page cmp p key i = compare_by (choose cmp p) key (p.key_at i)

-- each round makes the interval smaller, so that the number of keys is fuel enough
unfoldable pub node_search : Cmp → Page → Val → Option Place
unfolding node_loop place
node_search cmp p key =
    node_loop (probe_page cmp p key) p.num_keys (first p) p.num_keys 0 Ordering.eq >>= λ (i, rc).
    some (place p.num_keys i rc)
