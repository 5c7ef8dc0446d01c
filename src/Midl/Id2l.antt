-- ===== src/Midl/Id2l.antt =====
-- The lists of midl.c that are sorted by an ID and carry more with it: `mdb_mid2l_search`, `_insert`,
-- `_append`, `_alloc`, `_need`, and `mdb_mid3l_search`, `_insert`.
pub mod Shift
pub mod Insert
use lmdb_js.Prelude.{
  ℕ, zero, suc, ◌+◌, ◌-◌, ◌*◌, ◌^◌, Bool, false, ◌&&◌, compare, Option, none, some, ltb, leb, ◌==◌,
  if◌then◌else◌, ◌>>=◌, u32, u64, Block, load, store, update,
}
use lmdb_js.Midl.Idl.{um_max, enomem, rounded}
use lmdb_js.Midl.BinarySearch.{search}

-- `MDB_ID2`; a pointer is a number
pub record Id2 : Type 0 where
  pub mid : ℕ
  pub mptr : ℕ

-- `MDB_ID3`
pub record Id3 : Type 0 where
  pub mid : ℕ
  pub mptr : ℕ
  pub menc : ℕ
  pub mcnt : ℕ
  pub mref : ℕ
  pub muse : ℕ

-- the return codes 0, -1 and -2
pub data Code : Type 0 where
  done : Code
  duplicate : Code
  refused : Code

-- The code is the same for both kinds of entry. `mid` reads the ID of an entry and `set_mid` writes it.
module _ {ℓ} {A : Type ℓ} (mid : A → ℕ) (set_mid : A → ℕ → A) where
  -- the number of entries stands in the first cell
  abbrev pub count : Block A → ℕ
  count l = mid (l.cell 0)

  unfoldable pub search_mid : Block A → ℕ → Option ℕ
  search_mid l id = search (λ i. load l i >>= λ e. some (compare id (mid e))) (count l)

  -- `for (i = ...; i>x; i--) ids[i] = ids[i-1];`
  unfoldable pub move_up : ℕ → ℕ → Block A → Option (Block A)
  move_up x zero l = some l
  move_up x (suc i) l =
      let rest = load l i >>= λ e. store l (suc i) e >>= λ l'. move_up x i l' in
      if ltb x (suc i) then rest else some l

  -- `ids[0].mid++`
  abbrev pub bump : Block A → Option (Block A)
  bump l = store l 0 (set_mid (l.cell 0) (u64 (count l + 1)))

  -- the part of `mdb_mid2l_insert` that follows the tests, as in `mdb_mid3l_insert`
  unfoldable pub insert_at : ℕ → Block A → A → Option (Block A)
  unfolding move_up
  insert_at x l e = bump l >>= λ l'. move_up x (u32 (count l')) l' >>= λ r. store r x e

  -- `x <= ids[0].mid && ids[x].mid == id->mid`
  abbrev pub is_there : Block A → ℕ → ℕ → Bool
  is_there l x id = leb x (count l) && (mid (l.cell x) == id)

  -- `limit` is the test that only `mdb_mid2l_insert` makes
  unfoldable pub insert : (ℕ → Bool) → Block A → A → Option (Code × Block A)
  insert limit l e = search_mid l (mid e) >>= λ x.
      if ltb x 1
      then some (refused, l)
      else (if is_there l x (mid e)
          then some (duplicate, l)
          else (if limit (count l)
              then some (refused, l)
              else (insert_at x l e >>= λ r. some (done, r))))

abbrev pub set_mid2 : Id2 → ℕ → Id2
set_mid2 e n = record e { mid = n }

abbrev pub set_mid3 : Id3 → ℕ → Id3
set_mid3 e n = record e { mid = n }

abbrev pub mid2l_search : Block Id2 → ℕ → Option ℕ
mid2l_search = search_mid (λ e. e.mid) set_mid2

-- `ids[0].mid >= MDB_IDL_UM_MAX`
abbrev pub mid2l_insert : Block Id2 → Id2 → Option (Code × Block Id2)
mid2l_insert = insert (λ e. e.mid) set_mid2 (λ n. leb um_max n)

abbrev pub mid3l_search : Block Id3 → ℕ → Option ℕ
mid3l_search = search_mid (λ e. e.mid) set_mid3

abbrev pub mid3l_insert : Block Id3 → Id3 → Option (Code × Block Id3)
mid3l_insert = insert (λ e. e.mid) set_mid3 (λ n. false)

unfoldable pub mid2l_append : Block Id2 → Id2 → Option (Code × Block Id2)
mid2l_append l e =
    let n = (l.cell 0).mid in
    if leb um_max n
    then some (refused, l)
    else (store l 0 (record (l.cell 0) { mid = u64 (n + 1) }) >>= λ l'.
        store l' (u64 (n + 1)) e >>= λ r. some (done, r))

module _ (available : ℕ → Bool) where
  unfoldable pub mid2l_alloc : (ℕ → Id2) → ℕ → Option (Block Id2)
  mid2l_alloc junk num =
      if available ((num + 2) * 16)
      then some (record { cap = num; cell = update junk 0 (record (junk 0) { mid = 0 }) })
      else none

  unfoldable pub mid2l_need : Block Id2 → ℕ → ℕ × Block Id2
  mid2l_need l num =
      let total = u32 (num + (l.cell 0).mid) in
      if ltb l.cap total
      then (if available (rounded total * 16)
          then (0, record l { cap = u32 (rounded total + 2 ^ 32 - 2) })
          else (enomem, l))
      else (0, l)
