-- ===== src/Midl/Merge/Refines.antt =====
-- `mdb_midl_xmerge` of midl.c computes the merge of two lists.
use lmdb_js.Prelude.{
  ℕ, ◌+◌, ◌-◌, ◌^◌, ◌≤◌, ◌<◌, ◌≡◌, refl, ap, ◌∙◌, some, arith, ◌>>=◌, update, load-some, store-some,
  down-congr,
}
use lmdb_js.Midl.Idl.{Idl, count}
use lmdb_js.Midl.Append.{items, IsValid, u64-small}
use lmdb_js.Midl.Merge.{merge_loop, xmerge}
use lmdb_js.Midl.Merge.Loop.{merge_lists, IsReady, merge_loop-Writes}

module _ (idl merge r : Idl) where
  abbrev total : ℕ
  total = count merge + count idl

  abbrev scanned : Idl
  scanned = record { cap = idl.cap; cell = update idl.cell 0 (2 ^ 64 - 1) }

  -- what surrounds the loop
  xmerge-loop :
      total ≤ idl.cap
      → idl.cap < 2 ^ 60
      → merge_loop merge (count merge) (count idl) total (scanned.cell (count idl)) scanned ≡ some r
      → xmerge idl merge ≡ some (record { cap = r.cap; cell = update r.cell 0 total })
  unfolding xmerge
  xmerge-loop room small run =
      rw
        (
          u64-small total (omega arith),
          store-some idl 0 (2 ^ 64 - 1) (omega arith),
          ◌>>=◌,
          load-some scanned (count idl) (omega arith),
          run,
        )
        (store-some r 0 total (omega arith))

-- The merge in place of one ID list into another that has room for both ends without a fault and
-- leaves a valid list in the same block, whose IDs are the merge of the two lists. The blocks are
-- below 2 ^ 60 cells and the merged IDs below 2 ^ 64; the lists need not be sorted.
pub xmerge-merge_lists :
    (idl merge : Idl)
    → count merge + count idl ≤ idl.cap
    → idl.cap < 2 ^ 60
    → count merge ≤ merge.cap
    → ((x : ℕ) → x ≤ count merge → merge.cell x < 2 ^ 64)
    → (r : Idl) × (xmerge idl merge ≡ some r)
      × IsValid r
      × (r.cap ≡ idl.cap)
      × (items r ≡ merge_lists (items idl) (items merge))
xmerge-merge_lists idl merge room small inside ids =
    let start = scanned idl merge idl in
    let ready : IsReady merge (count merge) (count idl) (total idl merge idl) _ start = record {
      total = refl;
      room = room;
      inside = inside;
      small = omega arith;
      ids = ids;
      sentinel = refl;
      old = refl;
    } in
    let (r, run, cap, above, listed) = merge_loop-Writes merge _ _ _ _ start ready in
    let fits : total idl merge idl ≤ r.cap = rw cap room in
    (
      record { cap = r.cap; cell = update r.cell 0 (total idl merge idl) },
      xmerge-loop idl merge r room small run,
      (fits, rw cap small),
      cap,
      down-congr (update r.cell 0 (total idl merge idl)) r.cell (total idl merge idl)
            (λ i p q. ground arith)
          ∙ listed
          ∙ ap (λ t. merge_lists t (items merge))
              (down-congr start.cell idl.cell (count idl) (λ i p q. ground arith)),
    )
