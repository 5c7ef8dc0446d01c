-- ===== src/Midl/Append/Batch.antt =====
-- `mdb_midl_append_list` and `mdb_midl_append_range` of midl.c: many IDs at once.
use Prim.Native.Nat.{bit_or}
use lmdb_js.Prelude.{
  ℕ, zero, suc, ◌+◌, ◌-◌, ◌^◌, ◌≤◌, ◌<◌, ◌≡◌, refl, ap, ◌∙◌, Bool, inl, inr, some, List, [], ◌∷◌,
  ◌++◌, arith, ltb, leb, ◌>>=◌, u64, Bool-cases, le-bit_or, bit_or-lt, store, update, down,
  down-congr, down-append, down-update, down-suc, store-some, copy, Copied, copy-Copied,
}
use lmdb_js.Midl.Idl.{Idl, count, um_max, append_list, fill, append_range}
use lmdb_js.Midl.Append.{items, IsValid, IsLimited, Appends, u64-small, grow-cases}

-- id, id + 1, ..., n of them
abbrev pub range : ℕ → ℕ → List ℕ
range id zero = []
range id (suc n) = id ∷ range (id + 1) n

-- the list after the `memcpy`, with the new count written
copy-items :
    (l app d : Idl)
    → Copied l (count l + 1) app 1 (count app) d
    → items (record { cap = d.cap; cell = update d.cell 0 (count l + count app) })
      ≡ items app ++ items l
copy-items l app d c =
    let m = count l in
    let n = count app in
    let g = update d.cell 0 (m + n) in
    down-append g m n (m + n) refl
    ∙ ap2
        (down-congr (λ i. g (m + i)) app.cell n
          (λ i p q.
            let e : m + 1 + (i - 1) ≡ m + i = omega arith in
            let e' : 1 + (i - 1) ≡ i = omega arith in
            ground (arith, rw (e, e') at (c.copied (i - 1) (omega arith)))))
        (down-congr g l.cell m (λ i p q. ground (arith, c.kept i)))
  where
    ap2 : {xs ys xs' ys' : List ℕ} → xs ≡ xs' → ys ≡ ys' → xs ++ ys ≡ xs' ++ ys'
    ap2 p q = λ i. p i ++ q i

module _ (available : ℕ → Bool) (limited : IsLimited available) where
  list-Appends :
      (l app : Idl) (least more cap : ℕ)
      → IsValid app
      → count l + count app ≤ cap
      → cap < 2 ^ 60
      → l.cap ≤ cap
      → Appends available l least more (items app) (
          copy (record { cap = cap; cell = l.cell }) (count l + 1) app 1 (count app) >>= λ r.
          store r 0 (u64 (count r + count app)) >>= λ r'. some (0, r'))
  list-Appends l app least more cap v room fits wider =
      let (d, run, c) =
        copy-Copied (record { cap = cap; cell = l.cell }) (count l + 1) app 1 (count app)
          (omega arith) (omega (arith, v.0)) in
      let same : d.cap ≡ cap = c.cap in
      let head : d.cell 0 ≡ count l = c.kept 0 (omega arith) in
      let total : u64 (d.cell 0 + count app) ≡ count l + count app =
        rw head (u64-small (count l + count app) (omega arith)) in
      rw (run, ◌>>=◌, total, store-some d 0 (count l + count app) (omega arith))
        (inl (
          refl,
          (omega arith, omega arith),
          copy-items (record { cap = cap; cell = l.cell }) app d c,
          omega arith,
        ))

  -- Appending a valid list of fewer than 2 ^ 31 IDs to a valid list, with an allocator that
  -- gives no block of 2 ^ 63 bytes: with code 0 its IDs stand behind the others in their order
  -- and the list is valid; with ENOMEM the list is as it was, its room is at most what both lists
  -- need, and the allocator has refused a block for as many more as are appended. It does not
  -- fault.
  pub append_list-Appends :
      (l app : Idl)
      → IsValid l
      → IsValid app
      → count app < 2 ^ 31
      → Appends available l
          (count l + count app + 1)
          (count app)
          (items app)
          (append_list available l app)
  unfolding append_list
  append_list-Appends l app v w h =
      let total : u64 (count l + count app) ≡ count l + count app =
        u64-small (count l + count app) (omega arith) in
      elim (Bool-cases (leb l.cap (count l + count app))) [
        | inr room ↦
            rw (total, room)
              (list-Appends l app (count l + count app + 1) (count app) l.cap w (ground arith) v.1
                (omega arith))
        | inl full ↦ elim (grow-cases available limited l (count app) v h) [
          | inl (grown, fits) ↦
              rw (total, full, grown)
                (list-Appends l app (count l + count app + 1) (count app) (l.cap + count app) w
                  (omega (arith, v.0)) fits (omega arith))
          | inr (failed, why) ↦ rw (total, full, failed) (inr (refl, refl, ground arith, why))
        ]
      ]

  fill-suc :
      (l : Idl) (len n id : ℕ)
      → len + suc n ≤ l.cap
      → id + 1 < 2 ^ 64
      → fill available l len (suc n) id
        ≡ fill available
            (record { cap = l.cap; cell = update l.cell (len + suc n) id })
            len
            n
            (id + 1)
  unfolding fill
  fill-suc l len n id h k = rw (store-some l (len + suc n) id h, ◌>>=◌, u64-small (id + 1) k)

  -- the loop writes the IDs upwards from the top cell down, and leaves all other cells alone
  fill-range :
      (l : Idl) (len n id : ℕ)
      → len + n ≤ l.cap
      → id + n < 2 ^ 64
      → (r : Idl) × (fill available l len n id ≡ some r)
        × (r.cap ≡ l.cap)
        × ((i : ℕ) → i ≤ len → r.cell i ≡ l.cell i)
        × ((i : ℕ) → len + n < i → r.cell i ≡ l.cell i)
        × (down r.cell (len + n) ≡ range id n ++ down l.cell len)
  unfolding fill
  fill-range l len zero id h k =
      let e : len + 0 ≡ len = omega arith in (l, refl, refl, λ i p. refl, λ i p. refl, rw e)
  fill-range l len (suc n) id h k =
      let top = len + suc n in
      let l' : Idl = record { cap = l.cap; cell = update l.cell top id } in
      let (r, run, cap, low, high, listed) =
        fill-range l' len n (id + 1) (omega arith) (omega arith) in
      let e : top ≡ suc (len + n) = omega arith in
      let head : r.cell (suc (len + n)) ≡ id = ground (arith, high (suc (len + n))) in
      let tail : down l'.cell len ≡ down l.cell len = down-update l.cell len top id (omega arith) in
      (
        r,
        fill-suc l len n id h (omega arith) ∙ run,
        cap,
        λ i p. ground (arith, low i),
        λ i p. ground (arith, high i),
        down-suc r.cell (len + n) top e
            ∙ ap (λ t. t ∷ down r.cell (len + n)) head
            ∙ ap (λ t. id ∷ t) (listed ∙ ap (λ t. range (id + 1) n ++ t) tail),
      )

  range-Appends :
      (l : Idl) (least more cap id n : ℕ)
      → count l + n ≤ cap
      → cap < 2 ^ 60
      → l.cap ≤ cap
      → id + n < 2 ^ 64
      → Appends available l least more (range id n) (
          store (record { cap = cap; cell = l.cell }) 0 (count l + n) >>= λ r.
          fill available r (count l) n id >>= λ r'. some (0, r'))
  range-Appends l least more cap id n room fits wider small =
      let l' : Idl = record { cap = cap; cell = update l.cell 0 (count l + n) } in
      let (r, run, same, low, high, listed) = fill-range l' (count l) n id room small in
      let head : r.cell 0 ≡ count l + n = low 0 (omega arith) in
      rw
        (store-some (record { cap = cap; cell = l.cell }) 0 (count l + n) (omega arith), ◌>>=◌, run)
        (inl (
          refl,
          (omega arith, omega arith),
          ap (λ k. down r.cell k) head
              ∙ listed
              ∙ ap (λ t. range id n ++ t)
                  (down-congr l'.cell l.cell (count l) (λ i p q. ground arith)),
          omega arith,
        ))

  -- Appending a range of fewer than 2 ^ 31 IDs that ends below 2 ^ 64 to a valid list, with an
  -- allocator that gives no block of 2 ^ 63 bytes: with code 0 the range stands behind the
  -- other IDs, the highest first, and the list is valid; with ENOMEM the list is as it was and too
  -- small, and the allocator has refused a block for `n | MDB_IDL_UM_MAX` IDs more. It does not
  -- fault.
  pub append_range-Appends :
      (l : Idl) (id n : ℕ)
      → IsValid l
      → n < 2 ^ 31
      → id + n < 2 ^ 64
      → Appends available l
          (count l + n)
          (bit_or n um_max)
          (range id n)
          (append_range available l id n)
  unfolding append_range
  append_range-Appends l id n v h k =
      let total : u64 (count l + n) ≡ count l + n = u64-small (count l + n) (omega arith) in
      let more = bit_or n um_max in
      let enough : n ≤ more = le-bit_or 31 n um_max h in
      let small : more < 2 ^ 31 = bit_or-lt 31 n um_max h (omega arith) in
      elim (Bool-cases (ltb l.cap (count l + n))) [
        | inr room ↦
            rw (total, room)
              (range-Appends l (count l + n) more l.cap id n (ground arith) v.1 (omega arith) k)
        | inl full ↦ elim (grow-cases available limited l more v small) [
          | inl (grown, fits) ↦
              rw (total, full, grown)
                (range-Appends l (count l + n) more (l.cap + more) id n (omega (arith, v.0, enough))
                  fits (omega arith) k)
          | inr (failed, why) ↦ rw (total, full, failed) (inr (refl, refl, ground arith, why))
        ]
      ]
