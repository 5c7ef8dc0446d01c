-- ===== src/Midl/Merge/Loop.antt =====
-- The loops of `mdb_midl_xmerge` of midl.c compute the merge of two lists.
use lmdb_js.Prelude.{
  ℕ, zero, suc, ◌+◌, ◌-◌, ◌^◌, ◌≤◌, ◌<◌, ◌≡◌, refl, ap, ◌∙◌, Option, some, List, [], ◌∷◌, arith,
  ltb, if◌then◌else◌, Bool-cases, inl, inr, update, load, load-some, down, down-update,
}
use lmdb_js.Midl.Idl.{Idl}
use lmdb_js.Midl.Merge.{dec64, merge_loop}

-- the merge of two lists with the smallest first
pub merge_lists : List ℕ → List ℕ → List ℕ
merge_lists os [] = os
merge_lists [] (m ∷ ms) = m ∷ ms
merge_lists (o ∷ os) (m ∷ ms) =
    if ltb o m then o ∷ merge_lists os (m ∷ ms) else m ∷ merge_lists (o ∷ os) ms

module _ (merge : Idl) where
  -- one round of the inner loop
  loop-shift :
      (i j k old_id m : ℕ) (idl : Idl)
      → load merge (suc i) ≡ some m
      → old_id < m
      → k ≤ idl.cap
      → j < k
      → merge_loop merge (suc i) (suc j) k old_id idl
        ≡ merge_loop merge
            (suc i)
            j
            (dec64 k)
            (idl.cell j)
            (record { cap = idl.cap; cell = update idl.cell k old_id })
  unfolding merge_loop
  loop-shift i j k old_id m idl e h room apart = ground arith

  -- the round of the outer loop that ends the inner one
  loop-take :
      (i j k old_id m : ℕ) (idl : Idl)
      → load merge (suc i) ≡ some m
      → m ≤ old_id
      → k ≤ idl.cap
      → merge_loop merge (suc i) j k old_id idl
        ≡ merge_loop merge i j
            (dec64 k)
            old_id
            (record { cap = idl.cap; cell = update idl.cell k m })
  unfolding merge_loop
  loop-take i zero k old_id m idl e h room = ground (arith)
  loop-take i (suc j) k old_id m idl e h room = ground (arith)

-- A run that started from `idl` ends: it wrote `out` to the cells up to `k`, the last cell first,
-- and left the cells behind them alone.
abbrev pub Writes : Idl → ℕ → List ℕ → Option Idl → Type 0
Writes idl k out run =
    (r : Idl) × (run ≡ some r)
    × (r.cap ≡ idl.cap)
    × ((x : ℕ) → k < x → r.cell x ≡ idl.cell x)
    × (down r.cell k ≡ out)

-- one cell was written before the run
Writes-push :
    (idl : Idl) (k v : ℕ) (out : List ℕ) (run : Option Idl)
    → Writes (record { cap = idl.cap; cell = update idl.cell (suc k) v }) k out run
    → Writes idl (suc k) (v ∷ out) run
Writes-push idl k v out run (r, ends, cap, above, listed) =
    let head : r.cell (suc k) ≡ v = ground (arith, above (suc k)) in
    (
      r,
      ends,
      cap,
      λ x p. ground (arith, above x),
      ap (λ t. t ∷ down r.cell k) head ∙ ap (λ t. v ∷ t) listed,
    )

Writes-cast :
    {idl : Idl} {k : ℕ} {out out' : List ℕ} {run run' : Option Idl}
    → Writes idl k out run
    → out ≡ out'
    → run' ≡ run
    → Writes idl k out' run'
Writes-cast (r, ends, cap, above, listed) p q = (r, q ∙ ends, cap, above, listed ∙ p)

nil-merge_lists : (ms : List ℕ) → merge_lists [] ms ≡ ms
unfolding merge_lists
nil-merge_lists [] = refl
nil-merge_lists (m ∷ ms) = refl

dec64-suc : (k : ℕ) → suc k < 2 ^ 64 → dec64 (suc k) ≡ k
dec64-suc k h = omega arith

module _ (merge : Idl) where
  -- what the loop needs at `i`, `j` and `k`
  pub record IsReady (i j k old_id : ℕ) (idl : Idl) : Type 0 where
    pub total : k ≡ i + j
    pub room : k ≤ idl.cap
    pub inside : i ≤ merge.cap
    pub small : k < 2 ^ 64
    pub ids : (x : ℕ) → x ≤ i → merge.cell x < 2 ^ 64
    pub sentinel : idl.cell 0 ≡ 2 ^ 64 - 1
    pub old : old_id ≡ idl.cell j

  module _ (i j k old_id : ℕ) (idl : Idl) where
    abbrev written : ℕ → Idl
    written v = record { cap = idl.cap; cell = update idl.cell (suc k) v }

    abbrev out : List ℕ
    out = merge_lists (down idl.cell j) (down merge.cell i)

  take-IsReady :
      (i j k old_id : ℕ) (idl : Idl)
      → IsReady (suc i) j (suc k) old_id idl
      → IsReady i j k old_id (written i j k old_id idl (merge.cell (suc i)))
  take-IsReady i j k old_id idl ready = record {
    total = omega (arith, ready.total);
    room = omega (arith, ready.room);
    inside = omega (arith, ready.inside);
    small = omega (arith, ready.small);
    ids = λ x p. ready.ids x (omega arith);
    sentinel = ground (arith, ready.sentinel);
    old = ground (arith, ready.total, ready.old);
  }

  shift-IsReady :
      (i j k old_id : ℕ) (idl : Idl)
      → IsReady (suc i) (suc j) (suc k) old_id idl
      → IsReady (suc i) j k (idl.cell j) (written i j k old_id idl old_id)
  shift-IsReady i j k old_id idl ready = record {
    total = omega (arith, ready.total);
    room = omega (arith, ready.room);
    inside = ready.inside;
    small = omega (arith, ready.small);
    ids = ready.ids;
    sentinel = ground (arith, ready.sentinel);
    old = ground (arith, ready.total);
  }

  -- from there on the loop puts the merge of what is left into the cells up to `k`
  pub merge_loop-Writes :
      (i j k old_id : ℕ) (idl : Idl)
      → IsReady i j k old_id idl
      → Writes idl k (out i j k old_id idl) (merge_loop merge i j k old_id idl)
  unfolding merge_loop merge_lists
  merge_loop-Writes zero j k old_id idl ready =
      let same : k ≡ j = omega (arith, ready.total) in
      (idl, refl, refl, λ x p. refl, ap (down idl.cell) same)
  merge_loop-Writes (suc i) j zero old_id idl ready = absurd (omega (arith, ready.total))
  merge_loop-Writes (suc i) zero (suc k) old_id idl ready =
      let v = merge.cell (suc i) in
      let next = written i zero k old_id idl v in
      let below : v ≤ old_id = omega (arith, ready.ids (suc i), ready.old, ready.sentinel) in
      Writes-cast
        (Writes-push idl k v _ _
          (merge_loop-Writes i zero k old_id next (take-IsReady i zero k old_id idl ready)))
        (ap (λ t. v ∷ t) (nil-merge_lists (down merge.cell i)))
        (loop-take merge i zero (suc k) old_id v idl (load-some merge (suc i) ready.inside) below
            ready.room
          ∙ ap (λ t. merge_loop merge i zero t old_id next) (dec64-suc k ready.small))
  merge_loop-Writes (suc i) (suc j) (suc k) old_id idl ready =
      let m = merge.cell (suc i) in
      let loaded : load merge (suc i) ≡ some m = load-some merge (suc i) ready.inside in
      let index = dec64-suc k ready.small in
      elim (Bool-cases (ltb (idl.cell (suc j)) m)) [
        | inl less ↦
            let next = written i j k old_id idl old_id in
            Writes-cast
              (Writes-push idl k old_id _ _ (
                merge_loop-Writes (suc i) j k (idl.cell j) next
                  (shift-IsReady i j k old_id idl ready)))
              (rw less (
                ap (λ t. t ∷ merge_lists (down next.cell j) (down merge.cell (suc i))) ready.old
                ∙ ap (λ t. idl.cell (suc j) ∷ merge_lists t (down merge.cell (suc i)))
                    (down-update idl.cell j (suc k) old_id (omega (arith, ready.total)))))
              (loop-shift merge i j (suc k) old_id m idl loaded (ground (arith, ready.old))
                  ready.room (omega (arith, ready.total))
                ∙ ap (λ t. merge_loop merge (suc i) j t (idl.cell j) next) index)
        | inr more ↦
            let next = written i j k old_id idl m in
            Writes-cast
              (Writes-push idl k m _ _ (
                merge_loop-Writes i (suc j) k old_id next
                  (take-IsReady i (suc j) k old_id idl ready)))
              (rw more (
                ap (λ t. m ∷ merge_lists t (down merge.cell i))
                  (down-update idl.cell (suc j) (suc k) m (omega (arith, ready.total)))))
              (loop-take merge i (suc j) (suc k) old_id m idl loaded (ground (arith, ready.old))
                  ready.room
                ∙ ap (λ t. merge_loop merge i (suc j) t old_id next) index)
      ]
