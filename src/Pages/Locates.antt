-- ===== src/Pages/Locates.antt =====
-- `mdb_node_search` of mdb.c finds the place of a key in an ordered page.
use native.Mathlib.Decide.{ℕ_discrete}
use lmdb_js.Prelude.{
  ℕ, zero, suc, ◌+◌, ◌-◌, ◌/◌, ◌≤◌, ◌<◌, ◌≡◌, ◌⊎◌, inl, inr, refl, true, false, ◌&&◌, Ordering,
  Option, none, some, arith, ltb, leb, if◌then◌else◌, Bool-cases, Ordering-cases,
}
use lmdb_js.OrderedBinary.{Val}
use lmdb_js.Pages.Search.{
  Cmp, Page, first, node_loop, Place, settle_index, is_eq, place, probe_page, node_search,
}

-- A key at the index that was found, or an index with the smaller keys before it and the greater
-- ones from it on; a node only if there is one.
abbrev pub IsPlace : (ℕ → Option Ordering) → ℕ → ℕ → Place → Type 0
IsPlace probe low n r =
    (low ≤ r.index)
    × (r.index ≤ n)
    × (r.node ≡ (if leb n r.index then none else some r.index))
    × (((r.exact ≡ true) × (r.index < n) × (probe r.index ≡ some Ordering.eq))
        ⊎ ((r.exact ≡ false)
            × ((i : ℕ) → low ≤ i → i < r.index → probe i ≡ some Ordering.gt)
            × ((i : ℕ) → r.index ≤ i → i < n → probe i ≡ some Ordering.lt)))

module _ (probe : ℕ → Option Ordering) (low n : ℕ) where
  -- the comparisons fall along the page
  pub record IsMonotone : Type 0 where
    pub inside : (i : ℕ) → low ≤ i → i < n → (o : Ordering) × (probe i ≡ some o)
    pub below :
        (i j : ℕ)
        → low ≤ i
        → i < j
        → j < n
        → probe i ≡ some Ordering.lt
        → probe j ≡ some Ordering.lt
    pub above :
        (i j : ℕ)
        → low ≤ i
        → i < j
        → j < n
        → probe j ≡ some Ordering.gt
        → probe i ≡ some Ordering.gt

  -- what the loop knows between `l` and `h`
  record Knows (l h i : ℕ) (rc : Ordering) : Type 0 where
    from : low ≤ l
    range : l ≤ h
    to : h ≤ n
    before : (j : ℕ) → low ≤ j → j < l → probe j ≡ some Ordering.gt
    behind : (j : ℕ) → h ≤ j → j < n → probe j ≡ some Ordering.lt
    at_end : l ≡ h → (settle_index i rc ≡ l) × ((is_eq rc && ltb 0 n) ≡ false)

  module _ (ordered : IsMonotone) where
    module _ {l h i : ℕ} {rc : Ordering} (k : Knows l h i rc) (m : ℕ) (here : m ≡ (l + h - 1) / 2)
        (wide : l < h) where
      up-Knows : probe m ≡ some Ordering.gt → Knows (m + 1) h m Ordering.gt
      up-Knows e = record {
        from = omega (arith, k.from);
        range = omega arith;
        to = k.to;
        before = λ j p q. elim (ℕ_discrete j m) [
          | yes same ↦ rw same e
          | no other ↦ ordered.above j m p (omega arith) (omega (arith, k.to)) e
        ];
        behind = k.behind;
        at_end = λ _. (refl, refl);
      }

      down-Knows : probe m ≡ some Ordering.lt → Knows l m m Ordering.lt
      down-Knows e = record {
        from = k.from;
        range = omega arith;
        to = omega (arith, k.to);
        before = k.before;
        behind = λ j p q. elim (ℕ_discrete j m) [
          | yes same ↦ rw same e
          | no other ↦ ordered.below m j (omega (arith, k.from)) (omega arith) q e
        ];
        at_end = λ s. (omega arith, refl);
      }

    ended-IsPlace :
        (l h i : ℕ) (rc : Ordering) → Knows l h i rc → l ≡ h → IsPlace probe low n (place n i rc)
    unfolding place
    ended-IsPlace l h i rc k e =
        let (settled, inexact) = k.at_end e in
        rw (settled, inexact)
          (
            k.from,
            omega (arith, k.range, k.to),
            refl,
            inr (refl, k.before, λ j p q. k.behind j (omega arith) q),
          )

    node_loop-IsPlace :
        (fuel l h i : ℕ) (rc : Ordering)
        → h ≤ l + fuel
        → Knows l h i rc
        → (r : ℕ × Ordering) × (node_loop probe fuel l h i rc ≡ some r)
          × IsPlace probe low n (place n r.0 r.1)
    unfolding node_loop place
    node_loop-IsPlace zero l h i rc f k =
        let closed : ltb l h ≡ false = ground arith in
        rw closed ((i, rc), refl, ended-IsPlace l h i rc k (omega (arith, k.range)))
    node_loop-IsPlace (suc fuel) l h i rc f k = elim (Bool-cases (ltb l h)) [
      | inr closed ↦ rw closed ((i, rc), refl, ended-IsPlace l h i rc k (ground (arith, k.range)))
      | inl wide ↦
          let m = (l + h - 1) / 2 in
          let less : l < h = ground arith in
          let (o, e) = ordered.inside m (omega (arith, k.from)) (omega (arith, k.to)) in
          elim (Ordering-cases o) [
            | inl lt ↦
                let found : probe m ≡ some Ordering.lt = rw lt at e in
                rw (wide, found, node_loop)
                  (node_loop-IsPlace fuel l m m Ordering.lt (omega arith)
                    (down-Knows k m refl less found))
            | inr (inl eq) ↦
                let found : probe m ≡ some Ordering.eq = rw eq at e in
                let some_key : ltb 0 n ≡ true = ground (arith, k.to) in
                let in_page : m < n = omega (arith, k.to) in
                rw (wide, found, node_loop)
                  (
                    (m, Ordering.eq),
                    refl,
                    (omega (arith, k.from), omega arith, refl, inl (some_key, in_page, found)),
                  )
            | inr (inr gt) ↦
                let found : probe m ≡ some Ordering.gt = rw gt at e in
                rw (wide, found, node_loop)
                  (node_loop-IsPlace fuel (m + 1) h m Ordering.gt (omega arith)
                    (up-Knows k m refl less found))
          ]
    ]

-- a branch page has two keys or more
abbrev pub IsSearchable : Page → Type 0
IsSearchable p = (p.num_keys ≡ 0) × (first p ≡ 0) ⊎ (first p < p.num_keys)

-- On a page that is an empty leaf or has keys to look at, and whose keys compare in order with
-- the key looked for, the search ends without a fault at a key equal to it, or at the index where
-- the smaller keys end and the greater ones begin. It answers a node only if the index is on the
-- page, and says rightly whether the key was found.
pub node_search-IsPlace :
    (cmp : Cmp) (p : Page) (key : Val)
    → IsSearchable p
    → IsMonotone (probe_page cmp p key) (first p) p.num_keys
    → (r : Place) × (node_search cmp p key ≡ some r)
      × IsPlace (probe_page cmp p key) (first p) p.num_keys r
unfolding node_search
node_search-IsPlace cmp p key searchable ordered =
    let ((i, rc), run, found) =
      node_loop-IsPlace (probe_page cmp p key) (first p) p.num_keys ordered p.num_keys (first p)
        p.num_keys 0 Ordering.eq (omega arith)
        (record {
          from = omega arith;
          range = ground (arith, searchable);
          to = omega arith;
          before = λ j a b. absurd (omega arith);
          behind = λ j a b. absurd (omega arith);
          at_end = λ e. ground (arith, searchable);
        }) in
    (place p.num_keys i rc, rw run refl, found)
