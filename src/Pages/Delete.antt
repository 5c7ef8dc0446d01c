-- ===== src/Pages/Delete.antt =====
-- `mdb_node_del` of mdb.c leaves the other nodes of a page as they are.
use native.Mathlib.Decide.{ℕ_discrete}
use lmdb_js.Prelude.{
  ℕ, zero, suc, ◌+◌, ◌-◌, ◌^◌, ◌≤◌, ◌<◌, ◌≡◌, ◌≢◌, ◌⊎◌, inl, inr, refl, ap, ◌∙◌, some, List, ◌∷◌,
  arith, ltb, ◌==◌, if◌then◌else◌, update, true, false,
}
use lmdb_js.OrderedBinary.Words.{bytes}
use lmdb_js.Pages.Search.{PageKind, branch, leaf, leaf2}
use lmdb_js.Pages.Nodes.{
  Body, u16, num_keys, half_at, node_bytes_count, lift_offset, slots_loop, move_bytes, node_del,
}

-- where the nodes that stay stood before
abbrev pub behind : ℕ → ℕ → ℕ
behind indx k = if ltb k indx then k else k + 1

-- `j` goes with `i` in the loop over the slots
abbrev InStep : ℕ → ℕ → ℕ → Type 0
InStep indx i j = ((i ≤ indx) × (j ≡ i)) ⊎ ((indx < i) × (i ≡ j + 1))

module _ (indx ptr sz : ℕ) where
  slots_loop-kept :
      (n i j k : ℕ) (f : ℕ → ℕ)
      → InStep indx i j
      → (k < j → slots_loop indx ptr sz n i j f k ≡ f k)
        × (j ≤ k
            → behind indx k < i + n
            → slots_loop indx ptr sz n i j f k ≡ lift_offset ptr sz (f (behind indx k)))
  unfolding slots_loop
  slots_loop-kept zero i j k f s = (λ p. refl, λ p q. absurd (ground arith))
  slots_loop-kept (suc n) i j k f s = elim (ℕ_discrete i indx) [
    | yes same ↦
        let test : (i == indx) ≡ true = ground arith in
        let (low, high) = slots_loop-kept n (i + 1) j k f (inr (omega arith, ground arith)) in
        rw test (low, λ p q. high p (omega arith))
    | no other ↦
        let test : (i == indx) ≡ false = ground arith in
        let g = update f j (lift_offset ptr sz (f i)) in
        let (low, high) = slots_loop-kept n (i + 1) (j + 1) k g (ground arith) in
        rw test (
          λ p. low (omega arith) ∙ ground arith,
          λ p q. elim (ℕ_discrete k j) [
            | yes first ↦
                let from : behind indx k ≡ i = ground arith in
                low (omega arith) ∙ (rw from (ground arith))
            | no later ↦
                let apart : behind indx k ≢ j = λ e. ground arith in
                high (omega arith) (omega arith) ∙ ground arith
          ],
        )
  ]

pub bytes-congr :
    (f g : ℕ → ℕ) (p q n : ℕ)
    → ((x : ℕ) → x < n → f (p + x) ≡ g (q + x))
    → bytes f p n ≡ bytes g q n
bytes-congr f g p q zero h = refl
bytes-congr f g p q (suc n) h =
    let here : f p ≡ g q = ground (arith, h 0) in
    let rest : bytes f (p + 1) n ≡ bytes g (q + 1) n = bytes-congr f g (p + 1) (q + 1) n (λ x r.
      let e : p + 1 + x ≡ p + (x + 1) = omega arith in
      let e' : q + 1 + x ≡ q + (x + 1) = omega arith in rw (e, e') (h (x + 1) (omega arith))) in
    ap (λ t. t ∷ bytes f (p + 1) n) here ∙ ap (λ t. g q ∷ t) rest

module _ (f g : ℕ → ℕ) (p q : ℕ) (h : (x : ℕ) → x < 8 → f (p + x) ≡ g (q + x)) where
  half_at-congr : (x : ℕ) → x < 7 → half_at f (p + x) ≡ half_at g (q + x)
  half_at-congr x r =
      let e : p + x + 1 ≡ p + (x + 1) = omega arith in
      let e' : q + x + 1 ≡ q + (x + 1) = omega arith in rw (e, e') (omega (arith, h x, h (x + 1)))

  -- the size of a node shows in its header
  header-congr :
      (half_at f p ≡ half_at g q)
      × (half_at f (p + 2) ≡ half_at g (q + 2))
      × (half_at f (p + 4) ≡ half_at g (q + 4))
      × (half_at f (p + 6) ≡ half_at g (q + 6))
  header-congr =
      let zero_p : p + 0 ≡ p = omega arith in
      let zero_q : q + 0 ≡ q = omega arith in
      (
        rw (zero_p, zero_q) at (half_at-congr 0 (omega arith)),
        half_at-congr 2 (omega arith),
        half_at-congr 4 (omega arith),
        half_at-congr 6 (omega arith),
      )

  pub node_bytes_count-congr :
      (kind : PageKind) → node_bytes_count kind f p ≡ node_bytes_count kind g q
  unfolding node_bytes_count
  node_bytes_count-congr branch = let (size, high, flags, key) = header-congr in rw key refl
  node_bytes_count-congr leaf =
      let (size, high, flags, key) = header-congr in rw (size, high, flags, key) refl
  node_bytes_count-congr leaf2 =
      let (size, high, flags, key) = header-congr in rw (size, high, flags, key) refl

-- the page that is left, if it is not a `leaf2` page
abbrev removed : PageKind → ℕ → Body → Body
removed kind indx b =
    let ptr = b.slot indx in
    let sz = node_bytes_count kind b.mem ptr in
    record {
      lower = u16 (b.lower + 2 ^ 16 - 2);
      upper = u16 (b.upper + sz);
      slot = slots_loop indx ptr sz (num_keys b) 0 0 b.slot;
      mem = move_bytes b.mem (b.upper + sz) b.upper (ptr - b.upper);
    }

node_del-run :
    (kind : PageKind) (indx ksize : ℕ) (b : Body)
    → kind ≢ leaf2
    → indx < num_keys b
    → node_del kind indx ksize b ≡ some (removed kind indx b)
unfolding node_del
node_del-run branch indx ksize b k h =
    let test : ltb indx (num_keys b) ≡ true = ground arith in rw test refl
node_del-run leaf indx ksize b k h =
    let test : ltb indx (num_keys b) ≡ true = ground arith in rw test refl
node_del-run leaf2 indx ksize b k h = absurd (k refl)

module _ (kind : PageKind) (b : Body) where
  abbrev pub node_end : ℕ → ℕ
  node_end i = b.slot i + node_bytes_count kind b.mem (b.slot i)

  -- the nodes are apart, behind `upper` and before 2 ^ 16, and have room for their headers
  pub record IsPage : Type 0 where
    pub slots : b.lower < 2 ^ 16
    pub above : (i : ℕ) → i < num_keys b → b.upper ≤ b.slot i
    pub header : (i : ℕ) → i < num_keys b → b.slot i + 8 ≤ node_end i
    pub small : (i : ℕ) → i < num_keys b → node_end i < 2 ^ 16
    pub apart :
        (i j : ℕ)
        → i < num_keys b
        → j < num_keys b
        → i ≢ j
        → (node_end i ≤ b.slot j) ⊎ (node_end j ≤ b.slot i)

  -- the bytes of a node: header, key and data
  abbrev pub node_at : ℕ → List ℕ
  node_at i = bytes b.mem (b.slot i) (node_bytes_count kind b.mem (b.slot i))

  module _ (v : IsPage) (indx : ℕ) (h : indx < num_keys b) where
    abbrev ptr : ℕ
    ptr = b.slot indx

    abbrev sz : ℕ
    sz = node_bytes_count kind b.mem ptr

    abbrev moved : ℕ → ℕ
    moved = move_bytes b.mem (b.upper + sz) b.upper (ptr - b.upper)

    moved-kept :
        (i x : ℕ)
        → i < num_keys b
        → i ≢ indx
        → x < node_bytes_count kind b.mem (b.slot i)
        → moved (lift_offset ptr sz (b.slot i) + x) ≡ b.mem (b.slot i + x)
    moved-kept i x q other r = ground (
      arith,
      v.above i q,
      v.above indx h,
      v.header i q,
      v.small i q,
      v.small indx h,
      v.header indx h,
      v.apart i indx q h other,
    )

    node-kept :
        (i : ℕ)
        → i < num_keys b
        → i ≢ indx
        → let p = lift_offset ptr sz (b.slot i) in
          bytes moved p (node_bytes_count kind moved p) ≡ node_at i
    node-kept i q other =
        let p = lift_offset ptr sz (b.slot i) in
        let count : node_bytes_count kind moved p ≡ node_bytes_count kind b.mem (b.slot i) =
          node_bytes_count-congr moved b.mem p (b.slot i)
            (λ x r. moved-kept i x q other (omega (arith, v.header i q))) kind in
        rw count (bytes-congr moved b.mem p (b.slot i) _ (λ x r. moved-kept i x q other r))

    -- A page that is not of fixed-size keys, whose nodes are apart, stand behind `upper`,
    -- have room for their headers and end before 2 ^ 16: taking off the node at an index does
    -- not fail, leaves one key less, and each node that stays has the bytes that it had, in
    -- the same order.
    pub node_del-keeps :
        (ksize : ℕ)
        → kind ≢ leaf2
        → (r : Body) × (node_del kind indx ksize b ≡ some r)
          × (num_keys r ≡ num_keys b - 1)
          × ((k : ℕ)
              → k < num_keys r
              → bytes r.mem (r.slot k) (node_bytes_count kind r.mem (r.slot k))
                ≡ node_at (behind indx k))
    node_del-keeps ksize ordinary =
        let fewer : num_keys (removed kind indx b) ≡ num_keys b - 1 = omega (arith, v.slots) in
        (
          removed kind indx b,
          node_del-run kind indx ksize b ordinary h,
          fewer,
          λ k q.
              let inside : behind indx k < num_keys b = ground (arith, fewer) in
              let other : behind indx k ≢ indx = λ e. ground arith in
              let (low, high) =
                slots_loop-kept indx ptr sz (num_keys b) 0 0 k b.slot (inl (omega arith, refl)) in
              ap (λ p. bytes moved p (node_bytes_count kind moved p))
                (high (omega arith) (omega arith))
              ∙ node-kept (behind indx k) inside other,
        )
