-- ===== src/Midl/Sort/Ready.antt =====
-- What the loop of `mdb_midl_sort` in midl.c needs to sort a segment, and what it has done then.
use lmdb_js.Prelude.{
  ℕ, zero, suc, ◌+◌, ◌-◌, ◌*◌, ◌^◌, ◌≤◌, ◌<◌, ◌≡◌, refl, true, false, arith, leb, Option, some, [],
  ◌∷◌, length,
}
use lmdb_js.Midl.Idl.{Idl}
use lmdb_js.Midl.Sort.{Stack, sort_loop}
use lmdb_js.Midl.Sort.Moved.{MovedIn, Falls, IsAbove, IsAbove-Moved}
use lmdb_js.Midl.Sort.Split.{IsSplit}
use lmdb_js.Midl.Sort.Segments.{
  IsSplit-left, IsSplit-right, IsAbove-left, IsAbove-right, MovedIn-wider,
}

-- the loop goes on with the segments that wait
abbrev pub resume : ℕ → Idl → Stack → Option Idl
resume fuel b [] = some b
resume fuel b ((l, r) ∷ rest) = sort_loop fuel b l r rest

-- the segment is sorted, and the loop resumes with fuel left
pub record Sorts (n l r fuel : ℕ) (b : Idl) (stack : Stack) : Type 0 where
  pub left : ℕ
  pub list : Idl
  pub moved : MovedIn n l r b list
  pub falls : Falls l r list.cell
  pub run : sort_loop fuel b l r stack ≡ resume left list stack
  pub spent : fuel ≤ left + 2 * (suc r - l) + 1

-- a segment with fewer IDs than this needs at most k more places on the stack
pub bound : ℕ → ℕ
bound zero = 9
bound (suc k) = bound k + bound k

pub bound-31 : (c : ℕ) → c < 2 ^ 30 → c < bound 31
unfolding bound
bound-31 c h = omega (arith, h)

-- a wide segment leaves a place on the stack
pub wide-place :
    (k size : ℕ)
    → size < bound k
    → 9 ≤ size
    → (k' : ℕ) × (k ≡ suc k') × (size < bound k' + bound k')
unfolding bound
wide-place zero size small wide = absurd (omega (arith, small, wide))
wide-place (suc k) size small wide = (k, refl, small)

-- what the loop needs to sort a segment
pub record IsReady (n m l r k fuel : ℕ) (b : Idl) (stack : Stack) : Type 0 where
  pub low : 1 ≤ l
  pub high : r ≤ n
  pub near : l ≤ suc r
  pub size : suc r ≤ l + m
  pub room : n ≤ b.cap
  pub above : IsAbove l r b.cell
  pub depth : k + length stack ≡ 31
  pub small : suc r - l < bound k
  pub enough : 2 * (suc r - l) + 1 ≤ fuel

module _ (n m l r k k' fuel : ℕ) (b b1 : Idl) (stack : Stack) (i j a : ℕ)
    (e : IsReady n (suc m) l r k (suc fuel) b stack) (moved : MovedIn n l r b b1)
    (h : IsSplit l r a i j b1.cell) (same : k ≡ suc k')
    (half : suc r - l < bound k' + bound k') where
  above1 : IsAbove l r b1.cell
  above1 = IsAbove-Moved moved.moved e.above

  module _ (smaller : leb (j - l) (suc r - i) ≡ true) where
    pub left_first : IsReady n m l (j - 1) k' fuel b1 ((i, r) ∷ stack)
    left_first = record {
      low = e.low;
      high = omega (arith, e.high, h.crossed, h.high);
      near = omega (arith, h.low);
      size = omega (arith, e.size, h.low, h.crossed, h.high);
      room = omega (arith, e.room, moved.cap);
      above = IsAbove-left l r a i j b1.cell h above1;
      depth = omega (arith, e.depth, same);
      small = ground (arith, half, smaller, h.low, h.crossed, h.high);
      enough = omega (arith, e.enough, h.low, h.crossed, h.high);
    }

    pub right_last :
        (x : Sorts n l (j - 1) fuel b1 ((i, r) ∷ stack)) → IsReady n m i r k x.left x.list stack
    right_last x =
        let s1 = IsSplit-left n l r a i j b1.cell x.list.cell h x.moved.moved in
        let wider =
          MovedIn-wider {l = l} {r = r} (omega arith) (omega (arith, h.crossed, h.high)) x.moved in
        record {
          low = omega (arith, e.low, h.low, h.crossed);
          high = e.high;
          near = omega (arith, h.high);
          size = omega (arith, e.size, h.low, h.crossed);
          room = omega (arith, e.room, moved.cap, x.moved.cap);
          above = IsAbove-right l r a i j x.list.cell s1 (IsAbove-Moved wider.moved above1);
          depth = e.depth;
          small = omega (arith, e.small, h.low, h.crossed);
          enough = omega (arith, e.enough, x.spent, h.low, h.crossed, h.high);
        }

  module _ (smaller : leb (j - l) (suc r - i) ≡ false) where
    pub right_first : IsReady n m i r k' fuel b1 ((l, j - 1) ∷ stack)
    right_first = record {
      low = omega (arith, e.low, h.low, h.crossed);
      high = e.high;
      near = omega (arith, h.high);
      size = omega (arith, e.size, h.low, h.crossed);
      room = omega (arith, e.room, moved.cap);
      above = IsAbove-right l r a i j b1.cell h above1;
      depth = omega (arith, e.depth, same);
      small = ground (arith, half, smaller, h.low, h.crossed, h.high);
      enough = omega (arith, e.enough, h.low, h.crossed, h.high);
    }

    pub left_last :
        (x : Sorts n i r fuel b1 ((l, j - 1) ∷ stack)) → IsReady n m l (j - 1) k x.left x.list stack
    left_last x =
        let s1 = IsSplit-right n l r a i j b1.cell x.list.cell h x.moved.moved in
        let wider =
          MovedIn-wider {l = l} {r = r} (omega (arith, h.low, h.crossed)) (omega arith) x.moved in
        record {
          low = e.low;
          high = omega (arith, e.high, h.crossed, h.high);
          near = omega (arith, h.low);
          size = omega (arith, e.size, h.low, h.crossed, h.high);
          room = omega (arith, e.room, moved.cap, x.moved.cap);
          above = IsAbove-left l r a i j x.list.cell s1 (IsAbove-Moved wider.moved above1);
          depth = e.depth;
          small = omega (arith, e.small, h.low, h.crossed, h.high);
          enough = omega (arith, e.enough, x.spent, h.low, h.crossed, h.high);
        }
