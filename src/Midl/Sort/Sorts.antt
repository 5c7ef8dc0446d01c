-- ===== src/Midl/Sort/Sorts.antt =====
-- `mdb_midl_sort` of midl.c sorts: each segment in turn, and then those that wait.
use mathlib.Core.Path.{subst}
use native.Mathlib.Decide.{dec_lt}
use lmdb_js.Prelude.{
  ℕ, zero, suc, ◌+◌, ◌-◌, ◌*◌, ◌^◌, ◌≤◌, ◌<◌, ◌≡◌, refl, sym, ap, inl, inr, Bool-cases, arith, leb,
  [], ◌∷◌, length, Ends, ends, Ends-inv,
}
use lmdb_js.Midl.Idl.{Idl, count}
use lmdb_js.Midl.Append.{IsValid}
use lmdb_js.Midl.Search.{IsDescending}
use lmdb_js.Midl.Sort.{Stack, midl_sort}
use lmdb_js.Midl.Sort.Counts.{occurs}
use lmdb_js.Midl.Sort.Loop.{loop-small, loop-first, loop-second, both-first, both-second}
use lmdb_js.Midl.Sort.Moved.{Falls}
use lmdb_js.Midl.Sort.Rounds.{segment-Falls}
use lmdb_js.Midl.Sort.Split.{split-IsSplit}
use lmdb_js.Midl.Sort.Ready.{
  Sorts, bound-31, wide-place, IsReady, left_first, right_last, right_first, left_last,
}

module _ (n : ℕ) where
  small-Sorts :
      (m l r k fuel : ℕ) (b : Idl) (stack : Stack)
      → IsReady n m l r k (suc fuel) b stack
      → r < l + 8
      → Sorts n l r (suc fuel) b stack
  small-Sorts m l r k fuel b stack e small =
      let (b', run, (moved, falls)) =
        Ends-inv (segment-Falls n l r e.low e.high b e.room e.above) in
      record {
        left = fuel;
        list = b';
        moved = moved;
        falls = falls;
        run = loop-small fuel b l r stack b' small run;
        spent = omega arith;
      }

  segment-Sorts :
      (m l r k fuel : ℕ) (b : Idl) (stack : Stack)
      → IsReady n m l r k fuel b stack
      → Sorts n l r fuel b stack
  segment-Sorts m l r k zero b stack e = absurd (omega (arith, e.enough))
  segment-Sorts zero l r k (suc fuel) b stack e =
      small-Sorts zero l r k fuel b stack e (omega (arith, e.size))
  segment-Sorts (suc m) l r k (suc fuel) b stack e = elim (dec_lt r (l + 8)) [
    | yes small ↦ small-Sorts (suc m) l r k fuel b stack e small
    | no more ↦
        let wide : l + 8 ≤ r = omega (arith, more) in
        let ((i, j, b1), run, (moved, (a, h))) =
          Ends-inv (split-IsSplit n l r e.low e.high wide b e.room) in
        let (k', same, half) = wide-place k (suc r - l) e.small (omega (arith, wide)) in
        let place : length stack < 31 = omega (arith, e.depth, same) in
        elim (Bool-cases (leb (j - l) (suc r - i))) [
          | inl first ↦
              let x =
                segment-Sorts m l (j - 1) k' fuel b1 ((i, r) ∷ stack)
                  (left_first n m l r k k' fuel b b1 stack i j a e moved h same half first) in
              let y =
                segment-Sorts m i r k x.left x.list stack
                  (right_last n m l r k k' fuel b b1 stack i j a e moved h same half first x) in
              both-first n l r a i j fuel b b1 stack moved h
                (loop-first fuel b l r stack i j b1 wide run place first) x y
          | inr second ↦
              let x =
                segment-Sorts m i r k' fuel b1 ((l, j - 1) ∷ stack)
                  (right_first n m l r k k' fuel b b1 stack i j a e moved h same half second) in
              let y =
                segment-Sorts m l (j - 1) k x.left x.list stack
                  (left_last n m l r k k' fuel b b1 stack i j a e moved h same half second x) in
              both-second n l r a i j fuel b b1 stack moved h
                (loop-second fuel b l r stack i j b1 wide run place second) x y
        ]
  ]

-- `b'` is the list `b` in descending order: the same block size and count, each ID as often as
-- before, and nothing changed behind the IDs
abbrev pub IsSortOf : Idl → Idl → Type 0
IsSortOf b b' =
    (b'.cap ≡ b.cap)
    × (count b' ≡ count b)
    × IsDescending b'
    × ((v : ℕ) → occurs v b'.cell (count b) ≡ occurs v b.cell (count b))
    × ((i : ℕ) → count b < i → b'.cell i ≡ b.cell i)

add_zero : (i : ℕ) → i + 0 ≡ i
add_zero i = omega arith

add_suc : (i d : ℕ) → i + suc d ≡ suc (i + d)
add_suc i d = omega arith

upto : (i j : ℕ) → i < j → i + (j - i) ≡ j
upto i j h = omega (arith, h)

-- cells that fall from one to the next fall
Falls-descending :
    (n : ℕ) (f : ℕ → ℕ) → Falls 1 n f → (i d : ℕ) → 1 ≤ i → i + d ≤ n → f (i + d) ≤ f i
Falls-descending n f falls i zero low high = omega (arith, ap f (add_zero i))
Falls-descending n f falls i (suc d) low high =
    let rest = Falls-descending n f falls i d low (omega (arith, high)) in
    let last = falls (i + d) (omega (arith, low)) (omega (arith, high)) in
    omega (arith, rest, last, ap f (add_suc i d))

module _ (b : Idl) (v : IsValid b) (small : count b < 2 ^ 30) where
  start : IsReady (count b) (count b) 1 (count b) 31 (2 * count b + 2) b []
  start = record {
    low = omega arith;
    high = omega arith;
    near = omega arith;
    size = omega arith;
    room = v.0;
    above = λ p q low less le high. absurd (omega (arith, low, less));
    depth = refl;
    small = bound-31 (suc (count b) - 1) (omega (arith, small));
    enough = omega arith;
  }

  -- On a valid list of fewer than 2 ^ 30 IDs, in any order and with IDs that occur more than
  -- once, `mdb_midl_sort` ends without a fault: no access leaves the list's block, the 31
  -- places for segments that wait are enough, and so is the fuel of two rounds for each ID and
  -- two more. The list is then in descending order, with the same count and block size, has
  -- each ID as often as before, and is unchanged behind the IDs.
  pub midl_sort-IsSortOf : Ends (IsSortOf b) (midl_sort b)
  unfolding midl_sort
  midl_sort-IsSortOf =
      let n = count b in
      let s = segment-Sorts n n 1 n 31 (2 * n + 2) b [] start in
      let count_kept : s.list.cell 0 ≡ n = s.moved.moved.keeps 0 (inl (omega arith)) in
      subst (Ends (IsSortOf b)) (sym s.run) (
        ends (
          s.moved.cap,
          count_kept,
          (λ i j low less high.
              let d =
                Falls-descending n s.list.cell s.falls i (j - i) low
                  (omega (arith, high, less, count_kept)) in
              omega (arith, d, ap s.list.cell (upto i j less))),
          s.moved.moved.counts,
          λ i behind. s.moved.moved.keeps i (inr behind),
        ))
