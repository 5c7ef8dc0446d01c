-- ===== src/Midl/Sort/Split.antt =====
-- The split of a segment in `mdb_midl_sort` of midl.c: median, partition, and the pivot in its place.
use mathlib.Core.Path.{subst}
use lmdb_js.Prelude.{
  ℕ, suc, ◌+◌, ◌≤◌, ◌<◌, ◌≡◌, refl, sym, ap, ◌∙◌, false, Bool-cases, inl, inr, arith, ◌==◌, update,
  Option, some, load, load-some, store-some, ◌>>=◌, Ends, ends, Ends-bind, same-==, update-at,
  update-away,
}
use lmdb_js.Midl.Idl.{Idl}
use lmdb_js.Midl.Sort.{partition, settle_median, split}
use lmdb_js.Midl.Sort.Counts.{swapped}
use lmdb_js.Midl.Sort.Moved.{MovedIn, MovedIn-trans, swapped-first}
use lmdb_js.Midl.Sort.Median.{HasPivot, choose_median-HasPivot, swap-MovedIn}
use lmdb_js.Midl.Sort.Partition.{IsBegun, IsParted, partition-Parted}

-- the cells before `j` are not smaller than `a`, those from `i` on are not greater, and `a` is between
pub record IsSplit (l r a i j : ℕ) (f : ℕ → ℕ) : Type 0 where
  pub low : l < j
  pub crossed : j < i
  pub high : i ≤ r
  pub left : (q : ℕ) → l ≤ q → q < j → a ≤ f q
  pub middle : (q : ℕ) → j ≤ q → q < i → f q ≡ a
  pub right : (q : ℕ) → i ≤ q → q ≤ r → f q ≤ a

-- the segment is split at some pivot
abbrev pub SplitIn : ℕ → ℕ → ℕ → Idl → ℕ × ℕ × Idl → Type 0
SplitIn n l r b (i, j, b') = MovedIn n l r b b' × ((a : ℕ) × IsSplit l r a i j b'.cell)

settle_median-some :
    (b : Idl) (l j a : ℕ)
    → suc l ≤ b.cap
    → j ≤ b.cap
    → b.cell (suc l) ≡ a
    → settle_median b l j a ≡ some (record { cap = b.cap; cell = swapped b.cell (suc l) j })
unfolding settle_median
settle_median-some b l j a l_high j_high pivot =
    let b' : Idl = record { cap = b.cap; cell = update b.cell (suc l) (b.cell j) } in
    let run : settle_median b l j (b.cell (suc l))
        ≡ some (record { cap = b.cap; cell = swapped b.cell (suc l) j }) =
      rw (load-some b j j_high, ◌>>=◌, store-some b (suc l) (b.cell j) l_high)
        (store-some b' j (b.cell (suc l)) j_high) in
    ap (settle_median b l j) (sym pivot) ∙ run

IsParted-IsSplit :
    (l r a i j : ℕ) (f : ℕ → ℕ) → IsParted l r a i j f → IsSplit l r a i j (swapped f (suc l) j)
IsParted-IsSplit l r a i j f h =
    let g = swapped f (suc l) j in
    let first : g (suc l) ≡ f j = swapped-first f (suc l) j in
    let second : g j ≡ f (suc l) = update-at (update f (suc l) (f j)) j (f (suc l)) in
    let kept : (q : ℕ) → (q == suc l) ≡ false → (q == j) ≡ false → g q ≡ f q = λ q p s.
      update-away (update f (suc l) (f j)) j (f (suc l)) q s ∙ update-away f (suc l) (f j) q p in
    record {
      low = h.low;
      crossed = h.crossed;
      high = h.high;
      left = λ q p s. elim (Bool-cases (q == suc l)) [
        | inl same ↦
            omega (
              arith,
              ap g (same-== q (suc l) same),
              first,
              h.left j (omega (arith, h.low)) h.crossed,
            )
        | inr away ↦
            omega (arith, kept q away (ground (arith, s)), h.left q p (omega (arith, s, h.crossed)))
      ];
      middle = λ q p s. elim (Bool-cases (q == j)) [
        | inl same ↦ omega (arith, ap g (same-== q j same), second, h.pivot)
        | inr away ↦ omega (
          arith,
          kept q (ground (arith, away, p, h.low)) away,
          h.left q (omega (arith, p, h.low)) s,
          h.right q (ground (arith, away, p)) (omega (arith, s, h.high)),
        )
      ];
      right = λ q p s. omega (
        arith,
        kept q (ground (arith, p, h.low, h.crossed)) (ground (arith, p, h.crossed)),
        h.right q (omega (arith, p, h.crossed)) s,
      );
    }

HasPivot-IsBegun :
    (l r : ℕ) (f : ℕ → ℕ) → l + 8 ≤ r → HasPivot l r f → IsBegun l r (f (suc l)) (suc l) r f
HasPivot-IsBegun l r f wide h = record {
  low = omega arith;
  below = omega (arith, wide);
  ordered = omega (arith, wide);
  inner = omega (arith, wide);
  high = omega arith;
  left = λ q p s. elim (Bool-cases (q == l)) [
    | inl same ↦ omega (arith, ap f (same-== q l same), h.left)
    | inr away ↦ omega (arith, ap f (same-== q (suc l) (ground (arith, away, p, s))))
  ];
  right = λ q p s. omega (arith, ap f (same-== q r (ground (arith, p, s))), h.right);
  pivot = refl;
}

module _ (n l r : ℕ) (low : 1 ≤ l) (high : r ≤ n) (wide : l + 8 ≤ r) where
  -- the partition of a list whose median is chosen
  partition-IsSplit :
      (k : ℕ) (b b1 : Idl)
      → n ≤ b1.cap
      → b1.cap ≡ k
      → MovedIn n l r b b1
      → HasPivot l r b1.cell
      → Ends (SplitIn n l r b) (
          load b1 (suc l) >>= λ a. partition (suc k) b1 a (suc l) r >>= λ (i, j, b2).
          settle_median b2 l j a >>= λ b3. some (i, j, b3))
  partition-IsSplit k b b1 room1 same moved1 pivot =
      let rest : ℕ → Option (ℕ × ℕ × Idl) = λ a. partition (suc k) b1 a (suc l) r >>= λ (i, j, b2).
      settle_median b2 l j a >>= λ b3. some (i, j, b3) in
      subst (λ o. Ends (SplitIn n l r b) (o >>= rest))
        (sym (load-some b1 (suc l) (omega (arith, wide, high, room1))))
        (Ends-bind
          (partition-Parted n l r (b1.cell (suc l)) low high (suc k) (suc l) r b1
            (omega (arith, high, room1, same)) room1 (HasPivot-IsBegun l r b1.cell wide pivot))
          (λ (i, j, b2) (moved2, parted).
            let room2 : n ≤ b2.cap = omega (arith, room1, moved2.cap) in
            let j_high : j ≤ r = omega (arith, parted.crossed, parted.high) in
            let moved3 =
              swap-MovedIn n l r low high b2 room2 (suc l) j (omega arith) (omega (arith, wide))
                (omega (arith, parted.low)) j_high in
            subst (λ o. Ends (SplitIn n l r b) (o >>= λ b3. some (i, j, b3)))
              (sym (
                settle_median-some b2 l j (b1.cell (suc l)) (omega (arith, wide, high, room2))
                  (omega (arith, j_high, high, room2)) parted.pivot))
              (ends (
                MovedIn-trans n l r (MovedIn-trans n l r moved1 moved2) moved3,
                (b1.cell (suc l), IsParted-IsSplit l r (b1.cell (suc l)) i j b2.cell parted),
              ))))

  pub split-IsSplit : (b : Idl) → n ≤ b.cap → Ends (SplitIn n l r b) (split b l r)
  unfolding split
  split-IsSplit b room =
      Ends-bind (choose_median-HasPivot n l r low high wide b room) (λ b1 (moved1, pivot).
        partition-IsSplit b.cap b b1 (omega (arith, room, moved1.cap)) moved1.cap moved1 pivot)
