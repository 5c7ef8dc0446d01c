-- ===== src/Midl/Sort/Loop.antt =====
-- A round of the outer loop of `mdb_midl_sort` in midl.c, and the two parts after it.
use lmdb_js.Prelude.{
  ℕ, suc, ◌+◌, ◌-◌, ◌≤◌, ◌<◌, ◌≡◌, refl, ◌∙◌, inl, inr, true, false, arith, ltb, leb, some, [], ◌∷◌,
  length, ◌>>=◌,
}
use lmdb_js.Midl.Idl.{Idl}
use lmdb_js.Midl.Sort.{Stack, insert_all, split, sort_loop}
use lmdb_js.Midl.Sort.Moved.{MovedIn, MovedIn-trans}
use lmdb_js.Midl.Sort.Split.{IsSplit}
use lmdb_js.Midl.Sort.Ready.{resume, Sorts}
use lmdb_js.Midl.Sort.Segments.{
  MovedIn-wider, Falls-away, IsSplit-left, IsSplit-right, Falls-joined,
}

pub loop-small :
    (fuel : ℕ) (b : Idl) (l r : ℕ) (stack : Stack) (b' : Idl)
    → r < l + 8
    → insert_all b (suc l) (r - l) ≡ some b'
    → sort_loop (suc fuel) b l r stack ≡ resume fuel b' stack
unfolding sort_loop
loop-small fuel b l r [] b' small run =
    let test : ltb r (l + 8) ≡ true = ground (arith, small) in rw (test, run, ◌>>=◌) refl
loop-small fuel b l r ((l', r') ∷ rest) b' small run =
    let test : ltb r (l + 8) ≡ true = ground (arith, small) in rw (test, run, ◌>>=◌) refl

module _ (fuel : ℕ) (b : Idl) (l r : ℕ) (stack : Stack) (i j : ℕ) (b' : Idl) (wide : l + 8 ≤ r)
    (run : split b l r ≡ some (i, j, b')) (room : length stack < 31) where
  pub loop-first :
      leb (j - l) (suc r - i) ≡ true
      → sort_loop (suc fuel) b l r stack ≡ sort_loop fuel b' l (j - 1) ((i, r) ∷ stack)
  unfolding sort_loop
  loop-first smaller =
      let test : ltb r (l + 8) ≡ false = ground (arith, wide) in
      let pushed : leb 31 (length stack) ≡ false = ground (arith, room) in
      rw (test, run, ◌>>=◌, smaller, pushed) refl

  pub loop-second :
      leb (j - l) (suc r - i) ≡ false
      → sort_loop (suc fuel) b l r stack ≡ sort_loop fuel b' i r ((l, j - 1) ∷ stack)
  unfolding sort_loop
  loop-second smaller =
      let test : ltb r (l + 8) ≡ false = ground (arith, wide) in
      let pushed : leb 31 (length stack) ≡ false = ground (arith, room) in
      rw (test, run, ◌>>=◌, smaller, pushed) refl

-- the two parts of a split segment are sorted, in the one order or in the other
module _ (n l r a i j fuel : ℕ) (b b1 : Idl) (stack : Stack) (moved : MovedIn n l r b b1)
    (h : IsSplit l r a i j b1.cell) where
  pub both-first :
      sort_loop (suc fuel) b l r stack ≡ sort_loop fuel b1 l (j - 1) ((i, r) ∷ stack)
      → (x : Sorts n l (j - 1) fuel b1 ((i, r) ∷ stack)) → Sorts n i r x.left x.list stack
      → Sorts n l r (suc fuel) b stack
  both-first run x y =
      let s1 = IsSplit-left n l r a i j b1.cell x.list.cell h x.moved.moved in
      let s2 = IsSplit-right n l r a i j x.list.cell y.list.cell s1 y.moved.moved in
      record {
        left = y.left;
        list = y.list;
        moved = MovedIn-trans n l r moved (
            MovedIn-trans n l r
              (MovedIn-wider (omega arith) (omega (arith, h.crossed, h.high)) x.moved)
              (MovedIn-wider (omega (arith, h.low, h.crossed)) (omega arith) y.moved));
        falls =
            Falls-joined l r a i j y.list.cell s2
              (Falls-away y.moved.moved (inl (omega (arith, h.crossed, h.low))) x.falls) y.falls;
        run = run ∙ x.run ∙ y.run;
        spent = omega (arith, x.spent, y.spent, h.low, h.crossed, h.high);
      }

  pub both-second :
      sort_loop (suc fuel) b l r stack ≡ sort_loop fuel b1 i r ((l, j - 1) ∷ stack)
      → (x : Sorts n i r fuel b1 ((l, j - 1) ∷ stack)) → Sorts n l (j - 1) x.left x.list stack
      → Sorts n l r (suc fuel) b stack
  both-second run x y =
      let s1 = IsSplit-right n l r a i j b1.cell x.list.cell h x.moved.moved in
      let s2 = IsSplit-left n l r a i j x.list.cell y.list.cell s1 y.moved.moved in
      record {
        left = y.left;
        list = y.list;
        moved = MovedIn-trans n l r moved (
            MovedIn-trans n l r
              (MovedIn-wider (omega (arith, h.low, h.crossed)) (omega arith) x.moved)
              (MovedIn-wider (omega arith) (omega (arith, h.crossed, h.high)) y.moved));
        falls =
            Falls-joined l r a i j y.list.cell s2 y.falls
              (Falls-away y.moved.moved (inr (omega (arith, h.crossed, h.low))) x.falls);
        run = run ∙ x.run ∙ y.run;
        spent = omega (arith, x.spent, y.spent, h.low, h.crossed, h.high);
      }
