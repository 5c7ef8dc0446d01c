-- ===== src/Midl/Sort/Insertion.antt =====
-- One round of the insertion of `mdb_midl_sort` in midl.c.
use mathlib.Core.Path.{subst}
use native.Mathlib.Decide.{dec_le}
use lmdb_js.Prelude.{
  ℕ, zero, suc, ◌-◌, ◌≤◌, ◌<◌, ◌≡◌, refl, sym, ap, ◌∙◌, ◌⊎◌, inl, inr, true, false, Bool-cases,
  arith, ◌==◌, leb, update, some, store, load-some, store-some, ◌>>=◌, Ends, ends, Ends-bind,
  Ends-map, same-==, one_if, update-at, update-away,
}
use lmdb_js.Midl.Idl.{Idl}
use lmdb_js.Midl.Sort.{shift, insert_one}
use lmdb_js.Midl.Sort.Counts.{occurs, occurs-update}

-- `f` with the cell `i + 1` free for `a` has become `g` with the cell `i' + 1` free
record Shifted (n a i : ℕ) (f : ℕ → ℕ) (i' : ℕ) (g : ℕ → ℕ) : Type 0 where
  ends_low : i' ≤ i
  before : (q : ℕ) → q ≤ i' → g q ≡ f q
  between : (q : ℕ) → i' < q → q ≤ i → (g (suc q) ≡ f q) × (f q < a)
  behind : (q : ℕ) → suc i < q → g q ≡ f q
  stops : (i' ≡ 0) ⊎ (a ≤ f i')
  counts : (v : ℕ) → occurs v (update g (suc i') a) n ≡ occurs v (update f (suc i) a) n

abbrev ShiftedIn : ℕ → ℕ → ℕ → Idl → ℕ × Idl → Type 0
ShiftedIn n a i b (i', b') = (b'.cap ≡ b.cap) × Shifted n a i b.cell i' b'.cell

Shifted-here : (n a i : ℕ) (f : ℕ → ℕ) → (i ≡ 0) ⊎ (a ≤ f i) → Shifted n a i f i f
Shifted-here n a i f stops = record {
  ends_low = omega arith;
  before = λ q h. refl;
  between = λ q p s. absurd (omega (arith, p, s));
  behind = λ q h. refl;
  stops = stops;
  counts = λ v. refl;
}

Shifted-step :
    (n a i : ℕ) (f : ℕ → ℕ) (i' : ℕ) (g : ℕ → ℕ)
    → suc (suc i) ≤ n
    → f (suc i) < a
    → Shifted n a i (update f (suc (suc i)) (f (suc i))) i' g
    → Shifted n a (suc i) f i' g
Shifted-step n a i f i' g small less s =
    let f1 = update f (suc (suc i)) (f (suc i)) in
    let kept : (q : ℕ) → q ≤ suc i → f1 q ≡ f q = λ q h. ground (arith, h) in
    record {
      ends_low = omega (arith, s.ends_low);
      before = λ q h. s.before q h ∙ kept q (omega (arith, h, s.ends_low));
      between = λ q p h. elim (Bool-cases (q == suc i)) [
        | inl same ↦
            let e = same-== q (suc i) same in
            let moved : g (suc (suc i)) ≡ f (suc i) =
              s.behind (suc (suc i)) (omega arith) ∙ update-at f (suc (suc i)) (f (suc i)) in
            (ap (λ k. g (suc k)) e ∙ moved ∙ sym (ap f e), omega (arith, less, ap f e))
        | inr away ↦
            let (moved, small') = s.between q p (ground (arith, away, h)) in
            let same = kept q h in (moved ∙ same, omega (arith, small', same))
      ];
      behind = λ q h. s.behind q (omega (arith, h)) ∙ ground (arith, h);
      stops = elim s.stops [
        | inl z ↦ inl z
        | inr le ↦ inr (omega (arith, le, kept i' (omega (arith, s.ends_low))))
      ];
      counts = λ v.
          let first = occurs-update v f (suc (suc i)) (f (suc i)) n (omega arith) small in
          let second = occurs-update v f1 (suc i) a n (omega arith) (omega (arith, small)) in
          let whole = occurs-update v f (suc (suc i)) a n (omega arith) small in
          let at_i = ap (λ y. one_if (y == v)) (kept (suc i) (omega arith)) in
          omega (arith, s.counts v, first, second, whole, at_i);
    }

shift-stops :
    (a i : ℕ) (b : Idl) → suc i ≤ b.cap → a ≤ b.cell (suc i) → shift b a (suc i) ≡ some (suc i, b)
unfolding shift
shift-stops a i b fits le =
    let test : leb a (b.cell (suc i)) ≡ true = ground (arith, le) in
    rw (load-some b (suc i) fits, ◌>>=◌, test) refl

shift-moves :
    (a i : ℕ) (b : Idl)
    → suc (suc i) ≤ b.cap
    → b.cell (suc i) < a
    → shift b a (suc i)
      ≡ shift (record { cap = b.cap; cell = update b.cell (suc (suc i)) (b.cell (suc i)) }) a i
unfolding shift
shift-moves a i b fits less =
    let test : leb a (b.cell (suc i)) ≡ false = ground (arith, less) in
    rw
      (
        load-some b (suc i) (omega (arith, fits)),
        ◌>>=◌,
        test,
        store-some b (suc (suc i)) (b.cell (suc i)) fits,
      )
      refl

shift-Shifted :
    (n a i : ℕ) (b : Idl) → suc i ≤ n → n ≤ b.cap → Ends (ShiftedIn n a i b) (shift b a i)
unfolding shift
shift-Shifted n a zero b small fits = ends (refl, Shifted-here n a zero b.cell (inl refl))
shift-Shifted n a (suc i) b small fits = elim (dec_le a (b.cell (suc i))) [
  | yes le ↦
      subst (Ends (ShiftedIn n a (suc i) b))
        (sym (shift-stops a i b (omega (arith, small, fits)) le))
        (ends (refl, Shifted-here n a (suc i) b.cell (inr le)))
  | no more ↦
      let less : b.cell (suc i) < a = omega (arith, more) in
      let b1 : Idl = record { cap = b.cap; cell = update b.cell (suc (suc i)) (b.cell (suc i)) } in
      subst (Ends (ShiftedIn n a (suc i) b))
        (sym (shift-moves a i b (omega (arith, small, fits)) less))
        (Ends-map (shift-Shifted n a i b1 (omega (arith, small)) fits)
          (λ (i', b') (cap, s). (cap, Shifted-step n a i b.cell i' b'.cell small less s)))
]

-- `f` with its cell j put in among the cells before it has become `g`, at the cell p
pub record Inserted (n j : ℕ) (f : ℕ → ℕ) (p : ℕ) (g : ℕ → ℕ) : Type 0 where
  pub low : 1 ≤ p
  pub high : p ≤ j
  pub here : g p ≡ f j
  pub before : (q : ℕ) → q < p → g q ≡ f q
  pub between : (q : ℕ) → p ≤ q → q < j → (g (suc q) ≡ f q) × (f q < f j)
  pub behind : (q : ℕ) → j < q → g q ≡ f q
  pub stops : (p ≡ 1) ⊎ (f j ≤ f (p - 1))
  pub counts : (v : ℕ) → occurs v g n ≡ occurs v f n

abbrev pub InsertedIn : ℕ → ℕ → Idl → Idl → Type 0
InsertedIn n j b b' = (b'.cap ≡ b.cap) × ((p : ℕ) × Inserted n j b.cell p b'.cell)

pub suc_sub_one : (i : ℕ) → suc i - 1 ≡ i
suc_sub_one i = omega arith

Shifted-Inserted :
    (n i : ℕ) (f : ℕ → ℕ) (i' : ℕ) (g : ℕ → ℕ)
    → suc i ≤ n
    → Shifted n (f (suc i)) i f i' g
    → Inserted n (suc i) f (suc i') (update g (suc i') (f (suc i)))
Shifted-Inserted n i f i' g small s =
    let a = f (suc i) in
    let h = update g (suc i') a in
    record {
      low = omega arith;
      high = omega (arith, s.ends_low);
      here = update-at g (suc i') a;
      before =
          λ q lt. update-away g (suc i') a q (ground (arith, lt)) ∙ s.before q (omega (arith, lt));
      between = λ q le lt.
          let (moved, less) = s.between q (omega (arith, le)) (omega (arith, lt)) in
          (update-away g (suc i') a (suc q) (ground (arith, le)) ∙ moved, less);
      behind = λ q lt. update-away g (suc i') a q (ground (arith, lt, s.ends_low)) ∙ s.behind q lt;
      stops = elim s.stops [
        | inl z ↦ inl (omega (arith, z))
        | inr le ↦ inr (omega (arith, le, ap f (suc_sub_one i')))
      ];
      counts = λ v.
          let same = occurs-update v f (suc i) a n (omega arith) small in
          omega (arith, s.counts v, same);
    }

pub insert_one-Inserted :
    (n i : ℕ) (b : Idl)
    → suc i ≤ n
    → n ≤ b.cap
    → Ends (InsertedIn n (suc i) b) (insert_one b (suc i))
unfolding insert_one
insert_one-Inserted n i b small fits =
    let a = b.cell (suc i) in
    let rest : (k : ℕ)
        → k ≡ i
        → Ends (InsertedIn n (suc i) b) (shift b a k >>= λ (i', b'). store b' (suc i') a) =
      λ k same.
        subst (λ k. Ends (InsertedIn n (suc i) b) (shift b a k >>= λ (i', b'). store b' (suc i') a))
          (sym same)
          (Ends-bind (shift-Shifted n a i b small fits) (λ (i', b') (cap, s).
            subst (Ends (InsertedIn n (suc i) b))
              (sym (store-some b' (suc i') a (omega (arith, cap, s.ends_low, small, fits))))
              (ends (cap, (suc i', Shifted-Inserted n i b.cell i' b'.cell small s))))) in
    subst
      (λ o.
        Ends (InsertedIn n (suc i) b)
          (o >>= λ a. shift b a (suc i - 1) >>= λ (i', b'). store b' (suc i') a))
      (sym (load-some b (suc i) (omega (arith, small, fits)))) (rest (suc i - 1) (suc_sub_one i))
