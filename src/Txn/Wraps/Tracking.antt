-- ===== src/Txn/Wraps/Tracking.antt =====
-- The read transactions that an `EnvWrap` lists, while wraps of src/txn.cpp are made and ended.
use lmdb_js.Prelude.{
  ℕ, update, ◌≡◌, refl, sym, ap, ◌∙◌, ◌⊎◌, inl, inr, Bool, true, false, Bool-cases, Option-cases,
  Option, none, some, List, [], ◌∷◌, ◌==◌, ◌&&◌, All, arith, same-==,
}
use lmdb_js.Txn.State.{TxnWrap, Env}
use lmdb_js.Txn.Write.{end_txn}
use lmdb_js.Txn.Wraps.{is_read_only, points_to, erase, remove_from_env, end_wrap}

-- an open read transaction of its environment
abbrev pub is_reader : TxnWrap → Bool
is_reader w = elim w.txn [ none ↦ false | some h ↦ w.attached && is_read_only w.flags ]

abbrev pub Readers : (ℕ → TxnWrap) → List ℕ → Type 0
Readers wrap is = All (λ i. is_reader (wrap i) ≡ true) is

abbrev pub Absent : ℕ → List ℕ → Type 0
Absent i js = All (λ j. (j == i) ≡ false) js

unfoldable pub Distinct : List ℕ → Type 0
Distinct [] = Unit
Distinct (i ∷ is) = Absent i is × Distinct is

abbrev pub IsNoReader : (ℕ → TxnWrap) → Option ℕ → Type 0
IsNoReader wrap none = Unit
IsNoReader wrap (some i) = is_reader (wrap i) ≡ false

-- the list has open read transactions, each once; what is or becomes `currentWriteTxn` is none
pub record IsTracked (e : Env) : Type 0 where
  pub listed : Readers e.wrap e.read_txns
  pub distinct : Distinct e.read_txns
  pub current : IsNoReader e.wrap e.current_write
  pub parents : (k : ℕ) → IsNoReader e.wrap (e.wrap k).parent

-- no pointer to the wrap
pub record IsFresh (i : ℕ) (e : Env) : Type 0 where
  pub unlisted : Absent i e.read_txns
  pub no_current : points_to i e.current_write ≡ false
  pub no_parent : (k : ℕ) → points_to i (e.wrap k).parent ≡ false

differ :
    (wrap : ℕ → TxnWrap) (i j : ℕ)
    → is_reader (wrap i) ≡ false
    → is_reader (wrap j) ≡ true
    → (j == i) ≡ false
differ wrap i j gone y = elim (Bool-cases (j == i)) [
  | inl same ↦ absurd (cc (gone, y, ap (λ k. is_reader (wrap k)) (same-== j i same)))
  | inr other ↦ other
]

pub Readers-Absent :
    (wrap : ℕ → TxnWrap) (i : ℕ) (js : List ℕ)
    → is_reader (wrap i) ≡ false
    → Readers wrap js
    → Absent i js
Readers-Absent wrap i [] gone all = tt
Readers-Absent wrap i (j ∷ js) gone (y, all) =
    (differ wrap i j gone y, Readers-Absent wrap i js gone all)

All-erase : (P : ℕ → Type 0) (i : ℕ) (js : List ℕ) → All P js → All P (erase i js)
All-erase P i [] all = tt
All-erase P i (j ∷ js) (y, all) = elim (Bool-cases (i == j)) [
  | inl same ↦ rw (same, erase) all
  | inr other ↦ rw (other, erase) (y, All-erase P i js all)
]

Distinct-erase : (i : ℕ) (js : List ℕ) → Distinct js → Distinct (erase i js)
unfolding Distinct
Distinct-erase i [] d = tt
Distinct-erase i (j ∷ js) (a, d) = elim (Bool-cases (i == j)) [
  | inl same ↦ rw (same, erase) d
  | inr other ↦ rw (other, erase) (All-erase (λ k. (k == j) ≡ false) i js a, Distinct-erase i js d)
]

pub ==_sym : (i j : ℕ) → (i == j) ≡ (j == i)
==_sym i j = ground arith

Absent-erase : (i : ℕ) (js : List ℕ) → Distinct js → Absent i (erase i js)
unfolding Distinct
Absent-erase i [] d = tt
Absent-erase i (j ∷ js) (a, d) = elim (Bool-cases (i == j)) [
  | inl same ↦ rw (same, erase) (rw (same-== i j same) a)
  | inr other ↦ rw (other, erase) (==_sym j i ∙ other, Absent-erase i js d)
]

-- a wrap that is not listed may change
pub Readers-update :
    (wrap : ℕ → TxnWrap) (i : ℕ) (w : TxnWrap) (js : List ℕ)
    → Absent i js
    → Readers wrap js
    → Readers (update wrap i w) js
Readers-update wrap i w [] a all = tt
Readers-update wrap i w (j ∷ js) (other, a) (y, all) =
    (rw (other, update) y, Readers-update wrap i w js a all)

-- a pointer to no reader is one still when the wrap has become no reader
pub IsNoReader-end :
    (wrap : ℕ → TxnWrap) (i : ℕ) (w : TxnWrap) (p : Option ℕ)
    → is_reader w ≡ false
    → IsNoReader wrap p
    → IsNoReader (update wrap i w) p
IsNoReader-end wrap i w none gone y = tt
IsNoReader-end wrap i w (some j) gone y = elim (Bool-cases (j == i)) [
  | inl same ↦ rw (same, update) gone
  | inr other ↦ rw (other, update) y
]

-- Each wrap but `i` is as before, `i` is no reader now and has its parent still.
pub record Ended (i : ℕ) (e e' : Env) : Type 0 where
  pub added : e'.ended ≡ end_txn (e.wrap i).txn e.ended
  pub wraps : e'.wrap ≡ update e.wrap i (record (e.wrap i) { txn = none; attached = false })
  pub reads : e'.read_txns ≡ erase i e.read_txns
  pub writes : (e'.current_write ≡ e.current_write) ⊎ (e'.current_write ≡ (e.wrap i).parent)

pub erase-Absent : (i : ℕ) (js : List ℕ) → Absent i js → erase i js ≡ js
erase-Absent i [] a = refl
erase-Absent i (j ∷ js) (other, a) =
    rw (==_sym i j ∙ other, erase) (ap (λ ks. j ∷ ks) (erase-Absent i js a))

unlisted-reader :
    (i : ℕ) (e : Env)
    → IsTracked e
    → is_reader (e.wrap i) ≡ false
    → erase i e.read_txns ≡ e.read_txns
unlisted-reader i e tracked gone =
    erase-Absent i e.read_txns (Readers-Absent e.wrap i e.read_txns gone tracked.listed)

detached-reader : (w : TxnWrap) → w.attached ≡ false → is_reader w ≡ false
detached-reader w detached = elim (Option-cases w.txn) [
  | inl closed_already ↦ rw closed_already refl
  | inr (h, opened) ↦ rw (opened, detached) refl
]

current-reader :
    (i : ℕ) (wrap : ℕ → TxnWrap) (p : Option ℕ)
    → points_to i p ≡ true
    → IsNoReader wrap p
    → is_reader (wrap i) ≡ false
current-reader i wrap none points gone = absurd (cc points)
current-reader i wrap (some j) points gone = rw (same-== i j points) gone

-- A wrap that is detached, or the current write transaction, is no reader.
pub end_wrap-Ended : (i : ℕ) (e : Env) → IsTracked e → Ended i e (end_wrap i e)
unfolding end_wrap remove_from_env
end_wrap-Ended i e tracked = elim (Bool-cases ((e.wrap i).attached)) [
  | inl attached ↦ elim (Bool-cases (points_to i e.current_write)) [
    | inl points ↦ record {
      added = rw (attached, points) refl;
      wraps = rw (attached, points) refl;
      reads =
          rw (attached, points)
            (sym (
              unlisted-reader i e tracked
                (current-reader i e.wrap e.current_write points tracked.current)));
      writes = inr (rw (attached, points) refl);
    }
    | inr other ↦ record {
      added = rw (attached, other) refl;
      wraps = rw (attached, other) refl;
      reads = rw (attached, other) refl;
      writes = inl (rw (attached, other) refl);
    }
  ]
  | inr detached ↦ record {
    added = rw detached refl;
    wraps = rw detached refl;
    reads = rw detached (sym (unlisted-reader i e tracked (detached-reader (e.wrap i) detached)));
    writes = inl (rw detached refl);
  }
]

-- parents are kept
parent-end :
    (wrap : ℕ → TxnWrap) (i k : ℕ)
    → (update wrap i (record (wrap i) { txn = none; attached = false }) k).parent ≡ (wrap k).parent
parent-end wrap i k = elim (Bool-cases (k == i)) [
  | inl same ↦ rw (same, same-== k i same) refl
  | inr other ↦ rw other refl
]

pub end_wrap-IsTracked : (i : ℕ) (e : Env) → IsTracked e → IsTracked (end_wrap i e)
end_wrap-IsTracked i e tracked =
    let ended = end_wrap-Ended i e tracked in
    let w = record (e.wrap i) { txn = none; attached = false } in
    let stays : (p : Option ℕ) → IsNoReader e.wrap p → IsNoReader (update e.wrap i w) p =
      λ p. IsNoReader-end e.wrap i w p refl in
    record {
      listed =
          rw (ended.wraps, ended.reads)
            (Readers-update e.wrap i w (erase i e.read_txns)
              (Absent-erase i e.read_txns tracked.distinct)
              (All-erase (λ j. is_reader (e.wrap j) ≡ true) i e.read_txns tracked.listed));
      distinct = rw ended.reads (Distinct-erase i e.read_txns tracked.distinct);
      current = rw ended.wraps (elim ended.writes [
        | inl same ↦ rw same (stays e.current_write tracked.current)
        | inr parent ↦ rw parent (stays (e.wrap i).parent (tracked.parents i))
      ]);
      parents = λ k.
          rw (ended.wraps, parent-end e.wrap i k) (stays (e.wrap k).parent (tracked.parents k));
    }
