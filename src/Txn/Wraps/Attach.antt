-- ===== src/Txn/Wraps/Attach.antt =====
-- The end of the constructor of `TxnWrap` (src/txn.cpp) and what an `EnvWrap` tracks.
use lmdb_js.Prelude.{
  ℕ, update, ◌≡◌, refl, ◌∙◌, inl, inr, true, false, Bool-cases, Option-cases, Option, none, some,
  List, [], ◌∷◌, ◌++◌, ◌==◌, All, arith,
}
use lmdb_js.Txn.State.{Handle, TxnWrap, Env, Host}
use lmdb_js.Txn.Wraps.{
  is_read_only, points_to, Outcome, code, closed, already_open, attach, begin_wrap, set_wrap,
}
use lmdb_js.Txn.Wraps.Tracking.{
  is_reader, Absent, Distinct, IsNoReader, IsTracked, IsFresh, ==_sym, Readers-update,
}

All-snoc {ℓ κ} :
    {A : Type ℓ} (P : A → Type κ) (xs : List A) (x : A) → All P xs → P x → All P (xs ++ (x ∷ []))
All-snoc P [] x all p = (p, tt)
All-snoc P (y ∷ ys) x (q, all) p = (q, All-snoc P ys x all p)

Distinct-snoc : (is : List ℕ) (i : ℕ) → Distinct is → Absent i is → Distinct (is ++ (i ∷ []))
unfolding Distinct
Distinct-snoc [] i d a = (tt, tt)
Distinct-snoc (j ∷ js) i (b, d) (other, a) =
    (All-snoc (λ k. (k == j) ≡ false) js i b (==_sym i j ∙ other), Distinct-snoc js i d a)

IsNoReader-begin :
    (wrap : ℕ → TxnWrap) (i : ℕ) (w : TxnWrap) (p : Option ℕ)
    → points_to i p ≡ false
    → IsNoReader wrap p
    → IsNoReader (update wrap i w) p
IsNoReader-begin wrap i w none other gone = tt
IsNoReader-begin wrap i w (some j) other gone = rw (==_sym j i ∙ other) gone

-- the parents, when a wrap that no pointer leads to is set
update-parents :
    (wrap : ℕ → TxnWrap) (i : ℕ) (w : TxnWrap) (k : ℕ)
    → ((j : ℕ) → points_to i (wrap j).parent ≡ false)
    → ((j : ℕ) → IsNoReader wrap (wrap j).parent)
    → points_to i w.parent ≡ false
    → IsNoReader wrap w.parent
    → IsNoReader (update wrap i w) (update wrap i w k).parent
update-parents wrap i w k unparented parents other gone = elim (Bool-cases (k == i)) [
  | inl same ↦ rw same (IsNoReader-begin wrap i w w.parent other gone)
  | inr differs ↦ rw differs (IsNoReader-begin wrap i w (wrap k).parent (unparented k) (parents k))
]

refl-== : (i : ℕ) → (i == i) ≡ true
refl-== i = ground arith

abbrev made : Option Handle → Option ℕ → ℕ → TxnWrap
made txn parent flags = record { txn = txn; parent = parent; flags = flags; attached = true }

made-writer :
    (txn : Option Handle) (parent : Option ℕ) (flags : ℕ)
    → is_read_only flags ≡ false
    → is_reader (made txn parent flags) ≡ false
made-writer none parent flags writes = refl
made-writer (some h) parent flags writes = writes

-- a wrap that no pointer leads to is set, and is no open reader
pub set_wrap-IsTracked :
    (i : ℕ) (w : TxnWrap) (e : Env)
    → IsTracked e
    → IsFresh i e
    → is_reader w ≡ false
    → w.parent ≡ (e.wrap i).parent
    → IsTracked (set_wrap i w e)
set_wrap-IsTracked i w e tracked fresh gone same = record {
  listed = Readers-update e.wrap i w e.read_txns fresh.unlisted tracked.listed;
  distinct = tracked.distinct;
  current = IsNoReader-begin e.wrap i w e.current_write fresh.no_current tracked.current;
  parents = λ k.
      update-parents e.wrap i w k fresh.no_parent tracked.parents (rw same (fresh.no_parent i))
        (rw same (tracked.parents i));
}

module _ (host : Host) where
  pub attach-writer :
      (i : ℕ) (txn : Option Handle) (parent : Option ℕ) (flags : ℕ) (e : Env)
      → IsTracked e
      → IsFresh i e
      → points_to i parent ≡ false
      → IsNoReader e.wrap parent
      → is_read_only flags ≡ false
      → IsTracked (attach host i txn parent flags e)
  unfolding attach
  attach-writer i txn parent flags e tracked fresh other gone writes =
      let w = made txn parent flags in
      rw writes (record {
        listed = Readers-update e.wrap i w e.read_txns fresh.unlisted tracked.listed;
        distinct = tracked.distinct;
        current = rw (refl-== i) (made-writer txn parent flags writes);
        parents = λ k. update-parents e.wrap i w k fresh.no_parent tracked.parents other gone;
      })

  attach-reader :
      (i : ℕ) (h : Handle) (parent : Option ℕ) (flags : ℕ) (e : Env)
      → IsTracked e
      → IsFresh i e
      → points_to i parent ≡ false
      → IsNoReader e.wrap parent
      → is_read_only flags ≡ true
      → IsTracked (attach host i (some h) parent flags e)
  unfolding attach
  attach-reader i h parent flags e tracked fresh other gone reads =
      let w = made (some h) parent flags in
      rw reads (record {
        listed =
            All-snoc (λ j. is_reader (update e.wrap i w j) ≡ true) e.read_txns i
              (Readers-update e.wrap i w e.read_txns fresh.unlisted tracked.listed)
              (rw (refl-== i) reads);
        distinct = Distinct-snoc e.read_txns i tracked.distinct fresh.unlisted;
        current = IsNoReader-begin e.wrap i w e.current_write fresh.no_current tracked.current;
        parents = λ k. update-parents e.wrap i w k fresh.no_parent tracked.parents other gone;
      })

  -- what a call that returns or throws leaves
  unfoldable pub after : Env → Outcome → Env
  after e (code n e') = e'
  after e closed = e
  after e already_open = e

  pub attach-IsTracked :
      (i : ℕ) (h : Handle) (parent : Option ℕ) (flags : ℕ) (e : Env)
      → IsTracked e
      → IsFresh i e
      → points_to i parent ≡ false
      → IsNoReader e.wrap parent
      → IsTracked (attach host i (some h) parent flags e)
  attach-IsTracked i h parent flags e tracked fresh other gone =
      elim (Bool-cases (is_read_only flags)) [
        | inl reads ↦ attach-reader i h parent flags e tracked fresh other gone reads
        | inr writes ↦ attach-writer i (some h) parent flags e tracked fresh other gone writes
      ]

  begin_wrap-refused :
      (i : ℕ) (o : Option Handle) (parent : Option ℕ) (flags : ℕ) (e e0 : Env)
      → host.begin e o flags ≡ none
      → after e0 (begin_wrap host i o parent flags e) ≡ e
  unfolding begin_wrap after
  begin_wrap-refused i o parent flags e e0 refused = rw (refused, after) refl

  begin_wrap-begun :
      (i : ℕ) (o : Option Handle) (parent : Option ℕ) (flags : ℕ) (e e0 : Env) (h : Handle)
      → host.begin e o flags ≡ some h
      → after e0 (begin_wrap host i o parent flags e) ≡ attach host i (some h) parent flags e
  unfolding begin_wrap after
  begin_wrap-begun i o parent flags e e0 h begun = rw (begun, after) refl

  pub begin_wrap-IsTracked :
      (i : ℕ) (o : Option Handle) (parent : Option ℕ) (flags : ℕ) (e e0 : Env)
      → IsTracked e
      → IsFresh i e
      → points_to i parent ≡ false
      → (((h : Handle) × (host.begin e o flags ≡ some h)) → IsNoReader e.wrap parent)
      → IsTracked (after e0 (begin_wrap host i o parent flags e))
  begin_wrap-IsTracked i o parent flags e e0 tracked fresh other gone =
      elim (Option-cases (host.begin e o flags)) [
        | inl refused ↦ rw (begin_wrap-refused i o parent flags e e0 refused) tracked
        | inr (h, begun) ↦
            rw (begin_wrap-begun i o parent flags e e0 h begun)
              (attach-IsTracked i h parent flags e tracked fresh other (gone (h, begun)))
      ]
