-- ===== src/Txn/Wraps/Stray.antt =====
-- `cleanupStrayTxns` of src/env.cpp, and what ends leave of the current read transaction.
use mathlib.Core.Path.{subst}
use lmdb_js.Prelude.{
  ℕ, zero, suc, ◌≤◌, update, ◌≡◌, refl, ap, ◌∙◌, inl, inr, true, false, Option-cases, Option, none,
  some, List, [], ◌∷◌, ◌==◌, length, arith,
}
use lmdb_js.Txn.State.{Handle, TxnWrap, Env}
use lmdb_js.Txn.Write.{end_txn}
use lmdb_js.Txn.Wraps.{erase, end_wrap, stray_loop, cleanup_stray}
use lmdb_js.Txn.Wraps.Tracking.{
  IsTracked, IsNoReader, Readers-Absent, erase-Absent, end_wrap-Ended, Distinct, end_wrap-IsTracked,
  Absent, is_reader,
}

-- the transactions of the wraps, ended one after the other
abbrev pub ended_by : (ℕ → TxnWrap) → List ℕ → List Handle → List Handle
ended_by wrap [] hs = hs
ended_by wrap (i ∷ is) hs = ended_by wrap is (end_txn (wrap i).txn hs)

-- the loop has ended the wraps `is`
record Cleaned (is : List ℕ) (e e' : Env) : Type 0 where
  none_left : e'.read_txns ≡ []
  once : e'.ended ≡ ended_by e.wrap is e.ended

ended_by-update :
    (wrap : ℕ → TxnWrap) (i : ℕ) (w : TxnWrap) (js : List ℕ) (hs : List Handle)
    → Absent i js
    → ended_by (update wrap i w) js hs ≡ ended_by wrap js hs
ended_by-update wrap i w [] hs a = refl
ended_by-update wrap i w (j ∷ js) hs (other, a) =
    rw (other, update, ended_by) (ended_by-update wrap i w js (end_txn (wrap j).txn hs) a)

refl-== : (i : ℕ) → (i == i) ≡ true
refl-== i = ground arith

-- the first reader is ended
end_first :
    (i : ℕ) (is : List ℕ) (e : Env)
    → IsTracked e
    → e.read_txns ≡ i ∷ is
    → (end_wrap i e).read_txns ≡ is
end_first i is e tracked first =
    (end_wrap-Ended i e tracked).reads ∙ rw (first, erase, refl-== i) refl

head-Absent : (i : ℕ) (is : List ℕ) (e : Env) → IsTracked e → e.read_txns ≡ i ∷ is → Absent i is
unfolding Distinct
head-Absent i is e tracked first = (subst (λ l. Distinct l) first tracked.distinct).0

-- the test of the loop
abbrev looped : (ℕ → Option Env) → Env → List ℕ → Option Env
looped more e [] = some e
looped more e (i ∷ is) = more i

stray_loop-end : (fuel : ℕ) (e : Env) → e.read_txns ≡ [] → stray_loop fuel e ≡ some e
unfolding stray_loop
stray_loop-end zero e list = ap (looped (λ i. none) e) list
stray_loop-end (suc fuel) e list = ap (looped (λ i. stray_loop fuel (end_wrap i e)) e) list

stray_loop-step :
    (fuel : ℕ) (i : ℕ) (is : List ℕ) (e : Env)
    → e.read_txns ≡ i ∷ is
    → stray_loop (suc fuel) e ≡ stray_loop fuel (end_wrap i e)
unfolding stray_loop
stray_loop-step fuel i is e list = ap (looped (λ j. stray_loop fuel (end_wrap j e)) e) list

ended_by-end :
    (i : ℕ) (is : List ℕ) (e : Env)
    → IsTracked e
    → Absent i is
    → ended_by (end_wrap i e).wrap is (end_wrap i e).ended ≡ ended_by e.wrap (i ∷ is) e.ended
ended_by-end i is e tracked absent =
    let ended = end_wrap-Ended i e tracked in
    rw (ended.wraps, ended.added)
      (ended_by-update e.wrap i (record (e.wrap i) { txn = none; attached = false }) is
        (end_txn (e.wrap i).txn e.ended) absent)

loop-Cleaned :
    (fuel : ℕ) (is : List ℕ) (e : Env)
    → IsTracked e
    → e.read_txns ≡ is
    → length is ≤ fuel
    → (e' : Env) × (stray_loop fuel e ≡ some e') × Cleaned is e e'
loop-Cleaned zero [] e tracked list enough =
    (e, stray_loop-end _ e list, record { none_left = list; once = refl })
loop-Cleaned (suc fuel) [] e tracked list enough =
    (e, stray_loop-end _ e list, record { none_left = list; once = refl })
loop-Cleaned zero (i ∷ is) e tracked list enough = absurd (omega arith)
loop-Cleaned (suc fuel) (i ∷ is) e tracked list enough =
    let (e', ran, cleaned) =
      loop-Cleaned fuel is (end_wrap i e) (end_wrap-IsTracked i e tracked)
        (end_first i is e tracked list) (omega (arith, enough)) in
    (
      e',
      stray_loop-step fuel i is e list ∙ ran,
      record {
        none_left = cleaned.none_left;
        once = cleaned.once ∙ ended_by-end i is e tracked (head-Absent i is e tracked list);
      },
    )

-- the transactions in the order in which they are ended
abbrev pub all_ended : Env → List Handle
all_ended e =
    ended_by e.wrap e.read_txns
      (elim (e.current_write) [ none ↦ e.ended | some i ↦ end_txn (e.wrap i).txn e.ended ])

abbrev pub Cleans : Env → Option Env → Type 0
Cleans e none = ⊥
Cleans e (some e') = (e'.read_txns ≡ []) × (e'.ended ≡ all_ended e)

-- the current write transaction, if there is one, is not among the readers
current-ended :
    (fuel : ℕ) (i : ℕ) (e : Env)
    → IsTracked e
    → is_reader (e.wrap i) ≡ false
    → length e.read_txns ≤ fuel
    → (e' : Env) × (stray_loop fuel (end_wrap i e) ≡ some e')
      × (e'.read_txns ≡ [])
      × (e'.ended ≡ ended_by e.wrap e.read_txns (end_txn (e.wrap i).txn e.ended))
current-ended fuel i e tracked gone enough =
    let absent = Readers-Absent e.wrap i e.read_txns gone tracked.listed in
    let ended = end_wrap-Ended i e tracked in
    let (e', ran, cleaned) =
      loop-Cleaned fuel e.read_txns (end_wrap i e) (end_wrap-IsTracked i e tracked)
        (ended.reads ∙ erase-Absent i e.read_txns absent) enough in
    (e', ran, cleaned.none_left, cleaned.once ∙ ended_by-end i e.read_txns e tracked absent)

-- On an environment whose lists are in order, the loop of `cleanupStrayTxns` ends after at most
-- as many rounds as there are readers, no reader is listed afterwards, and the current write
-- transaction and then each reader in the list's order has been ended, each one once.
pub cleanup_stray-Cleans :
    (fuel : ℕ) (e : Env) → IsTracked e → length e.read_txns ≤ fuel → Cleans e (cleanup_stray fuel e)
unfolding cleanup_stray
cleanup_stray-Cleans fuel e tracked enough = elim (Option-cases e.current_write) [
  | inl nothing ↦
      let (e', ran, cleaned) = loop-Cleaned fuel e.read_txns e tracked refl enough in
      rw (nothing, ran) (cleaned.none_left, cleaned.once)
  | inr (i, current) ↦
      let gone : is_reader (e.wrap i) ≡ false =
        subst (λ p. IsNoReader e.wrap p) current tracked.current in
      let (e', ran, none_left, once) = current-ended fuel i e tracked gone enough in
      rw (current, ran) (none_left, once)
]
