-- ===== src/Txn/Wraps/Begin.antt =====
-- `TxnWrap::begin` of src/txn.cpp, which `beginTxn` of src/env.cpp calls without V8.
use Prim.Native.Nat.{bit_and}
use lmdb_js.Prelude.{
  ℕ, ◌≡◌, ◌⊎◌, inl, inr, refl, ap, ◌∙◌, true, false, Bool-cases, Option-cases, Option, none, some,
  List, [], ◌∷◌, ◌++◌, ◌==◌, arith, if◌then◌else◌, ◌>>=◌,
}
use lmdb_js.Txn.State.{Handle, Tracked, TxnWrap, Env, Host}
use lmdb_js.Txn.Write.{begin_or, begin_write, current_txn, acquire}
use lmdb_js.Txn.Wraps.{is_read_only, set_wrap, attach}
use lmdb_js.Txn.Wraps.Tracking.{is_reader, IsTracked, IsFresh}
use lmdb_js.Txn.Wraps.Attach.{set_wrap-IsTracked, attach-IsTracked}

-- the transaction of `writeTxn`
abbrev pub tracked_txn : List Tracked → Option Handle
tracked_txn [] = none
tracked_txn (t ∷ ts) = t.txn

-- the wrap `i` belongs to the environment
abbrev pub started : ℕ → ℕ → Env → Env
started i flags e = set_wrap i (record (e.wrap i) { flags = flags; attached = true }) e

writer-gone : (w : TxnWrap) → is_read_only w.flags ≡ false → is_reader w ≡ false
writer-gone w writes = elim (Option-cases w.txn) [
  | inl shut ↦ rw shut refl
  | inr (h, opened) ↦ elim (Bool-cases w.attached) [
    | inl mine ↦ rw (opened, mine) writes
    | inr loose ↦ rw (opened, loose) refl
  ]
]

-- what readers and writers are kept in
record SameWraps (e e' : Env) : Type 0 where
  wraps : e'.wrap ≡ e.wrap
  readers : e'.read_txns ≡ e.read_txns
  writer : e'.current_write ≡ e.current_write

SameWraps-IsTracked : (e e' : Env) → SameWraps e e' → IsTracked e → IsTracked e'
SameWraps-IsTracked e e' s t = record {
  listed = rw (s.wraps, s.readers) t.listed;
  distinct = rw s.readers t.distinct;
  current = rw (s.wraps, s.writer) t.current;
  parents = λ k. rw s.wraps (t.parents k);
}

SameWraps-IsFresh : (i : ℕ) (e e' : Env) → SameWraps e e' → IsFresh i e → IsFresh i e'
SameWraps-IsFresh i e e' s f = record {
  unlisted = rw s.readers f.unlisted;
  no_current = rw s.writer f.no_current;
  no_parent = λ k. rw s.wraps (f.no_parent k);
}

started-IsFresh : (i flags : ℕ) (e : Env) → IsFresh i e → IsFresh i (started i flags e)
started-IsFresh i flags e f = record {
  unlisted = f.unlisted;
  no_current = f.no_current;
  no_parent = λ k. elim (Bool-cases (k == i)) [
    | inl same ↦ rw same (f.no_parent i)
    | inr other ↦ rw other (f.no_parent k)
  ];
}

started-IsTracked :
    (i flags : ℕ) (e : Env)
    → IsTracked e
    → IsFresh i e
    → is_read_only flags ≡ false
    → IsTracked (started i flags e)
started-IsTracked i flags e t f writes =
    let w : TxnWrap = record (e.wrap i) { flags = flags; attached = true } in
    set_wrap-IsTracked i w e t f (writer-gone w writes) refl

started-flags : (i flags : ℕ) (e : Env) → ((started i flags e).wrap i).flags ≡ flags
started-flags i flags e = let same : (i == i) ≡ true = ground arith in rw same refl

module _ (host : Host) where
  abbrev pub begin_read : ℕ → ℕ → Env → Env
  begin_read i flags e =
      let txn = begin_or host (started i flags e) none flags (e.wrap i).txn in
      set_wrap i (record (e.wrap i) { txn = txn; flags = flags; attached = true })
        (record e { read_txns = e.read_txns ++ (i ∷ []); current_read = txn })

  -- `TxnWrap::begin`
  unfoldable pub begin_wrapped : ℕ → ℕ → Env → Option Env
  begin_wrapped i flags e =
      if is_read_only flags
      then some (begin_read i flags e)
      else begin_write host flags (started i flags e) >>= λ e'.
          some (set_wrap i (record (e'.wrap i) { txn = tracked_txn e'.write_txns }) e')

  -- after the method; a thread that waits for itself changes nothing
  abbrev pub begun : Env → Option Env → Env
  begun e none = e
  begun e (some e') = e'

  -- A wrap that `beginTxn` has made, where no pointer leads; and for a reader LMDB begins the
  -- transaction.
  abbrev pub IsBeginning : ℕ → ℕ → Env → Type 0
  IsBeginning i flags e =
      IsFresh i e
      × ((is_read_only flags ≡ false)
          ⊎ ((h : Handle) × (host.begin (started i flags e) none (bit_and flags 0xf0000) ≡ some h)))

  begin_write-SameWraps :
      (flags : ℕ) (e e' : Env) → begin_write host flags e ≡ some e' → SameWraps e e'
  unfolding begin_write current_txn acquire
  begin_write-SameWraps flags e e' h = record {
    wraps = ground arith;
    readers = ground arith;
    writer = ground arith;
  }

  -- a writer, with what `begin_write` leaves
  written-IsTracked :
      (i flags : ℕ) (e e' : Env) (txn : Option Handle)
      → IsTracked e
      → IsFresh i e
      → is_read_only flags ≡ false
      → begin_write host flags (started i flags e) ≡ some e'
      → IsTracked (set_wrap i (record (e'.wrap i) { txn = txn }) e')
  written-IsTracked i flags e e' txn t f writes ran =
      let s = begin_write-SameWraps flags (started i flags e) e' ran in
      let same : (e'.wrap i).flags ≡ flags =
        ap (λ wrap. (wrap i).flags) s.wraps ∙ started-flags i flags e in
      set_wrap-IsTracked i (record (e'.wrap i) { txn = txn }) e'
        (SameWraps-IsTracked (started i flags e) e' s (started-IsTracked i flags e t f writes))
        (SameWraps-IsFresh i (started i flags e) e' s (started-IsFresh i flags e f))
        (writer-gone (record (e'.wrap i) { txn = txn }) (ap is_read_only same ∙ writes)) refl

  begin_read-attach :
      (i flags : ℕ) (e : Env) (h : Handle)
      → is_read_only flags ≡ true
      → host.begin (started i flags e) none (bit_and flags 0xf0000) ≡ some h
      → begin_read i flags e ≡ attach host i (some h) (e.wrap i).parent flags e
  unfolding attach
  begin_read-attach i flags e h reads opened = rw (reads, opened, begin_or) refl

  -- `TxnWrap::begin` keeps the lists
  pub begin_wrapped-IsTracked :
      (i flags : ℕ) (e : Env)
      → IsTracked e
      → IsBeginning i flags e
      → IsTracked (begun e (begin_wrapped i flags e))
  unfolding begin_wrapped
  begin_wrapped-IsTracked i flags e t (f, opens) = elim (Bool-cases (is_read_only flags)) [
    | inl reads ↦ elim opens [
      | inl writes ↦ absurd (cc (reads, writes))
      | inr (h, opened) ↦
          rw (reads, begin_read-attach i flags e h reads opened)
            (attach-IsTracked host i h (e.wrap i).parent flags e t f (f.no_parent i) (t.parents i))
    ]
    | inr writes ↦ elim (Option-cases (begin_write host flags (started i flags e))) [
      | inl waits ↦ rw (writes, waits) t
      | inr (e', ran) ↦
          rw (writes, ran)
            (written-IsTracked i flags e e' (tracked_txn e'.write_txns) t f writes ran)
    ]
  ]
