-- ===== src/Tests/Txns.antt =====
-- Transactions of src/txn.cpp and src/env.cpp on concrete states.
use lmdb_js.Prelude.{
  ℕ, zero, suc, ◌≡◌, refl, inl, inr, true, false, Option-cases, Bool-cases, ◌==◌, none, some, List,
  [], ◌∷◌, arith,
}
use lmdb_js.Txn.State.{TxnWrap, Env, Host, allow_commit}
use lmdb_js.Txn.Write.Nesting.{Nest, nest, nil, cons, IsNestable, Begins, Restores, run}
use lmdb_js.Txn.Write.Nesting.Restoring.{run-Restores}
use lmdb_js.Txn.Wraps.Attach.{after}
use lmdb_js.Txn.Wraps.Begin.{IsBeginning}
use lmdb_js.Txn.Wraps.{with_flags, create, create_own, begin_wrap, attach, end_wrap, cleanup_stray}
use lmdb_js.Txn.Wraps.Tracking.{is_reader, IsNoReader, IsTracked, IsFresh, Distinct}
use lmdb_js.Txn.Wraps.Create.{RefusesReaders}
use lmdb_js.Txn.Wraps.Calls.{
  Call, create_at, begin_at, abort_at, get_read, destroy_at, call, calls, IsAllowed, AreAllowed,
  calls-IsTracked,
}
use lmdb_js.Txn.Wraps.Stray.{Cleans, cleanup_stray-Cleans}
use lmdb_js.Txn.Wraps.Current.{HandsOutEnded, end_wrap-HandsOutEnded}

-- a host whose transactions have no children
abbrev pub childless : Host
childless = record {
  begin = λ e parent flags. elim parent [ none ↦ some 7 | some h ↦ none ];
  begin_code = λ e parent flags. 22;
  commit_code = λ e txn. 0;
  renew_code = λ e txn. 0;
  meanwhile = λ w. w;
}

-- a host whose children are numbered on
abbrev nesting : Host
nesting = record {
  begin = λ e parent flags. elim parent [ none ↦ some 7 | some h ↦ some (suc h) ];
  begin_code = λ e parent flags. 22;
  commit_code = λ e txn. 0;
  renew_code = λ e txn. 0;
  meanwhile = λ w. w;
}

abbrev pub blank : TxnWrap
blank = record { txn = none; parent = none; flags = 0; attached = false }

abbrev pub idle_env : Env
idle_env = record {
  write_map = false;
  worker = some (record { txn = some 3; interruption = allow_commit });
  locked = false;
  write_txns = [];
  current_write = none;
  read_txns = [];
  current_read = none;
  renewed = false;
  wrap = λ i. blank;
  ended = [];
}

-- a write transaction with two children, one of which has a child
abbrev three_deep : Nest
three_deep =
    nest 1 (cons (nest 1 (cons (nest 1 nil false) nil) true) (cons (nest 1 nil true) nil)) true

nesting-Begins : Begins nesting
nesting-Begins e flags = (7, refl)

three_deep-IsNestable : IsNestable three_deep
unfolding IsNestable
three_deep-IsNestable = ((refl, ((refl, tt), tt)), ((refl, tt), tt))

run-Restores_example : Restores nesting idle_env (run nesting three_deep idle_env)
run-Restores_example =
    run-Restores nesting nesting-Begins three_deep idle_env three_deep-IsNestable refl refl refl

childless-RefusesReaders : RefusesReaders childless
childless-RefusesReaders e p flags reads = elim (Option-cases (e.wrap p).txn) [
  | inl nothing ↦
      let shut : is_reader (e.wrap p) ≡ false = rw nothing refl in absurd (cc (reads, shut))
  | inr (h, opened) ↦ rw opened refl
]

idle-IsTracked : IsTracked idle_env
unfolding Distinct
idle-IsTracked = record { listed = tt; distinct = tt; current = tt; parents = λ k. tt }

idle-IsFresh : IsFresh 0 idle_env
idle-IsFresh = record { unlisted = tt; no_current = refl; no_parent = λ k. refl }

-- two readers, of which one is aborted
abbrev read_and_abort : List Call
read_and_abort =
    create_at 0 (with_flags 0x20000) none
    ∷ begin_at 1 0x20000
    ∷ get_read
    ∷ abort_at 0
    ∷ destroy_at 0
    ∷ []

-- the second wrap, behind the first
second-IsBeginning :
    IsBeginning childless 1 0x20000
      (call childless (create_at 0 (with_flags 0x20000) none) idle_env)
unfolding call create create_own begin_wrap attach after
second-IsBeginning = (
  record {
    unlisted = (refl, tt);
    no_current = refl;
    no_parent =
        λ k. elim (Bool-cases (k == 0)) [ inl same ↦ rw same refl | inr other ↦ rw other refl ];
  },
  inr (7, refl),
)

read_and_abort-AreAllowed : AreAllowed childless read_and_abort idle_env
unfolding AreAllowed IsAllowed
read_and_abort-AreAllowed = ((idle-IsFresh, refl), (second-IsBeginning, (tt, (tt, (tt, tt)))))

calls-IsTracked_example : IsTracked (calls childless read_and_abort idle_env)
calls-IsTracked_example =
    calls-IsTracked childless childless-RefusesReaders read_and_abort idle_env
      read_and_abort-AreAllowed idle-IsTracked

-- the wraps 0 and 1 read, 2 writes
abbrev two_readers : Env
two_readers = record idle_env {
  current_write = some 2;
  read_txns = 0 ∷ 1 ∷ [];
  current_read = some 11;
  renewed = true;
  wrap = λ i. elim i [
    | zero ↦ record { txn = some 10; parent = none; flags = 0x20000; attached = true }
    | suc j ↦ elim j [
      | zero ↦ record { txn = some 11; parent = none; flags = 0x20000; attached = true }
      | suc k ↦ record { txn = some 12; parent = none; flags = 0; attached = true }
    ]
  ];
}

two_readers_parents : (k : ℕ) → IsNoReader two_readers.wrap (two_readers.wrap k).parent
two_readers_parents zero = tt
two_readers_parents (suc zero) = tt
two_readers_parents (suc (suc k)) = tt

two_readers-IsTracked : IsTracked two_readers
unfolding Distinct
two_readers-IsTracked = record {
  listed = (refl, (refl, tt));
  distinct = ((refl, tt), (tt, tt));
  current = refl;
  parents = two_readers_parents;
}

cleanup_stray-Cleans_example : Cleans two_readers (cleanup_stray 2 two_readers)
cleanup_stray-Cleans_example =
    cleanup_stray-Cleans 2 two_readers two_readers-IsTracked (omega arith)

end_wrap-HandsOutEnded_example : HandsOutEnded childless 11 two_readers (end_wrap 1 two_readers)
end_wrap-HandsOutEnded_example = end_wrap-HandsOutEnded childless 1 11 two_readers refl refl refl
