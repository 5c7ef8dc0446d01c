-- ===== src/Txn/Wraps/Create.antt =====
-- The constructor of `TxnWrap` (src/txn.cpp) and what an `EnvWrap` tracks.
use lmdb_js.Prelude.{
  ℕ, ◌≡◌, refl, ◌⊎◌, inl, inr, Bool, true, false, Bool-cases, Option-cases, Option, none, some,
  ◌&&◌,
}
use lmdb_js.Txn.State.{Handle, Worker, Env, Host, is_allow_commit, interrupt_batch, user_has_lock}
use lmdb_js.Txn.Write.{acquire, from_worker, is_synchronous}
use lmdb_js.Txn.Wraps.{
  is_read_only, points_to, Outcome, Request, callback, with_flags, attach, create_own, create,
}
use lmdb_js.Txn.Wraps.Tracking.{is_reader, IsTracked, IsFresh}
use lmdb_js.Txn.Wraps.Attach.{after, attach-writer, begin_wrap-IsTracked}

module _ (host : Host) where
  -- LMDB begins no transaction inside an open read transaction.
  abbrev pub RefusesReaders : Type 0
  RefusesReaders =
      (e : Env) (p : ℕ) (flags : ℕ)
      → is_reader (e.wrap p) ≡ true
      → host.begin e (e.wrap p).txn flags ≡ none

  -- `AcquireTxn` changes the lock and the worker
  record Acquired (e e' : Env) : Type 0 where
    tracked : IsTracked e → IsTracked e'
    fresh : (i : ℕ) → IsFresh i e → IsFresh i e'

  same-Acquired :
      (e : Env) (held : Bool) (worker : Option Worker)
      → Acquired e (record e { locked = held; worker = worker })
  same-Acquired e held worker = record {
    tracked = λ t. record {
      listed = t.listed;
      distinct = t.distinct;
      current = t.current;
      parents = t.parents;
    };
    fresh =
        λ i f. record { unlisted = f.unlisted; no_current = f.no_current; no_parent = f.no_parent };
  }

  acquire-Acquired :
      (w : Worker) (flags : ℕ) (e : Env)
      → (acquire host w flags e ≡ none)
        ⊎ ((o : Option Handle) × (e' : Env) × (acquire host w flags e
              ≡ some (o, from_worker flags, e'))
            × Acquired e e')
  unfolding acquire
  acquire-Acquired w flags e = elim (Bool-cases e.locked) [
    | inl held ↦ inl (rw held refl)
    | inr free ↦ elim (Bool-cases (is_synchronous flags && is_allow_commit w.interruption)) [
      | inl waits ↦ inr (
        none,
        record e {
          locked = true;
          worker = some (host.meanwhile (record w { interruption = interrupt_batch }));
        },
        rw (free, waits) refl,
        same-Acquired e true (some (host.meanwhile (record w { interruption = interrupt_batch }))),
      )
      | inr takes ↦ inr (
        w.txn,
        record e { locked = true; worker = some (record w { interruption = user_has_lock }) },
        rw (free, takes) refl,
        same-Acquired e true (some (record w { interruption = user_has_lock })),
      )
    ]
  ]

  -- after the constructor; a thread that waits for itself changes nothing
  abbrev pub created : Env → Option Outcome → Env
  created e none = e
  created e (some o) = after host e o

  -- the transaction of a callback
  attached-IsTracked :
      (i : ℕ) (o : Option Handle) (e : Env)
      → IsTracked e
      → IsFresh i e
      → IsTracked (attach host i o none (from_worker 0) e)
  attached-IsTracked i o e tracked fresh =
      attach-writer host i o none (from_worker 0) e tracked fresh refl tt refl

  parent-IsNoReader :
      RefusesReaders
      → (p : ℕ) (flags : ℕ) (e : Env)
      → ((h : Handle) × (host.begin e (e.wrap p).txn flags ≡ some h))
      → is_reader (e.wrap p) ≡ false
  parent-IsNoReader refuses p flags e (h, begun) = elim (Bool-cases (is_reader (e.wrap p))) [
    | inl reads ↦ absurd (cc (refuses e p flags reads, begun))
    | inr gone ↦ gone
  ]

  create_own-IsTracked :
      RefusesReaders
      → (i : ℕ) (flags : ℕ) (parent : Option ℕ) (e : Env) → IsTracked e
      → IsFresh i e
      → points_to i parent ≡ false
      → IsTracked (created e (create_own host i flags parent e))
  unfolding create_own after
  create_own-IsTracked refuses i flags (some p) e tracked fresh other =
      begin_wrap-IsTracked host i (e.wrap p).txn (some p) flags e e tracked fresh other
        (parent-IsNoReader refuses p flags e)
  create_own-IsTracked refuses i flags none e tracked fresh other =
      let alone =
        begin_wrap-IsTracked host i none none flags e e tracked fresh refl (λ begun. tt) in
      elim (Bool-cases (is_read_only flags)) [
        | inl reads ↦ rw reads alone
        | inr writes ↦ elim (Option-cases e.current_write) [
          | inr (j, opened) ↦ simp (writes, opened, after) tracked
          | inl nothing ↦ elim (Option-cases e.worker) [
            | inl no_worker ↦ simp (writes, nothing, no_worker) alone
            | inr (w, works) ↦ elim (acquire-Acquired w flags e) [
              | inl waits ↦ simp (writes, nothing, works, waits) tracked
              | inr (o, e', taken, acquired) ↦
                  simp (writes, nothing, works, taken)
                    (begin_wrap-IsTracked host i o none (from_worker flags) e' e
                      (acquired.tracked tracked) (acquired.fresh i fresh) refl (λ begun. tt))
            ]
          ]
        ]
      ]

  pub create-IsTracked :
      RefusesReaders
      → (i : ℕ) (request : Request) (parent : Option ℕ) (e : Env) → IsTracked e
      → IsFresh i e
      → points_to i parent ≡ false
      → IsTracked (created e (create host i request parent e))
  unfolding create after
  create-IsTracked refuses i (with_flags flags) parent e tracked fresh other =
      create_own-IsTracked refuses i flags parent e tracked fresh other
  create-IsTracked refuses i callback parent e tracked fresh other = elim (Option-cases e.worker) [
    | inl no_worker ↦
        simp (create, no_worker) (create_own-IsTracked refuses i 0 parent e tracked fresh other)
    | inr (w, works) ↦ elim (acquire-Acquired w 0 e) [
      | inl waits ↦ simp (create, works, waits) tracked
      | inr (o, e', taken, acquired) ↦
          simp (create, works, taken, after)
            (attached-IsTracked i o e' (acquired.tracked tracked) (acquired.fresh i fresh))
    ]
  ]
