-- ===== src/Txn/Write/Nesting/Opening.antt =====
-- Beginning and ending one of the nested transactions of src/env.cpp.
use Prim.Native.Nat.{bit_and, bit_or}
use lmdb_js.Prelude.{
  ℕ, ◌≡◌, refl, ap, ◌∙◌, inl, inr, Bool, true, false, Bool-cases, Option-cases, Option, none, some,
  List, [], ◌∷◌, arith, ◌&&◌, if◌then◌else◌,
}
use lmdb_js.Txn.State.{Handle, Tracked, Env, Host, is_allow_commit, interrupt_batch, user_has_lock}
use lmdb_js.Txn.Write.{
  is_abortable, from_worker, end_txn, is_synchronous, acquire, current_txn, begin_or, begin_write,
  unlock, pop, commit_write, abort_write,
}
use lmdb_js.Txn.Write.Nesting.{end_current, run, Begins}

module _ (host : Host) where
  -- inside a write transaction
  pub record Inside (e : Env) (t : Tracked) (ts : List Tracked) : Type 0 where
    pub stack : e.write_txns ≡ t ∷ ts
    pub there : (h : Handle) × (t.txn ≡ some h)
    pub held : e.locked ≡ true
    pub plain : e.write_map ≡ false

  -- what is left when the current transaction has ended
  abbrev pub popped : Tracked → List Tracked → Env → Env
  popped t ts e =
      pop host ts (if is_abortable t.flags then record e { ended = end_txn t.txn e.ended } else e)

  pub end_current-popped :
      (commits : Bool) (e : Env) (t : Tracked) (ts : List Tracked)
      → e.write_txns ≡ t ∷ ts
      → end_current host commits e ≡ some (popped t ts e)
  unfolding end_current commit_write abort_write
  end_current-popped true e t ts s = elim (Bool-cases (is_abortable t.flags)) [
    | inl ends ↦ ground (arith, s, ends)
    | inr stays ↦ ground (arith, s, stays)
  ]
  end_current-popped false e t ts s = elim (Bool-cases (is_abortable t.flags)) [
    | inl ends ↦ ground (arith, s, ends)
    | inr stays ↦ ground (arith, s, stays)
  ]

  unlock-kept :
      (e : Env)
      → ((unlock host e).write_txns ≡ e.write_txns)
        × ((unlock host e).locked ≡ false)
        × ((unlock host e).write_map ≡ e.write_map)
  unlock-kept e = ground arith

  pub popped-kept :
      (t : Tracked) (ts : List Tracked) (e : Env)
      → ((popped t ts e).write_txns ≡ ts)
        × ((popped t ts e).locked ≡ elim ts [ [] ↦ false | _ ∷ _ ↦ e.locked ])
        × ((popped t ts e).write_map ≡ e.write_map)
  popped-kept t [] e = elim (Bool-cases (is_abortable t.flags)) [
    | inl ends ↦ rw ends (unlock-kept (record e { ended = end_txn t.txn e.ended; write_txns = [] }))
    | inr stays ↦ rw stays (unlock-kept (record e { write_txns = [] }))
  ]
  popped-kept t (u ∷ ts) e = elim (Bool-cases (is_abortable t.flags)) [
    | inl ends ↦ rw ends (refl, refl, refl)
    | inr stays ↦ rw stays (refl, refl, refl)
  ]

  begin_or-some :
      (e : Env) (parent : Option Handle) (flags : ℕ) (h : Handle)
      → (h' : Handle) × (begin_or host e parent flags (some h) ≡ some h')
  begin_or-some e parent flags h =
      elim (Option-cases (host.begin e parent (bit_and flags 0xf0000))) [
        | inl fails ↦ (h, rw (fails, begin_or) refl)
        | inr (h', begun) ↦ (h', rw (begun, begin_or) refl)
      ]

  current-inside :
      (flags : ℕ) (e : Env) (t : Tracked) (ts : List Tracked) (h : Handle)
      → e.write_txns ≡ t ∷ ts
      → t.txn ≡ some h
      → current_txn host flags e ≡ some (some h, flags, e)
  unfolding current_txn
  current-inside flags e t ts h s q = ground (arith, s, q)

  -- a child of the current transaction
  pub begin-child :
      (flags : ℕ) (e : Env) (t : Tracked) (ts : List Tracked)
      → Inside e t ts
      → is_abortable flags ≡ true
      → (e' : Env) × (u : Tracked) × (begin_write host flags e ≡ some e') × Inside e' u (t ∷ ts)
  unfolding begin_write
  begin-child flags e t ts inside child =
      let (h, t_txn) = inside.there in
      let (h', begun) = begin_or-some e (some h) flags h in
      let u : Tracked = record { txn = begin_or host e (some h) flags (some h); flags = flags } in
      (
        record e { write_txns = u ∷ e.write_txns },
        u,
        simp (current-inside flags e t ts h inside.stack t_txn, child, inside.plain),
        record {
          stack = ap (λ us. u ∷ us) inside.stack;
          there = (h', begun);
          held = inside.held;
          plain = inside.plain;
        },
      )

  current-first :
      (flags : ℕ) (e : Env)
      → e.write_txns ≡ []
      → e.locked ≡ false
      → (txn : Option Handle) × (flags' : ℕ) × (e' : Env) × (current_txn host flags e
          ≡ some (txn, flags', e'))
        × (e'.write_txns ≡ [])
        × (e'.locked ≡ true)
        × (e'.write_map ≡ e.write_map)
  unfolding current_txn acquire
  current-first flags e empty free = elim (Option-cases e.worker) [
    | inl alone ↦ (
      none,
      flags,
      record e { locked = true },
      ground (arith, empty, alone, free),
      empty,
      refl,
      refl,
    )
    | inr (w, works) ↦ elim (Bool-cases (is_synchronous flags && is_allow_commit w.interruption)) [
      | inl waits ↦ (
        none,
        from_worker flags,
        record e {
          locked = true;
          worker = some (host.meanwhile (record w { interruption = interrupt_batch }));
        },
        ground (arith, empty, works, free, waits),
        empty,
        refl,
        refl,
      )
      | inr takes ↦ (
        w.txn,
        from_worker flags,
        record e { locked = true; worker = some (record w { interruption = user_has_lock }) },
        ground (arith, empty, works, free, takes),
        empty,
        refl,
        refl,
      )
    ]
  ]

  -- the first transaction
  pub begin-first :
      Begins host
      → (flags : ℕ) (e : Env) → e.write_txns ≡ []
      → e.locked ≡ false
      → e.write_map ≡ false
      → (e' : Env) × (u : Tracked) × (begin_write host flags e ≡ some e') × Inside e' u []
  unfolding begin_write
  begin-first begins flags e empty free plain =
      let (txn, flags', e', run, empty', held, map') = current-first flags e empty free in
      elim (Option-cases txn) [
        | inl nothing ↦
            let (h, begun) = begins e' (bit_and flags' 0xf0000) in
            let u : Tracked = record {
              txn = begin_or host e' none flags' none;
              flags = bit_or flags' 1;
            } in
            (
              record e' { write_txns = u ∷ [] },
              u,
              simp (run, nothing),
              record {
                stack = refl;
                there = (h, rw (begun, begin_or) refl);
                held = held;
                plain = map' ∙ plain;
              },
            )
        | inr (h, something) ↦ elim (Bool-cases (is_abortable flags')) [
          | inl child ↦
              let (h', begun) = begin_or-some e' (some h) flags' h in
              let u : Tracked = record {
                txn = begin_or host e' (some h) flags' (some h);
                flags = flags';
              } in
              (
                record e' { write_txns = u ∷ e'.write_txns },
                u,
                simp (run, something, child, map', plain),
                record {
                  stack = ap (λ us. u ∷ us) empty';
                  there = (h', begun);
                  held = held;
                  plain = map' ∙ plain;
                },
              )
          | inr inline ↦ (
            record e' { write_txns = record { txn = some h; flags = flags' } ∷ [] },
            record { txn = some h; flags = flags' },
            simp (run, something, inline),
            record { stack = refl; there = (h, refl); held = held; plain = map' ∙ plain },
          )
        ]
      ]
