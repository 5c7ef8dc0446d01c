-- ===== src/Txn/Write/Nesting/Restoring.antt =====
-- Nested transactions of src/env.cpp leave the lock and the tracked transactions as they were.
use lmdb_js.Prelude.{◌≡◌, refl, sym, ◌∙◌, false, some, List, [], ◌∷◌, ◌>>=◌}
use lmdb_js.Txn.State.{Tracked, Env, Host}
use lmdb_js.Txn.Write.Nesting.{
  Nest, nest, Nests, nil, cons, IsNestable, AreChildren, IsChild, run, run_all, Begins, Restores,
}
use lmdb_js.Txn.Write.Nesting.Opening.{
  Inside, popped, end_current-popped, popped-kept, begin-child, begin-first,
}

module _ (host : Host) where
  mutual
    unfolding run IsNestable

    child-restores :
        (n : Nest) (e : Env) (t : Tracked) (ts : List Tracked)
        → Inside host e t ts
        → IsChild n
        → (e' : Env) × (run host n e ≡ some e') × Inside host e' t ts
    child-restores (nest flags body commits) e t ts inside (child, inner) =
        let (e1, u, begun, inside1) = begin-child host flags e t ts inside child in
        let (e2, ran, inside2) = children-restore body e1 u (t ∷ ts) inside1 inner in
        let (stack, held, map') = popped-kept host u (t ∷ ts) e2 in
        (
          popped host u (t ∷ ts) e2,
          rw (begun, ◌>>=◌, ran) (end_current-popped host commits e2 u (t ∷ ts) inside2.stack),
          record {
            stack = stack;
            there = inside.there;
            held = held ∙ inside2.held;
            plain = map' ∙ inside2.plain;
          },
        )

    children-restore :
        (ns : Nests) (e : Env) (t : Tracked) (ts : List Tracked)
        → Inside host e t ts
        → AreChildren ns
        → (e' : Env) × (run_all host ns e ≡ some e') × Inside host e' t ts
    children-restore nil e t ts inside inner = (e, refl, inside)
    children-restore (cons n ns) e t ts inside (child, inner) =
        let (e1, ran, inside1) = child-restores n e t ts inside child in
        let (e2, rest, inside2) = children-restore ns e1 t ts inside1 inner in
        (e2, rw (ran, ◌>>=◌) rest, inside2)

  -- A write transaction with others nested in it, each begun by `beginTxn` and ended by
  -- `commitTxn` or `abortTxn`, the inner ones with `TXN_ABORTABLE`, without MDB_WRITEMAP, where
  -- LMDB begins a transaction that has no parent, from a state with no tracked transaction and
  -- the lock free: no call waits for itself or meets a null pointer, and afterwards no
  -- transaction is tracked and the lock is free again.
  pub run-Restores :
      Begins host
      → (n : Nest) (e : Env) → IsNestable n
      → e.write_txns ≡ []
      → e.locked ≡ false
      → e.write_map ≡ false
      → Restores host e (run host n e)
  unfolding run IsNestable
  run-Restores begins (nest flags body commits) e inner empty free plain =
      let (e1, u, begun, inside1) = begin-first host begins flags e empty free plain in
      let (e2, ran, inside2) = children-restore body e1 u [] inside1 inner in
      let (stack, held, map') = popped-kept host u [] e2 in
      rw (begun, ◌>>=◌, ran, end_current-popped host commits e2 u [] inside2.stack)
        (stack ∙ sym empty, held ∙ sym free, map' ∙ inside2.plain ∙ sym plain)
