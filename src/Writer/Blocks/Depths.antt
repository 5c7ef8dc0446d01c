-- ===== src/Writer/Blocks/Depths.antt =====
-- The counters `conditionDepth` and `validatedDepth` of src/writer.cpp: a run of nested blocks does
-- what the blocks mean, and leaves the counters as they were.
use lmdb_js.Prelude.{
  ℕ, suc, ◌≤◌, ◌≡◌, refl, ap, ◌∙◌, Bool, true, false, not, ◌||◌, some, List, ◌∷◌, arith, ◌==◌, ltb,
  if◌then◌else◌, Bool-cases, inl, inr,
}
use lmdb_js.Prelude.Int.{ℤ, pos, dec}
use lmdb_js.Writer.Instr.{Instr}
use lmdb_js.Writer.Host.{success, not_found, Host, World, Others}
use lmdb_js.Writer.Kinds.{Change, start_of_block, end_of_block, change}
use lmdb_js.Writer.Checks.{validate}
use lmdb_js.Writer.Exec.{mark, result_bits, Machine, again, execute}
use lmdb_js.Writer.Blocks.{
  Cmd, Cmds, single, block, nil, cons, Located, flatten, flatten_all, Is, IsWellFormed,
  AreWellFormed, make_change, carry_out, carry_out_all, play,
}

module _ (host : Host) (others : Others host.Txn) (patience : ℕ) where
  -- the loop with its counters at `a` and `b`
  abbrev pub at : World host.Txn → ℕ → ℕ → ℕ → Machine host.Txn
  at w ip a b = record { world = w; ip = ip; condition_depth = pos a; validated_depth = pos b }

  -- tests only take validity away
  validate-valid :
      (txn : host.Txn) (i : Instr) (v : Bool) → (validate host txn i v).valid ≡ true → v ≡ true
  unfolding validate
  validate-valid txn i v h = ground arith

  execute-single :
      (start : ℕ) (i : Instr) (op : Change) (w : World host.Txn) (ip a b : ℕ)
      → Is (change op) i
      → execute host others patience true start i (at w ip a b)
        ≡ some (again (at (make_change host (a == b) start i op w) i.next a b))
  unfolding execute make_change
  execute-single start i op w ip a b (known, kind) =
      let c = validate host w.txn i (a == b) in
      elim (Bool-cases (c.valid || not i.flags.conditional)) [
        | inl go ↦ simp (known, kind, go)
        | inr no_go ↦ simp (known, no_go)
      ]

  execute-open :
      (start : ℕ) (i : Instr) (w : World host.Txn) (ip a b : ℕ)
      → Is start_of_block i
      → i.flags.conditional ≡ false
      → let valid = (validate host w.txn i (a == b)).valid in
        execute host others patience true start i (at w ip a b)
        ≡ some (
            again (
              at
                (mark host start (result_bits host (if valid then success else not_found)) w)
                i.next
                (suc a)
                (if valid then suc b else b)))
  unfolding execute
  execute-open start i w ip a b (known, kind) plain =
      let c = validate host w.txn i (a == b) in
      elim (Bool-cases c.valid) [
        | inl go ↦ simp (known, kind, plain, go)
        | inr no_go ↦ simp (known, kind, plain, no_go)
      ]

  execute-close :
      (start : ℕ) (i : Instr) (w : World host.Txn) (ip a b : ℕ)
      → Is end_of_block i
      → i.flags.conditional ≡ false
      → execute host others patience true start i (at w ip (suc a) b)
        ≡ some (
            again (record {
              world = w;
              ip = i.next;
              condition_depth = pos a;
              validated_depth = if ltb a b then dec (pos b) else pos b;
            }))
  unfolding execute
  execute-close start i w ip a b (known, kind) plain =
      let c = validate host w.txn i (suc a == b) in
      elim (Bool-cases c.valid) [
        | inl go ↦ simp (known, kind, plain, go)
        | inr no_go ↦ simp (known, kind, plain, no_go)
      ]

  -- the list goes on behind an instruction whose round goes on
  play-again :
      (start : ℕ) (i : Instr) (rest : List Located) (m m' : Machine host.Txn)
      → execute host others patience true start i m ≡ some (again m')
      → play host others patience ((start, i) ∷ rest) m ≡ play host others patience rest m'
  unfolding play
  play-again start i rest m m' e = simp e

  -- the counter in a block, and behind it
  block_depths :
      (a b : ℕ) (v : Bool)
      → b ≤ a
      → (v ≡ true → (a == b) ≡ true)
      → let b' = if v then suc b else b in
        (b' ≤ suc a) × ((suc a == b') ≡ v) × ((if ltb a b' then dec (pos b') else pos b') ≡ pos b)
  block_depths a b true below top = (omega arith, let e = top refl in ground arith, ground arith)
  block_depths a b false below top = (omega arith, ground arith, ground arith)

  -- the loop comes to `rest` with this world, and the counters as they are here
  abbrev pub Plays :
      List Located → List Located → World host.Txn → World host.Txn → ℕ → ℕ → ℕ → Type 0
  Plays all rest w w' ip a b =
      (ip' : ℕ) × (play host others patience all (at w ip a b)
        ≡ play host others patience rest (at w' ip' a b))

  mutual
    unfolding carry_out flatten IsWellFormed

    run_one :
        (c : Cmd) (rest : List Located) (w : World host.Txn) (ip a b : ℕ)
        → IsWellFormed c
        → b ≤ a
        → Plays (flatten c rest) rest w (carry_out host (a == b) c w) ip a b
    run_one (single start i op) rest w ip a b formed below = (
      i.next,
      play-again start i rest (at w ip a b) _ (execute-single start i op w ip a b formed),
    )
    run_one (block start i body end j) rest w ip a b (opens, plain, formed, closes, plain') below =
        let v = (validate host w.txn i (a == b)).valid in
        let b' = if v then suc b else b in
        let w1 = mark host start (result_bits host (if v then success else not_found)) w in
        let (le, same, back) = block_depths a b v below (validate-valid w.txn i (a == b)) in
        let (ip1, inner) = run_all body ((end, j) ∷ rest) w1 i.next (suc a) b' formed le in
        let w2 = carry_out_all host (suc a == b') body w1 in
        (
          j.next,
          play-again start i _ (at w ip a b) _ (execute-open start i w ip a b opens plain)
              ∙ inner
              ∙ play-again end j rest (at w2 ip1 (suc a) b') _
                  (execute-close end j w2 ip1 a b' closes plain')
              ∙ ap
                  (λ (p : Bool × ℤ). play host others patience rest (record {
                    world = carry_out_all host p.0 body w1;
                    ip = j.next;
                    condition_depth = pos a;
                    validated_depth = p.1;
                  }))
                  (λ k. (same k, back k)),
        )

    run_all :
        (p : Cmds) (rest : List Located) (w : World host.Txn) (ip a b : ℕ)
        → AreWellFormed p
        → b ≤ a
        → Plays (flatten_all p rest) rest w (carry_out_all host (a == b) p w) ip a b
    run_all nil rest w ip a b formed below = (ip, refl)
    run_all (cons c cs) rest w ip a b (formed, formed') below =
        let (ip1, first) = run_one c (flatten_all cs rest) w ip a b formed below in
        let (ip2, later) = run_all cs rest (carry_out host (a == b) c w) ip1 a b formed' below in
        (ip2, first ∙ later)

  -- Nested blocks of changes, met by the loop of a write worker inside `a` open blocks of which
  -- `b` are valid, with b at most a: the rounds for their instructions, as fetched and in the
  -- order of the buffer, do not fault or stop and make exactly what the blocks mean, where a
  -- block is valid if the one around it is and its own conditions hold. Behind them both
  -- counters are as before, and the loop goes on with the rest. No block is itself marked
  -- conditional.
  pub play-carry_out_all :
      (p : Cmds) (rest : List Located) (w : World host.Txn) (ip a b : ℕ)
      → AreWellFormed p
      → b ≤ a
      → Plays (flatten_all p rest) rest w (carry_out_all host (a == b) p w) ip a b
  play-carry_out_all = run_all
