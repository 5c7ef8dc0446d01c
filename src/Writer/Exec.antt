-- ===== src/Writer/Exec.antt =====
-- One round of the loop of `DoWrites` in src/writer.cpp.
use Prim.Native.Nat.{bit_or}
use lmdb_js.Prelude.{
  ℕ, zero, suc, Bool, true, false, not, ◌||◌, Option, none, some, ◌==◌, if◌then◌else◌, ◌>>=◌,
  update,
}
use lmdb_js.Prelude.Int.{ℤ, pos, inc, dec, eqb, ltb_ℤ}
use lmdb_js.Writer.Instr.{Instr, read_double, fetch}
use lmdb_js.Writer.Host.{Rc, success, not_found, other, Host, World, Others}
use lmdb_js.Writer.Kinds.{
  Kind, no_instruction_yet, start_of_block, end_of_block, pointer_next, user_callback, change,
  unknown_kind, kind_of, waiting_operation, txn_delimiter, finished_operation, failed_condition,
  is_error, is_success,
}
use lmdb_js.Writer.Checks.{Checked, validate, operate}

-- the state of the loop; `ip` is `instruction`, and the depths are `int`
pub record Machine (Txn : Type 0) : Type 0 where
  pub world : World Txn
  pub ip : ℕ
  pub condition_depth : ℤ
  pub validated_depth : ℤ

-- a round ends with another round, or with a return code
pub data Step (Txn : Type 0) : Type 0 where
  again : Machine Txn → Step Txn
  stop : Rc → Machine Txn → Step Txn

module _ (host : Host) where
  abbrev pub Shared : Type 0
  Shared = World host.Txn

  -- `*start |= flags`
  unfoldable pub mark : ℕ → ℕ → Shared → Shared
  mark start bits w = record w { mem = update w.mem start (bit_or (w.mem start) bits) }

  -- the bits for the flag word, from the code of the operation
  abbrev pub result_bits : Rc → ℕ
  result_bits rc =
      if is_success rc then finished_operation else bit_or finished_operation failed_condition

  -- The end of a round. Without a worker the loop ends here, and an error ends it before the word is
  -- marked.
  unfoldable pub finish : Bool → ℕ → Rc → Machine host.Txn → Step host.Txn
  finish true start rc m = again (record m { world = mark start (result_bits rc) m.world })
  finish false start rc m =
      if is_error rc
      then stop rc m
      else stop rc (record m { world = mark start (result_bits rc) m.world })

  -- the round of an instruction whose condition has failed
  unfoldable pub skip : Bool → ℕ → Rc → Machine host.Txn → Step host.Txn
  skip worker start rc m =
      let m' = record m {
        world = mark start (bit_or finished_operation failed_condition) m.world;
      } in
      if worker then again m' else stop rc m'

module _ (host : Host) (others : Others host.Txn) where
  -- `std::atomic_compare_exchange_strong`, after what another thread may have done
  unfoldable pub exchange : ℕ → ℕ → ℕ → World host.Txn → Bool × World host.Txn
  exchange start expected new w =
      let w' = others.interfere w in
      if w'.mem start == expected
      then (true, record w' { mem = update w'.mem start new })
      else (false, w')

  -- `NO_INSTRUCTION_YET`: wait, or end the batch with the delimiter
  unfoldable pub idle : ℕ → Machine host.Txn → Step host.Txn
  unfolding exchange
  idle start m =
      let w = m.world in
      let at_top = eqb m.condition_depth (pos 0) in
      if not w.finished || not at_top
      then (let (swapped, w') = exchange start (w.mem start) waiting_operation w in
          again (record m { world = if swapped then others.wait at_top w' else w'; ip = start }))
      else (let (swapped, w') = exchange start (w.mem start) txn_delimiter w in
          let m' = record m { world = w'; ip = start } in
          if swapped then stop success m' else again m')

  -- `while (!worker->finishedProgress) worker->WaitForCallbacks(...)`; `none` if it takes more than
  -- `patience` waits
  unfoldable pub await_user : ℕ → Bool → World host.Txn → Option (World host.Txn)
  await_user zero at_top w = if w.finished then some w else none
  await_user (suc patience) at_top w =
      let rest = await_user patience at_top (others.wait at_top w) in
      if w.finished then some w else rest

  -- `USER_CALLBACK`; the strict order is the bit that is `COMPRESSIBLE` elsewhere
  unfoldable pub call_user : ℕ → ℕ → Instr → Machine host.Txn → Option (Step host.Txn)
  unfolding await_user
  call_user patience start i m =
      let w = record (m.world) { finished = false } in
      (if i.flags.compressible
        then await_user patience (eqb m.condition_depth (pos 0))
            (mark host start finished_operation w)
        else some w)
      >>= λ w'. some (finish host true start success (record m { world = w' }))

  -- `START_BLOCK`, `START_CONDITION_BLOCK`
  abbrev pub open_block : Bool → Machine host.Txn → Machine host.Txn
  open_block valid m = record m {
    condition_depth = inc m.condition_depth;
    validated_depth = if valid then inc m.validated_depth else m.validated_depth;
  }

  -- `BLOCK_END`
  abbrev pub close_block : Machine host.Txn → Machine host.Txn
  close_block m =
      let depth = dec m.condition_depth in
      record m {
        condition_depth = depth;
        validated_depth =
            if ltb_ℤ depth m.validated_depth then dec m.validated_depth else m.validated_depth;
      }

  -- the `switch`, for an instruction that is validated or not conditional; `none` is a use of the
  -- worker where there is none
  unfoldable pub dispatch :
      ℕ → Bool → ℕ → Instr → Checked → Kind → Machine host.Txn → Option (Step host.Txn)
  unfolding finish idle call_user
  dispatch patience worker start i c no_instruction_yet m =
      if worker then some (idle start m) else none
  dispatch patience worker start i c end_of_block m = some (again (close_block m))
  dispatch patience worker start i c pointer_next m =
      some (again (record m { ip = host.to_address (read_double (m.world).mem i.next) }))
  dispatch patience worker start i c start_of_block m =
      some
        (finish host worker start (if c.valid then success else not_found) (open_block c.valid m))
  dispatch patience worker start i c user_callback m =
      if worker then call_user patience start i m else none
  dispatch patience worker start i c unknown_kind m =
      if worker then some (stop (other 22) m) else none
  dispatch patience worker start i c (change op) m =
      let (rc, txn') = operate host op (m.world).txn i c.value in
      some (finish host worker start rc (record m { world = record (m.world) { txn = txn' } }))

  -- a round, once the instruction at `start` has been read
  unfoldable pub execute : ℕ → Bool → ℕ → Instr → Machine host.Txn → Option (Step host.Txn)
  unfolding dispatch skip
  execute patience worker start i m =
      if i.flags.unknown
      then (if worker then some (stop success m) else none)
      else (let c = validate host (m.world).txn i (eqb m.condition_depth m.validated_depth) in
          let m' = record m { ip = i.next } in
          if c.valid || not i.flags.conditional
          then dispatch patience worker start i c (kind_of i.flags.op) m'
          else some (skip host worker start c.rc m'))

  -- the loop; `none` also where the fuel runs out
  unfoldable pub do_writes : ℕ → ℕ → Bool → Machine host.Txn → Option (Rc × Machine host.Txn)
  do_writes patience zero worker m = none
  do_writes patience (suc fuel) worker m =
      execute patience worker m.ip (fetch host.buffer (m.world).mem m.ip) m >>= λ r. elim r [
        | again m' ↦ do_writes patience fuel worker m'
        | stop rc m' ↦ some (rc, m')
      ]
