-- ===== src/Writer/Blocks.antt =====
-- Nested blocks of instructions, what they mean, and that the depth counters of `DoWrites` in
-- src/writer.cpp carry that out.
pub mod Depths
pub mod Failed
use Prim.Native.Nat.{bit_or}
use lmdb_js.Prelude.{
  ℕ, zero, suc, ◌+◌, ◌≤◌, ◌<◌, ◌≡◌, refl, ap, sym, ◌∙◌, Bool, true, false, not, ◌&&◌, ◌||◌, Option,
  none, some, List, [], ◌∷◌, arith, ◌==◌, ltb, if◌then◌else◌, ◌>>=◌, Bool-cases, inl, inr,
}
use lmdb_js.Prelude.Int.{ℤ, pos, inc, dec, eqb, ltb_ℤ}
use lmdb_js.Writer.Instr.{Flags, Instr, fetch}
use lmdb_js.Writer.Host.{Rc, success, not_found, Host, World, Others}
use lmdb_js.Writer.Kinds.{
  Change, Kind, start_of_block, end_of_block, change, kind_of, finished_operation, failed_condition,
}
use lmdb_js.Writer.Checks.{Checked, check_version, check_absent, validate, operate}
use lmdb_js.Writer.Exec.{
  mark, result_bits, finish, skip, Machine, Step, again, stop, dispatch, execute,
}

-- A change, or a block with the instruction that opens it, its body, and the one that closes it.
-- Each instruction comes with its address.
mutual
  pub data Cmd : Type 0 where
    single : ℕ → Instr → Change → Cmd
    block : ℕ → Instr → Cmds → ℕ → Instr → Cmd

  pub data Cmds : Type 0 where
    nil : Cmds
    cons : Cmd → Cmds → Cmds

abbrev pub Located : Type 0
Located = ℕ × Instr

-- the instructions in the order of the buffer, in front of `rest`
unfoldable mutual
  pub flatten : Cmd → List Located → List Located
  flatten (single start i op) rest = (start, i) ∷ rest
  flatten (block start i body end j) rest = (start, i) ∷ flatten_all body ((end, j) ∷ rest)

  pub flatten_all : Cmds → List Located → List Located
  flatten_all nil rest = rest
  flatten_all (cons c cs) rest = flatten c (flatten_all cs rest)

-- the instruction has this kind, and no unknown bits
abbrev pub Is : Kind → Instr → Type 0
Is k i = (i.flags.unknown ≡ false) × (kind_of i.flags.op ≡ k)

unfoldable mutual
  pub IsWellFormed : Cmd → Type 0
  IsWellFormed (single start i op) = Is (change op) i
  IsWellFormed (block start i body end j) =
      Is start_of_block i
      × (i.flags.conditional ≡ false)
      × AreWellFormed body
      × Is end_of_block j
      × (j.flags.conditional ≡ false)

  pub AreWellFormed : Cmds → Type 0
  AreWellFormed nil = Unit
  AreWellFormed (cons c cs) = IsWellFormed c × AreWellFormed cs

module _ (host : Host) where
  -- a change is made if its conditions hold inside a block that is `valid`, or if it has none
  unfoldable pub make_change : Bool → ℕ → Instr → Change → World host.Txn → World host.Txn
  make_change valid start i op w =
      let c = validate host w.txn i valid in
      if c.valid || not i.flags.conditional
      then (let (rc, txn') = operate host op w.txn i c.value in
          mark host start (result_bits host rc) (record w { txn = txn' }))
      else mark host start (bit_or finished_operation failed_condition) w

  -- The meaning of nested blocks: a block is valid if the one around it is, and its own conditions
  -- hold when it is entered.
  unfoldable mutual
    pub carry_out : Bool → Cmd → World host.Txn → World host.Txn
    carry_out valid (single start i op) w = make_change valid start i op w
    carry_out valid (block start i body end j) w =
        carry_out_all (validate host w.txn i valid).valid body (
          mark host start
            (result_bits host (if (validate host w.txn i valid).valid then success else not_found))
            w)

    pub carry_out_all : Bool → Cmds → World host.Txn → World host.Txn
    carry_out_all valid nil w = w
    carry_out_all valid (cons c cs) w = carry_out_all valid cs (carry_out valid c w)

  -- the rounds of the loop over given instructions
  unfoldable pub play :
      Others host.Txn → ℕ → List Located → Machine host.Txn → Option (Machine host.Txn)
  play others patience [] m = some m
  play others patience ((start, i) ∷ rest) m = execute host others patience true start i m >>= λ r.
      elim r [ again m' ↦ play others patience rest m' | stop rc m' ↦ none ]
