-- ===== src/Writer/Blocks/Failed.antt =====
-- A block whose condition has failed, in the loop of src/writer.cpp.
use lmdb_js.Prelude.{ℕ, ◌≤◌, ◌≡◌, refl, ap, ◌∙◌, true, false, List, arith, ◌==◌, if◌then◌else◌}
use lmdb_js.Writer.Instr.{Instr}
use lmdb_js.Writer.Host.{success, not_found, Host, World, Others}
use lmdb_js.Writer.Kinds.{Change}
use lmdb_js.Writer.Checks.{validate}
use lmdb_js.Writer.Exec.{mark, result_bits}
use lmdb_js.Writer.Blocks.{
  Cmd, Cmds, single, block, nil, cons, Located, flatten, IsWellFormed, make_change, carry_out,
  carry_out_all,
}
use lmdb_js.Writer.Blocks.Depths.{Plays, play-carry_out_all}

-- every change in these is conditional
unfoldable mutual
  pub IsConditional : Cmd → Type 0
  IsConditional (single start i op) = i.flags.conditional ≡ true
  IsConditional (block start i body end j) = AreConditional body

  pub AreConditional : Cmds → Type 0
  AreConditional nil = Unit
  AreConditional (cons c cs) = IsConditional c × AreConditional cs

module _ (host : Host) where
  -- tests do not make anything valid
  validate-false : (txn : host.Txn) (i : Instr) → (validate host txn i false).valid ≡ false
  unfolding validate
  validate-false txn i = ground arith

  make_change-false :
      (start : ℕ) (i : Instr) (op : Change) (w : World host.Txn)
      → i.flags.conditional ≡ true
      → (make_change host false start i op w).txn ≡ w.txn
  unfolding make_change mark
  make_change-false start i op w c = simp (validate-false w.txn i, c)

  mutual
    unfolding carry_out IsConditional mark

    keep_one :
        (c : Cmd) (w : World host.Txn) → IsConditional c → (carry_out host false c w).txn ≡ w.txn
    keep_one (single start i op) w all = make_change-false start i op w all
    keep_one (block start i body end j) w all =
        ap
          (λ v.
            (carry_out_all host v body
              (mark host start (result_bits host (if v then success else not_found)) w)).txn)
          (validate-false w.txn i)
        ∙ keep_all body _ all

    keep_all :
        (p : Cmds) (w : World host.Txn)
        → AreConditional p
        → (carry_out_all host false p w).txn ≡ w.txn
    keep_all nil w all = refl
    keep_all (cons c cs) w (first, all) =
        keep_all cs (carry_out host false c w) all ∙ keep_one c w first

  -- A well-formed block with conditional changes only, whose conditions fail when it is entered
  -- or which stands in a block that is not valid: the loop comes behind it, with the counters
  -- as before, in a world whose transaction is the one from before.
  pub play-failed_block :
      (others : Others host.Txn) (patience : ℕ) (start : ℕ) (i : Instr) (body : Cmds) (end : ℕ)
      (j : Instr) (rest : List Located) (w : World host.Txn) (ip a b : ℕ)
      → IsWellFormed (block start i body end j)
      → AreConditional body
      → b ≤ a
      → (validate host w.txn i (a == b)).valid ≡ false
      → (w' : World host.Txn) × Plays host others patience
          (flatten (block start i body end j) rest)
          rest
          w
          w'
          ip
          a
          b
        × (w'.txn ≡ w.txn)
  unfolding carry_out flatten IsWellFormed mark
  play-failed_block others patience start i body end j rest w ip a b formed conditional below
        invalid =
      let c = block start i body end j in
      (
        carry_out host (a == b) c w,
        play-carry_out_all host others patience (cons c nil) rest w ip a b (formed, tt) below,
        ap
              (λ v.
                (carry_out_all host v body
                  (mark host start (result_bits host (if v then success else not_found)) w)).txn)
              invalid
            ∙ keep_all body _ conditional,
      )
