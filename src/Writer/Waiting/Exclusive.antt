-- ===== src/Writer/Waiting/Exclusive.antt =====
-- The main thread and the writer (src/writer.cpp) do not use a transaction at the same time.
use lmdb_js.Prelude.{◌≡◌, ◌≢◌, refl, Bool, true, false, not, ◌&&◌, arith}
use lmdb_js.Writer.Waiting.{
  MainPc, granted, own, borrowed, blocked, calling, holds_main, holds_worker, Scene, opening,
  Course,
}
use lmdb_js.Writer.Waiting.Kept.{is_paused, IsTogether, Course-IsTogether}

-- the main thread has a transaction of its own
abbrev pub has_own : MainPc → Bool
has_own own = true
has_own _ = false

-- the main thread works with the transaction of the writer
abbrev pub borrows : MainPc → Bool
borrows borrowed = true
borrows calling = true
borrows _ = false

abbrev pub has_turn : MainPc → Bool
has_turn granted = true
has_turn own = true
has_turn _ = false

pub record IsExclusive (x : Scene) : Type 0 where
  pub lock : (holds_main x.main && holds_worker x.worker) ≡ false
  pub one_txn : (has_own x.main && x.has_txn) ≡ false
  pub lent : (borrows x.main && not x.has_txn) ≡ false
  pub moves : x.main ≢ blocked
  pub pauses : (is_paused x.worker && not (has_turn x.main)) ≡ false

-- the same of the parts of a scene
blocked-apart : (x : Scene) → IsTogether x → x.main ≢ blocked
blocked-apart x g = ground arith

IsTogether-IsExclusive : (x : Scene) → IsTogether x → IsExclusive x
IsTogether-IsExclusive x g = record {
  lock = ground arith;
  one_txn = ground arith;
  lent = ground arith;
  moves = λ e. ground arith;
  pauses = ground arith;
}

-- If the waits of an interruption end only by the signals that are meant for them, then in every
-- order of the steps of the main thread and the writer: at most one of them has `writingLock`;
-- the writer has no transaction while the main thread has one of its own, and has one while the
-- main thread uses the writer's; the main thread is never blocked in `mdb_txn_begin`; and the
-- writer is paused only while the main thread has its turn.
pub Course-IsExclusive :
    (spurious stray early : Type 0) (x : Scene)
    → ¬ stray
    → Course spurious stray early opening x
    → IsExclusive x
Course-IsExclusive spurious stray early x alone course =
    IsTogether-IsExclusive x (Course-IsTogether course alone refl)
