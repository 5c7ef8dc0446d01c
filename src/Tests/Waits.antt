-- ===== src/Tests/Waits.antt =====
-- A batch that the main thread interrupts (src/writer.cpp).
use lmdb_js.Prelude.{refl, true, false}
use lmdb_js.Txn.State.{idle, restart_worker_txn}
use lmdb_js.Writer.Waiting.{
  own, paused, done, Scene, scene, Turn, main_begin, main_interrupt, main_granted, worker_start,
  worker_wait, worker_pause, main_wake, signalled, opening, Course, begins, continues,
}
use lmdb_js.Writer.Waiting.Exclusive.{IsExclusive, Course-IsExclusive}
use lmdb_js.Writer.Waiting.Finishing.{CanEnd, Course-CanEnd}
use lmdb_js.Writer.Waiting.Stray.{stuck, Course-IsStuck}
use lmdb_js.Writer.Waiting.Lost.{IsLost, lost, Course-IsLost}

-- the main thread has a transaction between two of the writer
abbrev interrupted : Scene
interrupted = scene restart_worker_txn false true own paused

interrupted-Course : Course ⊥ ⊥ ⊥ opening interrupted
interrupted-Course =
    continues
      (continues
        (continues
          (continues (continues (continues begins (worker_start refl)) (worker_wait true true refl))
            (main_begin true))
          (main_interrupt refl))
        (worker_pause refl))
      (main_granted refl)

Course-IsExclusive_example : IsExclusive interrupted
Course-IsExclusive_example = Course-IsExclusive ⊥ ⊥ ⊥ interrupted (λ e. e) interrupted-Course

Course-CanEnd_example : CanEnd interrupted
Course-CanEnd_example = Course-CanEnd ⊥ ⊥ ⊥ interrupted (λ e. e) (λ e. e) interrupted-Course

Course-IsStuck_example : Course ⊥ (Unit {0}) ⊥ opening stuck × (¬ Turn ⊥ (Unit {0}) ⊥ stuck opening)
Course-IsStuck_example = Course-IsStuck ⊥ (Unit {0}) ⊥ opening tt

-- a spurious wake, which does not help
abbrev woken_up : Scene
woken_up = scene idle false false signalled done

Course-IsLost_example : Course (Unit {0}) ⊥ (Unit {0}) opening lost × IsLost woken_up
Course-IsLost_example =
    Course-IsLost (Unit {0}) ⊥ (Unit {0}) woken_up tt (continues begins (main_wake tt))
