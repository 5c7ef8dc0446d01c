-- ===== src/Writer/Waiting/Lost.antt =====
-- What comes of it when `DoWrites` (src/writer.cpp) returns while a callback is still to be called.
use lmdb_js.Prelude.{◌≡◌, refl, inl, inr, Bool, true, false, arith}
use lmdb_js.Txn.State.{idle}
use lmdb_js.Writer.Waiting.{
  MainPc, awaiting, signalled, done, Scene, scene, Turn, opening, Course, begins, continues,
  main_await, main_begin, main_blocked, main_borrow, main_call, main_called, main_commit,
  main_granted, main_interrupt, main_own, main_progress, main_signal, main_wake, stray_main,
  stray_worker, worker_again, worker_callback, worker_finish, worker_go, worker_leave, worker_pack,
  worker_pack_again, worker_pack_go, worker_pack_wake, worker_pause, worker_resume, worker_start,
  worker_time, worker_wait, worker_wake,
}

-- in the loop of `HandleProgressCallback` that waits for a transaction
abbrev pub awaits_txn : MainPc → Bool
awaits_txn awaiting = true
awaits_txn signalled = true
awaits_txn _ = false

-- the main thread waits for the writer's transaction, and the writer has ended
pub record IsLost (x : Scene) : Type 0 where
  pub main : awaits_txn x.main ≡ true
  pub no_txn : x.has_txn ≡ false
  pub worker : x.worker ≡ done

abbrev pub lost : Scene
lost = scene idle false false awaiting done

module _ {spurious stray early : Type 0} where
  Turn-IsLost : {x y : Scene} → Turn spurious stray early x y → IsLost x → IsLost y
  Turn-IsLost (main_begin sync) g = ground arith
  Turn-IsLost (main_interrupt h) g = ground arith
  Turn-IsLost (main_borrow h q) g = ground arith
  Turn-IsLost (main_own h q) g = ground arith
  Turn-IsLost (main_granted h) g = ground arith
  Turn-IsLost (main_blocked h) g = ground arith
  Turn-IsLost (main_commit (inl e)) g = ground arith
  Turn-IsLost (main_commit (inr e)) g = ground arith
  Turn-IsLost main_signal g = ground arith
  Turn-IsLost main_progress g = ground arith
  Turn-IsLost (main_await (inl e) h) g = ground arith
  Turn-IsLost (main_await (inr e) h) g = ground arith
  Turn-IsLost (main_wake e) g = ground arith
  Turn-IsLost (main_call (inl e) h) g = ground arith
  Turn-IsLost (main_call (inr e) h) g = ground arith
  Turn-IsLost main_called g = ground arith
  Turn-IsLost (worker_start h) g = ground arith
  Turn-IsLost worker_callback g = ground arith
  Turn-IsLost (worker_wait allow target q) g = ground arith
  Turn-IsLost worker_time g = ground arith
  Turn-IsLost (worker_wake e) g = ground arith
  Turn-IsLost (worker_again h q) g = ground arith
  Turn-IsLost (worker_go h q) g = ground arith
  Turn-IsLost (worker_pause h) g = ground arith
  Turn-IsLost (worker_resume h) g = ground arith
  Turn-IsLost worker_pack g = ground arith
  Turn-IsLost worker_pack_wake g = ground arith
  Turn-IsLost (worker_pack_again h) g = ground arith
  Turn-IsLost (worker_pack_go h) g = ground arith
  Turn-IsLost worker_finish g = ground arith
  Turn-IsLost (worker_leave e) g = ground arith
  Turn-IsLost (stray_main e) g = ground arith
  Turn-IsLost (stray_worker e) g = ground arith

  Course-kept : {x y : Scene} → Course spurious stray early x y → IsLost x → IsLost y
  Course-kept begins g = g
  Course-kept (continues c turn) g = Turn-IsLost turn (Course-kept c g)

  comes : early → Course spurious stray early opening lost
  comes e =
      continues
        (continues
          (continues
            (continues
              (continues
                (continues (continues (continues begins (worker_start refl)) worker_callback)
                  (worker_wait true true refl))
                worker_time)
              (worker_go refl refl))
            main_progress)
          (worker_leave e))
        (main_await (inl refl) refl)

-- If `DoWrites` may return at an instruction whose flags are not known, the main thread and the
-- writer can come to a scene where the main thread waits in `HandleProgressCallback` for a
-- transaction of the writer, which has ended; and after any further steps, with signals and
-- spurious wakes, it still waits there, and there is no transaction.
pub Course-IsLost :
    (spurious stray early : Type 0) (y : Scene)
    → early
    → Course spurious stray early lost y
    → Course spurious stray early opening lost × IsLost y
Course-IsLost spurious stray early y e course =
    (comes e, Course-kept course (record { main = refl; no_txn = refl; worker = refl }))
