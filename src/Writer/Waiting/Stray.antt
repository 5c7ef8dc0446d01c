-- ===== src/Writer/Waiting/Stray.antt =====
-- What comes of it when a wait of `AcquireTxn` (src/writer.cpp) ends before the writer has committed.
use lmdb_js.Prelude.{◌≡◌, refl, inl, inr, true, arith}
use lmdb_js.Txn.State.{interrupt_batch}
use lmdb_js.Writer.Waiting.{
  blocked, woken, Scene, scene, Turn, opening, Course, begins, continues, main_await, main_begin,
  main_blocked, main_borrow, main_call, main_called, main_commit, main_granted, main_interrupt,
  main_own, main_progress, main_signal, main_wake, stray_main, stray_worker, worker_again,
  worker_callback, worker_finish, worker_leave, worker_go, worker_pack, worker_pack_again,
  worker_pack_go, worker_pack_wake, worker_pause, worker_resume, worker_start, worker_time,
  worker_wait, worker_wake,
}

-- the main thread waits in `mdb_txn_begin` for the writer's transaction, with the lock, and the
-- writer has been woken and waits for the lock
abbrev pub stuck : Scene
stuck = scene interrupt_batch true true blocked (woken true true)

-- from such a scene there is no step
record IsStuck (x : Scene) : Type 0 where
  main : x.main ≡ blocked
  worker : x.worker ≡ woken true true

module _ {spurious stray early : Type 0} where
  no-step : {x y : Scene} → IsStuck x → ¬ Turn spurious stray early x y
  no-step s (main_begin sync) = ground arith
  no-step s (main_interrupt h) = ground arith
  no-step s (main_borrow h q) = ground arith
  no-step s (main_own h q) = ground arith
  no-step s (main_granted h) = ground arith
  no-step s (main_blocked h) = ground arith
  no-step s (main_commit (inl e)) = ground arith
  no-step s (main_commit (inr e)) = ground arith
  no-step s main_signal = ground arith
  no-step s main_progress = ground arith
  no-step s (main_await (inl e) h) = ground arith
  no-step s (main_await (inr e) h) = ground arith
  no-step s (main_wake e) = ground arith
  no-step s (main_call (inl e) h) = ground arith
  no-step s (main_call (inr e) h) = ground arith
  no-step s main_called = ground arith
  no-step s (worker_start h) = ground arith
  no-step s worker_callback = ground arith
  no-step s (worker_wait allow target q) = ground arith
  no-step s worker_time = ground arith
  no-step s (worker_wake e) = ground arith
  no-step s (worker_again h q) = ground arith
  no-step s (worker_go h q) = ground arith
  no-step s (worker_pause h) = ground arith
  no-step s (worker_resume h) = ground arith
  no-step s worker_pack = ground arith
  no-step s worker_pack_wake = ground arith
  no-step s (worker_pack_again h) = ground arith
  no-step s (worker_pack_go h) = ground arith
  no-step s worker_finish = ground arith
  no-step s (worker_leave e) = ground arith
  no-step s (stray_main e) = ground arith
  no-step s (stray_worker e) = ground arith

  comes : stray → Course spurious stray early opening stuck
  comes e =
      continues
        (continues
          (continues
            (continues
              (continues (continues begins (worker_start refl)) (worker_wait true true refl))
              (main_begin true))
            (main_interrupt refl))
          (stray_main e))
        (main_blocked refl)

-- If the wait of `AcquireTxn` may end before the writer has committed, without a signal or by a
-- signal that a thread of the pool sends, the main thread and the writer can come to a deadlock:
-- the main thread waits in `mdb_txn_begin`, with `writingLock`, for the writer's transaction to
-- end, the writer waits for `writingLock`, and no step follows.
pub Course-IsStuck :
    (spurious stray early : Type 0) (y : Scene)
    → stray
    → Course spurious stray early opening stuck × (¬ Turn spurious stray early stuck y)
Course-IsStuck spurious stray early y e = (comes e, no-step (record { main = refl; worker = refl }))
