-- ===== src/Writer/Waiting.antt =====
-- How the main thread and the writer share `writingLock` and the writer's transaction:
-- `WaitForCallbacks`, `AcquireTxn`, `UnlockTxn`, `WriteWorker::Write`, `HandleProgressCallback` of
-- src/writer.cpp, with the callers of `AcquireTxn` and `UnlockTxn` in src/env.cpp. What a thread does
-- while it has the lock is one step. LMDB refuses nothing here.
pub mod Kept
pub mod Exclusive
pub mod Finishing
pub mod Stray
pub mod Lost
use lmdb_js.Prelude.{◌≡◌, ◌⊎◌, Bool, true, false, not, ◌&&◌, ◌||◌}
use lmdb_js.Txn.State.{
  Interruption, idle, allow_commit, interrupt_batch, restart_worker_txn, user_has_lock,
  is_allow_commit,
}

-- Where the main thread is. `own`: it has a transaction of its own; `borrowed`: it has the writer's,
-- for a transaction; `calling`: it has the writer's, for callbacks; `blocked`: it waits in
-- `mdb_txn_begin` for the writer's transaction to end.
pub data MainPc : Type 0 where
  out : MainPc
  locking : Bool → MainPc
  interrupting : MainPc
  granted : MainPc
  own : MainPc
  borrowed : MainPc
  blocked : MainPc
  entering : MainPc
  awaiting : MainPc
  signalled : MainPc
  calling : MainPc

-- Where the writer is. `waiting` and `woken` are in the first wait of `WaitForCallbacks`, with
-- `allowCommit` and with whether there is a `target`; `paused` and `resumed` in the second;
-- `packing` and `packed` in the wait for a compressed value in `DoWrites`.
pub data WorkerPc : Type 0 where
  starting : WorkerPc
  running : WorkerPc
  waiting : Bool → Bool → WorkerPc
  woken : Bool → Bool → WorkerPc
  paused : WorkerPc
  resumed : WorkerPc
  packing : WorkerPc
  packed : WorkerPc
  done : WorkerPc

-- who has `writingLock`
abbrev pub holds_main : MainPc → Bool
holds_main own = true
holds_main borrowed = true
holds_main blocked = true
holds_main calling = true
holds_main _ = false

abbrev pub holds_worker : WorkerPc → Bool
holds_worker running = true
holds_worker _ = false

-- `pthread_cond_signal(writingCond)` by the one thread, for the other
abbrev pub wake_main : MainPc → MainPc
wake_main interrupting = granted
wake_main awaiting = signalled
wake_main m = m

abbrev pub wake_worker : WorkerPc → WorkerPc
wake_worker (waiting allow target) = woken allow target
wake_worker paused = resumed
wake_worker packing = packed
wake_worker w = w

abbrev pub is_interrupt : Interruption → Bool
is_interrupt interrupt_batch = true
is_interrupt _ = false

-- `interruptionStatus`; whether `txn` of the writer is not null; `finishedProgress`
pub record Scene : Type 0 where
  pub status : Interruption
  pub has_txn : Bool
  pub finished : Bool
  pub main : MainPc
  pub worker : WorkerPc

abbrev pub scene : Interruption → Bool → Bool → MainPc → WorkerPc → Scene
scene s t f m w = record { status = s; has_txn = t; finished = f; main = m; worker = w }

-- `allowCommit ? ALLOW_COMMIT : 0`
abbrev pub allowing : Bool → Interruption
allowing true = allow_commit
allowing false = idle

-- One step of a thread. `spurious` is whether a wait that is repeated until its condition holds may
-- end without a signal, as POSIX allows; `stray`, whether one of the two waits of an interruption,
-- which are not repeated, may end so, or by a signal of a thread of the pool; `early`, whether the
-- batch may have an instruction with flags that are not known.
pub data Turn (spurious stray early : Type 0) : Scene → Scene → Type 0 where
  -- `beginTxn` for a write transaction; whether it has TXN_SYNCHRONOUS_COMMIT
  main_begin :
      {s : Interruption} {t f : Bool} {w : WorkerPc} (sync : Bool)
      → Turn spurious stray early (scene s t f out w) (scene s t f (locking sync) w)
  -- `AcquireTxn`: the batch is interrupted, and the main thread waits
  main_interrupt :
      {t f : Bool} {w : WorkerPc}
      → holds_worker w ≡ false
      → Turn spurious stray early
          (scene allow_commit t f (locking true) w)
          (scene interrupt_batch t f interrupting (wake_worker w))
  -- the other branch of `AcquireTxn`, with the writer's transaction or without one
  main_borrow :
      {s : Interruption} {f : Bool} {w : WorkerPc} {sync : Bool}
      → holds_worker w ≡ false
      → sync && is_allow_commit s ≡ false
      → Turn spurious stray early
          (scene s true f (locking sync) w)
          (scene user_has_lock true f borrowed w)
  main_own :
      {s : Interruption} {f : Bool} {w : WorkerPc} {sync : Bool}
      → holds_worker w ≡ false
      → sync && is_allow_commit s ≡ false
      → Turn spurious stray early
          (scene s false f (locking sync) w)
          (scene user_has_lock false f own w)
  -- after the wait in `AcquireTxn`: `mdb_txn_begin`, which waits while another transaction is open
  main_granted :
      {s : Interruption} {f : Bool} {w : WorkerPc}
      → holds_worker w ≡ false
      → Turn spurious stray early (scene s false f granted w) (scene s false f own w)
  main_blocked :
      {s : Interruption} {f : Bool} {w : WorkerPc}
      → holds_worker w ≡ false
      → Turn spurious stray early (scene s true f granted w) (scene s true f blocked w)
  -- `commitTxn` or `abortTxn`, and `UnlockTxn`
  main_commit :
      {s : Interruption} {t f : Bool} {m : MainPc} {w : WorkerPc}
      → (m ≡ own) ⊎ (m ≡ borrowed)
      → Turn spurious stray early (scene s t f m w) (scene idle t f out (wake_worker w))
  -- `EnvWrap::write` without instructions
  main_signal :
      {s : Interruption} {t f : Bool} {w : WorkerPc}
      → Turn spurious stray early (scene s t f out w) (scene s t f out (wake_worker w))
  -- `HandleProgressCallback`, until it has the lock and there is a transaction
  main_progress :
      {s : Interruption} {t : Bool} {w : WorkerPc}
      → Turn spurious stray early (scene s t false out w) (scene s t false entering w)
  main_await :
      {s : Interruption} {f : Bool} {m : MainPc} {w : WorkerPc}
      → (m ≡ entering) ⊎ (m ≡ signalled)
      → holds_worker w ≡ false
      → Turn spurious stray early (scene s false f m w) (scene s false f awaiting w)
  main_wake :
      {s : Interruption} {t f : Bool} {w : WorkerPc}
      → spurious
      → Turn spurious stray early (scene s t f awaiting w) (scene s t f signalled w)
  main_call :
      {s : Interruption} {f : Bool} {m : MainPc} {w : WorkerPc}
      → (m ≡ entering) ⊎ (m ≡ signalled)
      → holds_worker w ≡ false
      → Turn spurious stray early (scene s true f m w) (scene s true true calling w)
  main_called :
      {s : Interruption} {t f : Bool} {w : WorkerPc}
      → Turn spurious stray early (scene s t f calling w) (scene s t f out (wake_worker w))
  -- `Write`: the lock and `mdb_txn_begin`
  worker_start :
      {s : Interruption} {t f : Bool} {m : MainPc}
      → holds_main m ≡ false
      → Turn spurious stray early (scene s t f m starting) (scene s true f m running)
  -- USER_CALLBACK in `DoWrites`
  worker_callback :
      {s : Interruption} {t f : Bool} {m : MainPc}
      → Turn spurious stray early (scene s t f m running) (scene s t false m running)
  -- `WaitForCallbacks`: the signal and the first wait. There is no target only while the callbacks
  -- are not finished.
  worker_wait :
      {s : Interruption} {t f : Bool} {m : MainPc} (allow target : Bool)
      → f && not target ≡ false
      → Turn spurious stray early
          (scene s t f m running)
          (scene (allowing allow) t f (wake_main m) (waiting allow target))
  -- the time of a wait with a target is over
  worker_time :
      {s : Interruption} {t f : Bool} {m : MainPc} {allow : Bool}
      → Turn spurious stray early
          (scene s t f m (waiting allow true))
          (scene s t f m (woken allow true))
  worker_wake :
      {s : Interruption} {t f : Bool} {m : MainPc} {allow target : Bool}
      → spurious
      → Turn spurious stray early
          (scene s t f m (waiting allow target))
          (scene s t f m (woken allow target))
  -- the loop waits again, unless it is allowed to commit, and interrupted or without callbacks; it
  -- also ends when the next instruction is there
  worker_again :
      {s : Interruption} {t f : Bool} {m : MainPc} {allow : Bool}
      → holds_main m ≡ false
      → allow && (is_interrupt s || f) ≡ false
      → Turn spurious stray early
          (scene s t f m (woken allow true))
          (scene s t f m (waiting allow true))
  -- after the loop
  worker_go :
      {s : Interruption} {t f : Bool} {m : MainPc} {allow target : Bool}
      → holds_main m ≡ false
      → is_interrupt s ≡ false
      → Turn spurious stray early (scene s t f m (woken allow target)) (scene idle t f m running)
  -- the interruption: the commit, the signal, and the second wait
  worker_pause :
      {t f : Bool} {m : MainPc} {allow target : Bool}
      → holds_main m ≡ false
      → Turn spurious stray early
          (scene interrupt_batch t f m (woken allow target))
          (scene restart_worker_txn false f (wake_main m) paused)
  worker_resume :
      {s : Interruption} {t f : Bool} {m : MainPc}
      → holds_main m ≡ false
      → Turn spurious stray early (scene s t f m resumed) (scene idle true f m running)
  -- the wait for a compressed value, which a thread of the pool signals, and which is repeated
  -- until the value is there
  worker_pack :
      {s : Interruption} {t f : Bool} {m : MainPc}
      → Turn spurious stray early (scene s t f m running) (scene s t f m packing)
  worker_pack_wake :
      {s : Interruption} {t f : Bool} {m : MainPc}
      → Turn spurious stray early (scene s t f m packing) (scene s t f m packed)
  worker_pack_again :
      {s : Interruption} {t f : Bool} {m : MainPc}
      → holds_main m ≡ false
      → Turn spurious stray early (scene s t f m packed) (scene s t f m packing)
  worker_pack_go :
      {s : Interruption} {t f : Bool} {m : MainPc}
      → holds_main m ≡ false
      → Turn spurious stray early (scene s t f m packed) (scene s t f m running)
  -- `DoWrites` ends with the batch only if the callbacks are finished; then the commit and the unlocking
  worker_finish :
      {s : Interruption} {t : Bool} {m : MainPc}
      → Turn spurious stray early (scene s t true m running) (scene s false true m done)
  -- `DoWrites` returns at flags that are not known, with callbacks finished or not; then the commit
  -- or the abort, and the unlocking
  worker_leave :
      {s : Interruption} {t f : Bool} {m : MainPc}
      → early
      → Turn spurious stray early (scene s t f m running) (scene s false f m done)
  -- a thread is woken before the other one has done what it waits for
  stray_main :
      {s : Interruption} {t f : Bool} {w : WorkerPc}
      → stray
      → Turn spurious stray early (scene s t f interrupting w) (scene s t f granted w)
  stray_worker :
      {s : Interruption} {t f : Bool} {m : MainPc}
      → stray
      → Turn spurious stray early (scene s t f m paused) (scene s t f m resumed)

-- a worker is queued, and the main thread does nothing with the lock
abbrev pub opening : Scene
opening = scene idle false true out starting

pub data Course (spurious stray early : Type 0) (s : Scene) : Scene → Type 0 where
  begins : Course spurious stray early s s
  continues :
      {t u : Scene}
      → Course spurious stray early s t
      → Turn spurious stray early t u
      → Course spurious stray early s u
