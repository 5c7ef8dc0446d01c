-- ===== src/Writer/Waiting/Finishing.antt =====
-- How the main thread and the writer (src/writer.cpp) come to their ends.
use lmdb_js.Prelude.{◌≡◌, refl, ◌⊎◌, inl, inr, Bool, true, false, arith}
use lmdb_js.Txn.State.{
  Interruption, idle, allow_commit, interrupt_batch, restart_worker_txn, user_has_lock,
}
use lmdb_js.Writer.Waiting.{
  MainPc, out, locking, interrupting, granted, own, borrowed, blocked, entering, awaiting,
  signalled, calling, WorkerPc, starting, running, waiting, woken, paused, resumed, packing, packed,
  done, holds_main, holds_worker, wake_worker, Scene, scene, Turn, main_interrupt, main_borrow,
  main_own, main_begin, main_signal, main_granted, main_commit, main_progress, main_call,
  main_called, worker_start, worker_wait, worker_time, worker_go, worker_pause, worker_resume,
  worker_pack_wake, worker_pack_go, worker_finish, opening, Course,
}
use lmdb_js.Writer.Waiting.Kept.{
  IsTogether, Turn-IsTogether, Course-IsTogether, IsOwed, Turn-IsOwed, Course-IsOwed,
}

-- What the main thread does of its own accord: a new transaction, and a call without instructions.
abbrev pub is_own_accord :
    {spurious stray early : Type 0} {x y : Scene} → Turn spurious stray early x y → Bool
is_own_accord (main_begin sync) = true
is_own_accord main_signal = true
is_own_accord _ = false

-- Steps without a spurious wake, a stray one or an early end, in which the main thread does nothing
-- of its own accord.
pub data Onward (x : Scene) : Scene → Type 0 where
  stays : Onward x x
  goes :
      {y z : Scene} → Onward x y → (turn : Turn ⊥ ⊥ ⊥ y z) → is_own_accord turn ≡ false → Onward x z

-- both threads can still come to their ends by such steps
abbrev pub CanEnd : Scene → Type 0
CanEnd x = (y : Scene) × Onward x y × (y.main ≡ out) × (y.worker ≡ done)

Onward-first :
    {x y z : Scene} (turn : Turn ⊥ ⊥ ⊥ x y) → is_own_accord turn ≡ false → Onward y z → Onward x z
Onward-first turn forced stays = goes stays turn forced
Onward-first turn forced (goes c last forced') = goes (Onward-first turn forced c) last forced'

abbrev IsSound : Scene → Type 0
IsSound x = IsTogether x × IsOwed x

-- the threads can end from a scene, if they are together there
abbrev Ending : Interruption → Bool → Bool → MainPc → WorkerPc → Type 0
Ending s t f m w = IsSound (scene s t f m w) → CanEnd (scene s t f m w)

next :
    {x y : Scene} (turn : Turn ⊥ ⊥ ⊥ x y)
    → is_own_accord turn ≡ false
    → (IsSound y → CanEnd y)
    → IsSound x
    → CanEnd x
next turn forced rest (g, o) =
    let (z, c, at_out, at_done) =
      rest (Turn-IsTogether turn (λ e. e) g, Turn-IsOwed turn (λ e. e) o) in
    (z, Onward-first turn forced c, at_out, at_done)

-- the main thread does nothing, and the callbacks are finished
worker_runs : (s : Interruption) (t : Bool) → Ending s t true out running
worker_runs s t = next worker_finish refl (λ g. (scene s false true out done, stays, refl, refl))

worker_goes : (s : Interruption) (t a b : Bool) → Ending s t true out (woken a b)
worker_goes s t a b g = next (worker_go refl (ground arith)) refl (worker_runs idle t) g

worker_ends : (s : Interruption) (t : Bool) (w : WorkerPc) → Ending s t true out w
worker_ends s t starting = next (worker_start refl) refl (worker_runs s true)
worker_ends s t running = worker_runs s t
worker_ends s t (waiting a true) = next worker_time refl (worker_goes s t a true)
worker_ends s t (waiting a false) = λ g. absurd (ground arith)
worker_ends s t (woken a b) = worker_goes s t a b
worker_ends s t paused = λ g. absurd (ground arith)
worker_ends s t resumed = next (worker_resume refl) refl (worker_runs idle true)
worker_ends s t packing =
    next worker_pack_wake refl (next (worker_pack_go refl) refl (worker_runs s t))
worker_ends s t packed = next (worker_pack_go refl) refl (worker_runs s t)
worker_ends s t done = λ g. (scene s t true out done, stays, refl, refl)

-- the callbacks
calling_ends : (s : Interruption) (t : Bool) (w : WorkerPc) → Ending s t true calling w
calling_ends s t w = next main_called refl (worker_ends s t (wake_worker w))

-- in `HandleProgressCallback`, before the lock or after a wait
abbrev door : Bool → MainPc
door true = entering
door false = signalled

at_door : (b : Bool) → (door b ≡ entering) ⊎ (door b ≡ signalled)
at_door true = inl refl
at_door false = inr refl

door-free : (b : Bool) → holds_main (door b) ≡ false
door-free true = refl
door-free false = refl

call_ends :
    (b : Bool) (s : Interruption) (w : WorkerPc)
    → holds_worker w ≡ false
    → Ending s true false (door b) w
call_ends b s w free = next (main_call (at_door b) free) refl (calling_ends s true w)

door_runs : (b : Bool) (s : Interruption) (t : Bool) → Ending s t false (door b) running
door_runs b s false = λ g. absurd (ground arith)
door_runs true s true =
    next (worker_wait true true refl) refl (call_ends true allow_commit (waiting true true) refl)
door_runs false s true =
    next (worker_wait true true refl) refl (call_ends false allow_commit (waiting true true) refl)

door_ends : (b : Bool) (s : Interruption) (t : Bool) (w : WorkerPc) → Ending s t false (door b) w
door_ends b s t starting = λ g. absurd (ground arith)
door_ends b s t running = door_runs b s t
door_ends b s t paused = λ g. absurd (ground arith)
door_ends b s t resumed = next (worker_resume (door-free b)) refl (door_runs b idle true)
door_ends b s t done = λ g. absurd (ground arith)
door_ends b s false w = λ g. absurd (ground arith)
door_ends b s true w = call_ends b s w refl

awaiting_runs : (s : Interruption) (t : Bool) → Ending s t false awaiting running
awaiting_runs s false = λ g. absurd (ground arith)
awaiting_runs s true =
    next (worker_wait true true refl) refl (call_ends false allow_commit (waiting true true) refl)

awaiting_ends : (s : Interruption) (t : Bool) (w : WorkerPc) → Ending s t false awaiting w
awaiting_ends s t running = awaiting_runs s t
awaiting_ends s t resumed = next (worker_resume refl) refl (awaiting_runs idle true)
awaiting_ends s t packing =
    next worker_pack_wake refl (next (worker_pack_go refl) refl (awaiting_runs s t))
awaiting_ends s t packed = next (worker_pack_go refl) refl (awaiting_runs s t)
awaiting_ends s t w = λ g. absurd (ground arith)

-- the main thread has the lock, or its turn
out_ends : (s : Interruption) (t f : Bool) (w : WorkerPc) → Ending s t f out w
out_ends s t true w = worker_ends s t w
out_ends s t false w = next main_progress refl (door_ends true s t w)

own_ends : (s : Interruption) (t f : Bool) (w : WorkerPc) → Ending s t f own w
own_ends s t f w = next (main_commit (inl refl)) refl (out_ends idle t f (wake_worker w))

borrowed_ends : (s : Interruption) (t f : Bool) (w : WorkerPc) → Ending s t f borrowed w
borrowed_ends s t f w = next (main_commit (inr refl)) refl (out_ends idle t f (wake_worker w))

granted_ends : (s : Interruption) (t f : Bool) (w : WorkerPc) → Ending s t f granted w
granted_ends s false f paused = next (main_granted refl) refl (own_ends s false f paused)
granted_ends s t f w = λ g. absurd (ground arith)

interrupting_ends : (s : Interruption) (t f : Bool) (w : WorkerPc) → Ending s t f interrupting w
interrupting_ends interrupt_batch t f (woken a b) =
    next (worker_pause refl) refl (granted_ends restart_worker_txn false f paused)
interrupting_ends s t f w = λ g. absurd (ground arith)

-- the main thread begins a transaction, and the writer does not have the lock
locking_free :
    (sync : Bool) (s : Interruption) (t f : Bool) (w : WorkerPc)
    → holds_worker w ≡ false
    → Ending s t f (locking sync) w
locking_free true allow_commit t f w free =
    next (main_interrupt free) refl (interrupting_ends interrupt_batch t f (wake_worker w))
locking_free sync s true f w free =
    next (main_borrow free refl) refl (borrowed_ends user_has_lock true f w)
locking_free sync s false f w free =
    next (main_own free refl) refl (own_ends user_has_lock false f w)

locking_ends :
    (sync : Bool) (s : Interruption) (t f : Bool) (w : WorkerPc) → Ending s t f (locking sync) w
locking_ends sync s t f running =
    next (worker_wait true true (ground arith)) refl
      (locking_free sync allow_commit t f (waiting true true) refl)
locking_ends sync s t f w = locking_free sync s t f w refl

ends : (s : Interruption) (t f : Bool) (m : MainPc) (w : WorkerPc) → Ending s t f m w
ends s t f out w = out_ends s t f w
ends s t f (locking sync) w = locking_ends sync s t f w
ends s t f interrupting w = interrupting_ends s t f w
ends s t f granted w = granted_ends s t f w
ends s t f own w = own_ends s t f w
ends s t f borrowed w = borrowed_ends s t f w
ends s t f blocked w = λ g. absurd (ground arith)
ends s t true entering w = λ g. absurd (ground arith)
ends s t false entering w = door_ends true s t w
ends s t true awaiting w = λ g. absurd (ground arith)
ends s t false awaiting w = awaiting_ends s t w
ends s t true signalled w = λ g. absurd (ground arith)
ends s t false signalled w = door_ends false s t w
ends s t true calling w = calling_ends s t w
ends s t false calling w = next main_called refl (out_ends s t false (wake_worker w))

-- If the waits of an interruption end only by the signals that are meant for them, and `DoWrites`
-- does not return before the end of the batch, then from every scene that the main thread and the
-- writer come to, they can go on until the main thread has left its transaction or callback and
-- the writer has ended. For this no wait has to end but by a signal of the other thread or, for a
-- compressed value, of the pool, or by its time in the wait with a target, and the main thread
-- need not begin another transaction or call `write`: there is no deadlock, and a wait without a
-- time gets its signal.
pub Course-CanEnd :
    (spurious stray early : Type 0) (x : Scene)
    → ¬ stray
    → ¬ early
    → Course spurious stray early opening x
    → CanEnd x
Course-CanEnd spurious stray early x alone whole course =
    ends x.status x.has_txn x.finished x.main x.worker
      (Course-IsTogether course alone refl, Course-IsOwed course whole refl)
