-- ===== src/Writer/Waiting/Kept.antt =====
-- What the main thread and the writer are to each other at any time (src/writer.cpp), and that each
-- step keeps it.
use lmdb_js.Prelude.{◌≡◌, inl, inr, Bool, true, false, not, ◌&&◌, ◌||◌, arith}
use lmdb_js.Txn.State.{Interruption, allow_commit, interrupt_batch}
use lmdb_js.Writer.Waiting.{
  MainPc, out, locking, interrupting, granted, own, borrowed, blocked, entering, awaiting,
  signalled, calling, WorkerPc, starting, waiting, woken, paused, resumed, done, holds_worker,
  is_interrupt, Scene, Turn, main_begin, main_interrupt, main_borrow, main_own, main_granted,
  main_blocked, main_commit, main_signal, main_progress, main_await, main_wake, main_call,
  main_called, worker_start, worker_callback, worker_wait, worker_time, worker_wake, worker_again,
  worker_go, worker_pause, worker_resume, worker_pack, worker_pack_wake, worker_pack_again,
  worker_pack_go, worker_finish, worker_leave, stray_main, stray_worker, Course, begins, continues,
}

-- the writer is in the first wait
abbrev is_first : WorkerPc → Bool
is_first (waiting allow target) = true
is_first (woken allow target) = true
is_first _ = false

-- only the end of the callbacks ends the wait
abbrev is_plain : WorkerPc → Bool
is_plain (waiting allow target) = not target
is_plain _ = false

abbrev is_calling : MainPc → Bool
is_calling calling = true
is_calling _ = false

-- the writer has a transaction
abbrev pub is_open : WorkerPc → Bool
is_open starting = false
is_open paused = false
is_open resumed = false
is_open done = false
is_open _ = true

-- the writer is between its start and its end
abbrev is_started : WorkerPc → Bool
is_started starting = false
is_started done = false
is_started _ = true

-- the writer is in the first wait, and may commit there
abbrev may_commit : WorkerPc → Bool
may_commit (waiting allow target) = allow
may_commit (woken allow target) = allow
may_commit _ = false

abbrev is_woken : WorkerPc → Bool
is_woken (woken allow target) = allow
is_woken _ = false

abbrev pub is_paused : WorkerPc → Bool
is_paused paused = true
is_paused _ = false

abbrev same : Bool → Bool → Bool
same true b = b
same false b = not b

-- no interruption is under way
abbrev calm : Interruption → WorkerPc → Bool
calm interrupt_batch w = false
calm allow_commit w = may_commit w
calm _ w = true

abbrev paired : MainPc → WorkerPc → Interruption → Bool → Bool
paired out w s f = calm s w && not (is_paused w)
paired (locking sync) w s f = calm s w && not (is_paused w)
paired interrupting w s f = is_interrupt s && is_woken w
paired granted w s f = is_paused w && calm s w
paired own w s f = not (is_open w) && calm s w
paired borrowed w s f = is_open w && calm s w && not (holds_worker w)
paired blocked w s f = false
paired entering w s f = not f && calm s w && not (is_paused w)
paired awaiting w s f = not f && calm s w && not (is_paused w) && not (is_first w)
paired signalled w s f = not f && calm s w && not (is_paused w)
paired calling w s f = is_open w && calm s w && not (holds_worker w)

abbrev pub IsTogether : Scene → Type 0
IsTogether x =
    (same x.has_txn (is_open x.worker)
      && (not (is_plain x.worker) || not x.finished || is_calling x.main)
      && paired x.main x.worker x.status x.finished)
    ≡ true

-- A step keeps the two threads together, if nothing else wakes them.
pub Turn-IsTogether :
    {spurious stray early : Type 0} {x y : Scene}
    → Turn spurious stray early x y
    → ¬ stray
    → IsTogether x
    → IsTogether y
Turn-IsTogether (main_begin sync) alone g = ground arith
Turn-IsTogether (main_interrupt h) alone g = ground arith
Turn-IsTogether (main_borrow h q) alone g = ground arith
Turn-IsTogether (main_own h q) alone g = ground arith
Turn-IsTogether (main_granted h) alone g = ground arith
Turn-IsTogether (main_blocked h) alone g = ground arith
Turn-IsTogether (main_commit (inl e)) alone g = ground arith
Turn-IsTogether (main_commit (inr e)) alone g = ground arith
Turn-IsTogether main_signal alone g = ground arith
Turn-IsTogether main_progress alone g = ground arith
Turn-IsTogether (main_await (inl e) h) alone g = ground arith
Turn-IsTogether (main_await (inr e) h) alone g = ground arith
Turn-IsTogether (main_wake e) alone g = ground arith
Turn-IsTogether (main_call (inl e) h) alone g = ground arith
Turn-IsTogether (main_call (inr e) h) alone g = ground arith
Turn-IsTogether main_called alone g = ground arith
Turn-IsTogether (worker_start h) alone g = ground arith
Turn-IsTogether worker_callback alone g = ground arith
Turn-IsTogether (worker_wait allow target q) alone g = ground arith
Turn-IsTogether worker_time alone g = ground arith
Turn-IsTogether (worker_wake e) alone g = ground arith
Turn-IsTogether (worker_again h q) alone g = ground arith
Turn-IsTogether (worker_go h q) alone g = ground arith
Turn-IsTogether (worker_pause h) alone g = ground arith
Turn-IsTogether (worker_resume h) alone g = ground arith
Turn-IsTogether worker_pack alone g = ground arith
Turn-IsTogether worker_pack_wake alone g = ground arith
Turn-IsTogether (worker_pack_again h) alone g = ground arith
Turn-IsTogether (worker_pack_go h) alone g = ground arith
Turn-IsTogether worker_finish alone g = ground arith
Turn-IsTogether (worker_leave e) alone g = ground arith
Turn-IsTogether (stray_main e) alone g = absurd (alone e)
Turn-IsTogether (stray_worker e) alone g = absurd (alone e)

pub Course-IsTogether :
    {spurious stray early : Type 0} {x y : Scene}
    → Course spurious stray early x y
    → ¬ stray
    → IsTogether x
    → IsTogether y
Course-IsTogether begins alone g = g
Course-IsTogether (continues c turn) alone g =
    Turn-IsTogether turn alone (Course-IsTogether c alone g)

-- the callbacks are finished before the writer starts and when it has ended
abbrev pub IsOwed : Scene → Type 0
IsOwed x = (x.finished || is_started x.worker) ≡ true

-- A step keeps this, if `DoWrites` does not return before the end of the batch.
pub Turn-IsOwed :
    {spurious stray early : Type 0} {x y : Scene}
    → Turn spurious stray early x y
    → ¬ early
    → IsOwed x
    → IsOwed y
Turn-IsOwed (main_begin sync) alone g = ground arith
Turn-IsOwed (main_interrupt h) alone g = ground arith
Turn-IsOwed (main_borrow h q) alone g = ground arith
Turn-IsOwed (main_own h q) alone g = ground arith
Turn-IsOwed (main_granted h) alone g = ground arith
Turn-IsOwed (main_blocked h) alone g = ground arith
Turn-IsOwed (main_commit (inl e)) alone g = ground arith
Turn-IsOwed (main_commit (inr e)) alone g = ground arith
Turn-IsOwed main_signal alone g = ground arith
Turn-IsOwed main_progress alone g = ground arith
Turn-IsOwed (main_await (inl e) h) alone g = ground arith
Turn-IsOwed (main_await (inr e) h) alone g = ground arith
Turn-IsOwed (main_wake e) alone g = ground arith
Turn-IsOwed (main_call (inl e) h) alone g = ground arith
Turn-IsOwed (main_call (inr e) h) alone g = ground arith
Turn-IsOwed main_called alone g = ground arith
Turn-IsOwed (worker_start h) alone g = ground arith
Turn-IsOwed worker_callback alone g = ground arith
Turn-IsOwed (worker_wait allow target q) alone g = ground arith
Turn-IsOwed worker_time alone g = ground arith
Turn-IsOwed (worker_wake e) alone g = ground arith
Turn-IsOwed (worker_again h q) alone g = ground arith
Turn-IsOwed (worker_go h q) alone g = ground arith
Turn-IsOwed (worker_pause h) alone g = ground arith
Turn-IsOwed (worker_resume h) alone g = ground arith
Turn-IsOwed worker_pack alone g = ground arith
Turn-IsOwed worker_pack_wake alone g = ground arith
Turn-IsOwed (worker_pack_again h) alone g = ground arith
Turn-IsOwed (worker_pack_go h) alone g = ground arith
Turn-IsOwed worker_finish alone g = ground arith
Turn-IsOwed (worker_leave e) alone g = absurd (alone e)
Turn-IsOwed (stray_main e) alone g = ground arith
Turn-IsOwed (stray_worker e) alone g = ground arith

pub Course-IsOwed :
    {spurious stray early : Type 0} {x y : Scene}
    → Course spurious stray early x y
    → ¬ early
    → IsOwed x
    → IsOwed y
Course-IsOwed begins alone g = g
Course-IsOwed (continues c turn) alone g = Turn-IsOwed turn alone (Course-IsOwed c alone g)
