-- ===== src/Compression/Handshake.antt =====
-- How the writer (src/writer.cpp, `DoWrites`) and a thread of the pool (src/compression.cpp,
-- `CompressionWorker::Execute`, `compress`) share the compression of a value, which one of them
-- carries out in `Compression::compressInstruction`. Each access to the shared words is a step.
pub mod Together
mod PoolSteps
mod WriterSteps
pub mod Safety
pub mod Progress
pub mod Failure
use lmdb_js.Prelude.{ℕ, ◌≡◌, ◌≢◌, ◌⊎◌, Option, none, some, List, [], ◌∷◌, length}
use lmdb_js.Compression.{Stored, plain, packed, failed}

-- The status word: the pointer to the `Compression` object, 1, 2 or 0.
pub data Status : Type 0 where
  requested : Status
  one : Status
  two : Status
  completed : Status

-- in `compressInstruction`: before `compress`, after the size is stored, after the address is stored
pub data Packing : Type 0 where
  packing : Packing
  sized : Packing
  addressed : Packing

-- the writer, which holds `writingLock` but while it waits or has just been woken
pub data WriterPc : Type 0 where
  testing : WriterPc
  exchanging : WriterPc
  writes : Packing → WriterPc
  waiting : WriterPc
  woken : WriterPc
  ready : WriterPc

-- the thread of the pool
pub data PoolPc : Type 0 where
  scheduled : PoolPc
  packs : Packing → PoolPc
  notifying : PoolPc
  finished : PoolPc
  given_up : PoolPc
  crashed : PoolPc

-- The words of the instruction: the size, the data, `none` for the address of the value as it came,
-- and the status; and where the threads are.
pub record Slot : Type 0 where
  pub size : ℕ
  pub data' : Option (List ℕ)
  pub status : Status
  pub writer : WriterPc
  pub pool : PoolPc

-- What `compress(&value, nullptr)` gives to `compressInstruction`: a value that it leaves as it was
-- is a null pointer, as after a failure.
abbrev pub result : Stored → Option (List ℕ)
result (plain bs) = none
result (packed bs) = some bs
result failed = none

-- One access by one of the threads. `r` is the result of `compress`.
pub data Move (r : Option (List ℕ)) : Slot → Slot → Type 0 where
  -- `CompressionWorker::Execute`: the exchange with 2
  pool_take :
      {n : ℕ} {d : Option (List ℕ)} {w : WriterPc}
      → Move r
          (record { size = n; data' = d; status = requested; writer = w; pool = scheduled })
          (record { size = n; data' = d; status = two; writer = w; pool = packs packing })
  pool_late :
      {n : ℕ} {d : Option (List ℕ)} {s : Status} {w : WriterPc}
      → (s ≡ completed) ⊎ (s ≡ one)
      → Move r
          (record { size = n; data' = d; status = s; writer = w; pool = scheduled })
          (record { size = n; data' = d; status = two; writer = w; pool = finished })
  -- 2 is taken for a pointer
  pool_crash :
      {n : ℕ} {d : Option (List ℕ)} {w : WriterPc}
      → Move r
          (record { size = n; data' = d; status = two; writer = w; pool = scheduled })
          (record { size = n; data' = d; status = two; writer = w; pool = crashed })
  pool_size :
      {n : ℕ} {d : Option (List ℕ)} {s : Status} {w : WriterPc} {cs : List ℕ}
      → r ≡ some cs
      → Move r
          (record { size = n; data' = d; status = s; writer = w; pool = packs packing })
          (record { size = length cs; data' = d; status = s; writer = w; pool = packs sized })
  pool_fail :
      {n : ℕ} {d : Option (List ℕ)} {s : Status} {w : WriterPc}
      → r ≡ none
      → Move r
          (record { size = n; data' = d; status = s; writer = w; pool = packs packing })
          (record { size = n; data' = d; status = s; writer = w; pool = given_up })
  pool_address :
      {n : ℕ} {d : Option (List ℕ)} {s : Status} {w : WriterPc} {cs : List ℕ}
      → r ≡ some cs
      → Move r
          (record { size = n; data' = d; status = s; writer = w; pool = packs sized })
          (record { size = n; data' = some cs; status = s; writer = w; pool = packs addressed })
  -- the exchange with 0, and the test for 1
  pool_complete :
      {n : ℕ} {d : Option (List ℕ)} {s : Status} {w : WriterPc}
      → s ≢ one
      → Move r
          (record { size = n; data' = d; status = s; writer = w; pool = packs addressed })
          (record { size = n; data' = d; status = completed; writer = w; pool = finished })
  pool_awaited :
      {n : ℕ} {d : Option (List ℕ)} {w : WriterPc}
      → Move r
          (record { size = n; data' = d; status = one; writer = w; pool = packs addressed })
          (record { size = n; data' = d; status = completed; writer = w; pool = notifying })
  -- the signal, under `writingLock`, to a writer that waits, or to none
  pool_signal :
      {n : ℕ} {d : Option (List ℕ)} {s : Status}
      → Move r
          (record { size = n; data' = d; status = s; writer = waiting; pool = notifying })
          (record { size = n; data' = d; status = s; writer = woken; pool = finished })
  pool_signal_none :
      {n : ℕ} {d : Option (List ℕ)} {s : Status} {w : WriterPc}
      → (w ≡ woken) ⊎ (w ≡ ready)
      → Move r
          (record { size = n; data' = d; status = s; writer = w; pool = notifying })
          (record { size = n; data' = d; status = s; writer = w; pool = finished })
  -- `DoWrites`: the test of the address
  write_test_raw :
      {n : ℕ} {s : Status} {p : PoolPc}
      → Move r
          (record { size = n; data' = none; status = s; writer = testing; pool = p })
          (record { size = n; data' = none; status = s; writer = exchanging; pool = p })
  write_test_done :
      {n : ℕ} {cs : List ℕ} {s : Status} {p : PoolPc}
      → Move r
          (record { size = n; data' = some cs; status = s; writer = testing; pool = p })
          (record { size = n; data' = some cs; status = s; writer = ready; pool = p })
  -- the exchange with 1
  write_take :
      {n : ℕ} {d : Option (List ℕ)} {p : PoolPc}
      → Move r
          (record { size = n; data' = d; status = requested; writer = exchanging; pool = p })
          (record { size = n; data' = d; status = one; writer = writes packing; pool = p })
  write_wait :
      {n : ℕ} {d : Option (List ℕ)} {p : PoolPc}
      → Move r
          (record { size = n; data' = d; status = two; writer = exchanging; pool = p })
          (record { size = n; data' = d; status = one; writer = waiting; pool = p })
  write_go :
      {n : ℕ} {d : Option (List ℕ)} {s : Status} {p : PoolPc}
      → (s ≡ completed) ⊎ (s ≡ one)
      → Move r
          (record { size = n; data' = d; status = s; writer = exchanging; pool = p })
          (record { size = n; data' = d; status = one; writer = ready; pool = p })
  write_size :
      {n : ℕ} {d : Option (List ℕ)} {s : Status} {p : PoolPc} {cs : List ℕ}
      → r ≡ some cs
      → Move r
          (record { size = n; data' = d; status = s; writer = writes packing; pool = p })
          (record { size = length cs; data' = d; status = s; writer = writes sized; pool = p })
  -- a failure is not looked at
  write_fail :
      {n : ℕ} {d : Option (List ℕ)} {s : Status} {p : PoolPc}
      → r ≡ none
      → Move r
          (record { size = n; data' = d; status = s; writer = writes packing; pool = p })
          (record { size = n; data' = d; status = s; writer = ready; pool = p })
  write_address :
      {n : ℕ} {d : Option (List ℕ)} {s : Status} {p : PoolPc} {cs : List ℕ}
      → r ≡ some cs
      → Move r
          (record { size = n; data' = d; status = s; writer = writes sized; pool = p })
          (record { size = n; data' = some cs; status = s; writer = writes addressed; pool = p })
  -- the exchange with 0; without an environment there is no signal
  write_complete :
      {n : ℕ} {d : Option (List ℕ)} {s : Status} {p : PoolPc}
      → Move r
          (record { size = n; data' = d; status = s; writer = writes addressed; pool = p })
          (record { size = n; data' = d; status = completed; writer = ready; pool = p })
  -- `pthread_cond_wait` may return without a signal
  write_wake :
      {n : ℕ} {d : Option (List ℕ)} {s : Status} {p : PoolPc}
      → Move r
          (record { size = n; data' = d; status = s; writer = waiting; pool = p })
          (record { size = n; data' = d; status = s; writer = woken; pool = p })
  write_again :
      {n : ℕ} {s : Status} {p : PoolPc}
      → Move r
          (record { size = n; data' = none; status = s; writer = woken; pool = p })
          (record { size = n; data' = none; status = s; writer = waiting; pool = p })
  write_awake :
      {n : ℕ} {cs : List ℕ} {s : Status} {p : PoolPc}
      → Move r
          (record { size = n; data' = some cs; status = s; writer = woken; pool = p })
          (record { size = n; data' = some cs; status = s; writer = ready; pool = p })

-- a value of `n` bytes, when the instruction has been written and `env.compress` called
abbrev pub start : ℕ → Slot
start n = record { size = n; data' = none; status = requested; writer = testing; pool = scheduled }

pub data Reach (r : Option (List ℕ)) (s : Slot) : Slot → Type 0 where
  here : Reach r s s
  next : {t u : Slot} → Reach r s t → Move r t u → Reach r s u
