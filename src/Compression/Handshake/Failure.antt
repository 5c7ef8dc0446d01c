-- ===== src/Compression/Handshake/Failure.antt =====
-- What becomes of the writer of src/writer.cpp when `compressInstruction` of src/compression.cpp fails
-- in the pool.
use lmdb_js.Prelude.{ℕ, ◌≡◌, ◌⊎◌, inl, inr, refl, Option, none, List, length}
use lmdb_js.Compression.{Lz4, Settings, compress}
use lmdb_js.Compression.Handshake.{
  result, one, WriterPc, waiting, woken, given_up, Slot, Move, pool_take, pool_late, pool_crash,
  pool_size, pool_fail, pool_address, pool_complete, pool_awaited, pool_signal, pool_signal_none,
  write_test_raw, write_test_done, write_take, write_wait, write_go, write_size, write_fail,
  write_address, write_complete, write_wake, write_again, write_awake, start, Reach, here, next,
}

-- the pool has given the value up, and the writer waits for it
abbrev pub IsWaiting : Slot → Type 0
IsWaiting t = (t.pool ≡ given_up) × (t.data' ≡ none) × ((t.writer ≡ waiting) ⊎ (t.writer ≡ woken))

-- the writer waits for a value of `n` bytes that the pool has failed to compress
abbrev pub left_waiting : ℕ → Slot
left_waiting n = record { size = n; data' = none; status = one; writer = waiting; pool = given_up }

neither : {w : WriterPc} → (w ≡ waiting) ⊎ (w ≡ woken) → (w ≡ waiting → ⊥) → (w ≡ woken → ⊥) → ⊥
neither (inl e) f g = f e
neither (inr e) f g = g e

Move-IsWaiting : (r : Option (List ℕ)) {s t : Slot} → Move r s t → IsWaiting s → IsWaiting t
Move-IsWaiting r pool_take (p, d, w) = absurd (cc p)
Move-IsWaiting r (pool_late e) (p, d, w) = absurd (cc p)
Move-IsWaiting r pool_crash (p, d, w) = absurd (cc p)
Move-IsWaiting r (pool_size e) (p, d, w) = absurd (cc p)
Move-IsWaiting r (pool_fail e) (p, d, w) = absurd (cc p)
Move-IsWaiting r (pool_address e) (p, d, w) = absurd (cc p)
Move-IsWaiting r (pool_complete e) (p, d, w) = absurd (cc p)
Move-IsWaiting r pool_awaited (p, d, w) = absurd (cc p)
Move-IsWaiting r pool_signal (p, d, w) = absurd (cc p)
Move-IsWaiting r (pool_signal_none e) (p, d, w) = absurd (cc p)
Move-IsWaiting r write_test_raw (p, d, w) = absurd (neither w (λ e. cc e) (λ e. cc e))
Move-IsWaiting r write_test_done (p, d, w) = absurd (cc d)
Move-IsWaiting r write_take (p, d, w) = absurd (neither w (λ e. cc e) (λ e. cc e))
Move-IsWaiting r write_wait (p, d, w) = absurd (neither w (λ e. cc e) (λ e. cc e))
Move-IsWaiting r (write_go e) (p, d, w) = absurd (neither w (λ e. cc e) (λ e. cc e))
Move-IsWaiting r (write_size e) (p, d, w) = absurd (neither w (λ e. cc e) (λ e. cc e))
Move-IsWaiting r (write_fail e) (p, d, w) = absurd (neither w (λ e. cc e) (λ e. cc e))
Move-IsWaiting r (write_address e) (p, d, w) = absurd (neither w (λ e. cc e) (λ e. cc e))
Move-IsWaiting r write_complete (p, d, w) = absurd (neither w (λ e. cc e) (λ e. cc e))
Move-IsWaiting r write_wake (p, d, w) = (p, d, inr refl)
Move-IsWaiting r write_again (p, d, w) = (p, d, inl refl)
Move-IsWaiting r write_awake (p, d, w) = absurd (cc d)

Reach-kept : (r : Option (List ℕ)) {s t : Slot} → Reach r s t → IsWaiting s → IsWaiting t
Reach-kept r here w = w
Reach-kept r (next rest step) w = Move-IsWaiting r step (Reach-kept r rest w)

Reach-left_waiting : (r : Option (List ℕ)) (n : ℕ) → r ≡ none → Reach r (start n) (left_waiting n)
Reach-left_waiting r n fails =
    next (next (next (next here pool_take) (pool_fail fails)) write_test_raw) write_wait

-- When `compress` gives no compressed value, the writer and the pool's thread reach the state in
-- which the pool has given the value up and the writer waits for it, and from there the writer
-- waits or is woken in vain in every state that they reach.
pub Reach-IsWaiting :
    (lz4 : Lz4) (c : Settings) (junk : ℕ) (value : List ℕ) (t : Slot)
    → result (compress lz4 c junk value) ≡ none
    → Reach (result (compress lz4 c junk value)) (left_waiting (length value)) t
    → Reach
        (result (compress lz4 c junk value))
        (start (length value))
        (left_waiting (length value))
      × IsWaiting t
Reach-IsWaiting lz4 c junk value t fails reach = (
  Reach-left_waiting (result (compress lz4 c junk value)) (length value) fails,
  Reach-kept (result (compress lz4 c junk value)) reach (refl, refl, inl refl),
)
