-- ===== src/Compression/Handshake/Progress.antt =====
-- A value is compressed in the end, as src/compression.cpp and src/writer.cpp share it, when
-- `compress` succeeds.
use mathlib.Core.Path.{subst}
use lmdb_js.Prelude.{ℕ, ◌≡◌, inl, refl, sym, Bool, true, false, Option, none, some, List, length}
use lmdb_js.Compression.{Lz4, Settings, compress, packed}
use lmdb_js.Compression.Handshake.{
  result, Status, requested, one, completed, Packing, packing, sized, addressed, WriterPc, testing,
  exchanging, writes, waiting, woken, ready, PoolPc, scheduled, packs, notifying, finished,
  given_up, crashed, Slot, Move, pool_size, pool_address, pool_awaited, pool_signal, write_test_raw,
  write_test_done, write_take, write_wait, write_go, write_size, write_address, write_complete,
  write_awake, write_wake, start, Reach,
}
use lmdb_js.Compression.Handshake.Together.{Together, IsTogether}
use lmdb_js.Compression.Handshake.PoolSteps.{size, address}
use lmdb_js.Compression.Handshake.Safety.{Reach-IsTogether}

abbrev slot : PoolPc → WriterPc → ℕ → Option (List ℕ) → Status → Slot
slot p w n d s = record { size = n; data' = d; status = s; writer = w; pool = p }

-- a wait that ends without a signal
abbrev pub is_spurious : {r : Option (List ℕ)} {s t : Slot} → Move r s t → Bool
is_spurious write_wake = true
is_spurious _ = false

-- steps none of which is the end of a wait without a signal
pub data Onward (r : Option (List ℕ)) (s : Slot) : Slot → Type 0 where
  stays : Onward r s s
  goes : {t u : Slot} → Onward r s t → (step : Move r t u) → is_spurious step ≡ false → Onward r s u

-- the writer can still get ready, by signals alone
abbrev pub CanFinish : Option (List ℕ) → Slot → Type 0
CanFinish r t = (u : Slot) × Onward r t u × (u.writer ≡ ready)

Onward-first :
    {r : Option (List ℕ)} {s t u : Slot} (step : Move r s t)
    → is_spurious step ≡ false
    → Onward r t u
    → Onward r s u
Onward-first step real stays = goes stays step real
Onward-first step real (goes rest last real') = goes (Onward-first step real rest) last real'

begin_by :
    {r : Option (List ℕ)} {s t : Slot} (step : Move r s t)
    → is_spurious step ≡ false
    → CanFinish r t
    → CanFinish r s
begin_by step real (u, rest, is_ready) = (u, Onward-first step real rest, is_ready)

module _ (bs : List ℕ) where
  abbrev Can : PoolPc → WriterPc → ℕ → Option (List ℕ) → Status → Type 0
  Can p w n d s = CanFinish (some bs) (slot p w n d s)

  at_ready : (p : PoolPc) (n : ℕ) (d : Option (List ℕ)) (s : Status) → Can p ready n d s
  at_ready p n d s = (slot p ready n d s, stays, refl)

  own_addressed :
      (p : PoolPc) (n : ℕ) (d : Option (List ℕ)) (s : Status) → Can p (writes addressed) n d s
  own_addressed p n d s = begin_by write_complete refl (at_ready p n d completed)

  own_sized : (p : PoolPc) (n : ℕ) (d : Option (List ℕ)) (s : Status) → Can p (writes sized) n d s
  own_sized p n d s = begin_by (write_address refl) refl (own_addressed p n (some bs) s)

  own :
      (p : PoolPc) (k : Packing) (n : ℕ) (d : Option (List ℕ)) (s : Status) → Can p (writes k) n d s
  own p packing n d s = begin_by (write_size refl) refl (own_sized p (length bs) d s)
  own p sized n d s = own_sized p n d s
  own p addressed n d s = own_addressed p n d s

  awakes : (p : PoolPc) (n : ℕ) (s : Status) → Can p woken n (some bs) s
  awakes p n s = begin_by write_awake refl (at_ready p n (some bs) s)

  signalled : (n : ℕ) (s : Status) → Can notifying waiting n (some bs) s
  signalled n s = begin_by pool_signal refl (awakes finished n s)

  -- the pool has stored the value
  stored :
      (w : WriterPc) (n : ℕ) (s : Status)
      → Together bs (packs addressed) w n (some bs) s
      → Can (packs addressed) w n (some bs) s
  unfolding Together
  stored testing n s g = begin_by write_test_done refl (at_ready (packs addressed) n (some bs) s)
  stored exchanging n s (h, st) =
      subst (Can (packs addressed) exchanging n (some bs)) (sym st)
        (begin_by write_wait refl (begin_by pool_awaited refl (signalled n completed)))
  stored (writes k) n s g = absurd g
  stored waiting n s (h, st) =
      subst (Can (packs addressed) waiting n (some bs)) (sym st)
        (begin_by pool_awaited refl (signalled n completed))
  stored woken n s g = awakes (packs addressed) n s
  stored ready n s g = at_ready (packs addressed) n (some bs) s

  addressed_whole :
      (w : WriterPc) (n : ℕ) (d : Option (List ℕ)) (s : Status)
      → Together bs (packs addressed) w n d s
      → d ≡ some bs
  unfolding Together
  addressed_whole testing n d s ((sz, whole), st) = whole
  addressed_whole exchanging n d s ((sz, whole), st) = whole
  addressed_whole (writes k) n d s g = absurd g
  addressed_whole waiting n d s ((sz, whole), st) = whole
  addressed_whole woken n d s ((sz, whole), st) = whole
  addressed_whole ready n d s ((sz, whole), st) = whole

  pool_addressed :
      (w : WriterPc) (n : ℕ) (d : Option (List ℕ)) (s : Status)
      → Together bs (packs addressed) w n d s
      → Can (packs addressed) w n d s
  pool_addressed w n d s g =
      let whole = addressed_whole w n d s g in
      subst (λ d. Can (packs addressed) w n d s) (sym whole)
        (stored w n s (subst (λ d. Together bs (packs addressed) w n d s) whole g))

  raw_start :
      (n : ℕ) (d : Option (List ℕ)) (s : Status)
      → d ≡ none
      → s ≡ requested
      → Can scheduled testing n d s
  raw_start n d s raw st =
      subst (λ d. Can scheduled testing n d s) (sym raw)
        (subst (Can scheduled testing n none) (sym st) (
          begin_by write_test_raw refl
            (begin_by write_take refl (own scheduled packing n none one))))

  pool_sized :
      (w : WriterPc) (n : ℕ) (d : Option (List ℕ)) (s : Status)
      → Together bs (packs sized) w n d s
      → Can (packs sized) w n d s
  pool_sized w n d s g = begin_by (pool_address refl) refl (stored w n s (address bs n d s w g))

  pool_working :
      (k : Packing) (w : WriterPc) (n : ℕ) (d : Option (List ℕ)) (s : Status)
      → Together bs (packs k) w n d s
      → Can (packs k) w n d s
  pool_working packing w n d s g =
      begin_by (pool_size refl) refl (pool_sized w (length bs) d s (size bs n d s w g))
  pool_working sized w n d s g = pool_sized w n d s g
  pool_working addressed w n d s g = pool_addressed w n d s g

  Together-Can :
      (p : PoolPc) (w : WriterPc) (n : ℕ) (d : Option (List ℕ)) (s : Status)
      → Together bs p w n d s
      → Can p w n d s
  unfolding Together
  Together-Can p ready n d s g = at_ready p n d s
  Together-Can p (writes k) n d s g = own p k n d s
  Together-Can scheduled testing n d s (raw, st) = raw_start n d s raw st
  Together-Can scheduled exchanging n d s (raw, st) =
      subst (Can scheduled exchanging n d) (sym st)
        (begin_by write_take refl (own scheduled packing n d one))
  Together-Can scheduled waiting n d s g = absurd g
  Together-Can scheduled woken n d s g = absurd g
  Together-Can (packs k) testing n d s g = pool_working k testing n d s g
  Together-Can (packs k) exchanging n d s g = pool_working k exchanging n d s g
  Together-Can (packs k) waiting n d s g = pool_working k waiting n d s g
  Together-Can (packs k) woken n d s g = pool_working k woken n d s g
  Together-Can notifying testing n d s g = absurd g
  Together-Can notifying exchanging n d s g = absurd g
  Together-Can notifying waiting n d s ((sz, whole), st) =
      subst (λ d. Can notifying waiting n d s) (sym whole) (signalled n s)
  Together-Can notifying woken n d s ((sz, whole), st) =
      subst (λ d. Can notifying woken n d s) (sym whole) (awakes notifying n s)
  Together-Can finished testing n d s ((sz, whole), st) =
      subst (λ d. Can finished testing n d s) (sym whole)
        (begin_by write_test_done refl (at_ready finished n (some bs) s))
  Together-Can finished exchanging n d s (h, st) =
      begin_by (write_go (inl st)) refl (at_ready finished n d one)
  Together-Can finished waiting n d s g = absurd g
  Together-Can finished woken n d s ((sz, whole), st) =
      subst (λ d. Can finished woken n d s) (sym whole) (awakes finished n s)
  Together-Can given_up testing n d s g = absurd g
  Together-Can given_up exchanging n d s g = absurd g
  Together-Can given_up waiting n d s g = absurd g
  Together-Can given_up woken n d s g = absurd g
  Together-Can crashed testing n d s g = absurd g
  Together-Can crashed exchanging n d s g = absurd g
  Together-Can crashed waiting n d s g = absurd g
  Together-Can crashed woken n d s g = absurd g

-- When LZ4 compresses the value, then from every state that the writer and the pool's thread
-- reach the writer can get the value by further steps of the two threads in which no wait ends
-- without a signal: no state is a deadlock, and the pool's signal comes to a writer that waits for
-- it.
pub Reach-CanFinish :
    (lz4 : Lz4) (c : Settings) (junk : ℕ) (value bs : List ℕ) (t : Slot)
    → compress lz4 c junk value ≡ packed bs
    → Reach (result (compress lz4 c junk value)) (start (length value)) t
    → CanFinish (result (compress lz4 c junk value)) t
Reach-CanFinish lz4 c junk value bs t packs_it reach =
    let g : IsTogether bs t =
      Reach-IsTogether bs (subst (λ r. Reach (result r) (start (length value)) t) packs_it reach) in
    subst (λ r. CanFinish (result r) t) (sym packs_it)
      (Together-Can bs t.pool t.writer t.size t.data' t.status g)
