-- ===== src/Compression/Handshake/PoolSteps.antt =====
-- The steps of the pool's thread, `CompressionWorker::Execute` of src/compression.cpp.
use lmdb_js.Prelude.{ℕ, ◌≡◌, ◌≢◌, ◌⊎◌, inl, inr, refl, Option, some, List, length}
use lmdb_js.Compression.Handshake.{
  Status, requested, one, two, completed, packing, sized, addressed, WriterPc, testing, exchanging,
  writes, waiting, woken, ready, scheduled, packs, notifying, finished, crashed,
}
use lmdb_js.Compression.Handshake.Together.{Together}

no_request : (s : Status) → (s ≡ completed) ⊎ (s ≡ one) → s ≡ requested → ⊥
no_request s (inl e) st = cc (e, st)
no_request s (inr e) st = cc (e, st)

no_waiting : (waiting ≡ woken) ⊎ (waiting ≡ ready) → ⊥
no_waiting (inl e) = cc e
no_waiting (inr e) = cc e

module _ (bs : List ℕ) where
  pub take :
      (n : ℕ) (d : Option (List ℕ)) (w : WriterPc)
      → Together bs scheduled w n d requested
      → Together bs (packs packing) w n d two
  unfolding Together
  take n d testing (raw, st) = (raw, refl)
  take n d exchanging (raw, st) = (raw, refl)
  take n d (writes k) (h, st) = absurd (cc st)
  take n d waiting g = absurd g
  take n d woken g = absurd g
  take n d ready (h, st) = absurd (cc st)

  pub late :
      (n : ℕ) (d : Option (List ℕ)) (s : Status) (w : WriterPc)
      → (s ≡ completed) ⊎ (s ≡ one)
      → Together bs scheduled w n d s
      → Together bs finished w n d two
  unfolding Together
  late n d s testing e (raw, st) = absurd (no_request s e st)
  late n d s exchanging e (raw, st) = absurd (no_request s e st)
  late n d s (writes k) e (h, st) = (h, refl)
  late n d s waiting e g = absurd g
  late n d s woken e g = absurd g
  late n d s ready e (h, st) = h

  pub crash :
      (n : ℕ) (d : Option (List ℕ)) (w : WriterPc)
      → Together bs scheduled w n d two
      → Together bs crashed w n d two
  unfolding Together
  crash n d testing (h, st) = absurd (cc st)
  crash n d exchanging (h, st) = absurd (cc st)
  crash n d (writes k) (h, st) = absurd (cc st)
  crash n d waiting g = absurd g
  crash n d woken g = absurd g
  crash n d ready (h, st) = absurd (cc st)

  pub size :
      (n : ℕ) (d : Option (List ℕ)) (s : Status) (w : WriterPc)
      → Together bs (packs packing) w n d s
      → Together bs (packs sized) w (length bs) d s
  unfolding Together
  size n d s testing (raw, st) = ((refl, raw), st)
  size n d s exchanging (raw, st) = ((refl, raw), st)
  size n d s (writes k) g = absurd g
  size n d s waiting (raw, st) = ((refl, raw), st)
  size n d s woken (raw, st) = ((refl, raw), st)
  size n d s ready g = absurd g

  pub address :
      (n : ℕ) (d : Option (List ℕ)) (s : Status) (w : WriterPc)
      → Together bs (packs sized) w n d s
      → Together bs (packs addressed) w n (some bs) s
  unfolding Together
  address n d s testing ((sz, raw), st) = ((sz, refl), st)
  address n d s exchanging ((sz, raw), st) = ((sz, refl), st)
  address n d s (writes k) g = absurd g
  address n d s waiting ((sz, raw), st) = ((sz, refl), st)
  address n d s woken ((sz, raw), st) = ((sz, refl), st)
  address n d s ready g = absurd g

  pub complete :
      (n : ℕ) (d : Option (List ℕ)) (s : Status) (w : WriterPc)
      → s ≢ one
      → Together bs (packs addressed) w n d s
      → Together bs finished w n d completed
  unfolding Together
  complete n d s testing other (h, st) = (h, refl)
  complete n d s exchanging other (h, st) = (h, refl)
  complete n d s (writes k) other g = absurd g
  complete n d s waiting other (h, st) = absurd (other st)
  complete n d s woken other (h, st) = absurd (other st)
  complete n d s ready other (h, st) = h

  pub awaited :
      (n : ℕ) (d : Option (List ℕ)) (w : WriterPc)
      → Together bs (packs addressed) w n d one
      → Together bs notifying w n d completed
  unfolding Together
  awaited n d testing (h, st) = absurd (cc st)
  awaited n d exchanging (h, st) = absurd (cc st)
  awaited n d (writes k) g = absurd g
  awaited n d waiting (h, st) = (h, refl)
  awaited n d woken (h, st) = (h, refl)
  awaited n d ready (h, st) = (h, refl)

  pub signal :
      (n : ℕ) (d : Option (List ℕ)) (s : Status)
      → Together bs notifying waiting n d s
      → Together bs finished woken n d s
  unfolding Together
  signal n d s g = g

  pub signal_none :
      (n : ℕ) (d : Option (List ℕ)) (s : Status) (w : WriterPc)
      → (w ≡ woken) ⊎ (w ≡ ready)
      → Together bs notifying w n d s
      → Together bs finished w n d s
  unfolding Together
  signal_none n d s testing e g = absurd g
  signal_none n d s exchanging e g = absurd g
  signal_none n d s (writes k) e g = absurd g
  signal_none n d s waiting e g = absurd (no_waiting e)
  signal_none n d s woken e g = g
  signal_none n d s ready e (h, st) = h
