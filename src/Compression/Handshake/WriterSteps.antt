-- ===== src/Compression/Handshake/WriterSteps.antt =====
-- The steps of the writer, `DoWrites` of src/writer.cpp.
use lmdb_js.Prelude.{ℕ, ◌≡◌, ◌⊎◌, inl, inr, refl, Option, none, some, List, length}
use lmdb_js.Compression.Handshake.{
  Status, requested, one, two, completed, packing, sized, addressed, testing, exchanging, writes,
  waiting, woken, ready, PoolPc, scheduled, packs, notifying, finished, given_up, crashed,
}
use lmdb_js.Compression.Handshake.Together.{Together}

no_request : (s : Status) → (s ≡ completed) ⊎ (s ≡ one) → s ≡ requested → ⊥
no_request s (inl e) st = cc (e, st)
no_request s (inr e) st = cc (e, st)

not_two : (s : Status) → (s ≡ completed) ⊎ (s ≡ one) → s ≡ two → ⊥
not_two s (inl e) st = cc (e, st)
not_two s (inr e) st = cc (e, st)

module _ (bs : List ℕ) where
  pub test_raw :
      (n : ℕ) (s : Status) (p : PoolPc)
      → Together bs p testing n none s
      → Together bs p exchanging n none s
  unfolding Together
  test_raw n s scheduled g = g
  test_raw n s (packs k) g = g
  test_raw n s notifying g = absurd g
  test_raw n s finished g = g
  test_raw n s given_up g = absurd g
  test_raw n s crashed g = absurd g

  pub test_done :
      (n : ℕ) (cs : List ℕ) (s : Status) (p : PoolPc)
      → Together bs p testing n (some cs) s
      → Together bs p ready n (some cs) s
  unfolding Together
  test_done n cs s scheduled (raw, st) = absurd (cc raw)
  test_done n cs s (packs packing) (raw, st) = absurd (cc raw)
  test_done n cs s (packs sized) ((sz, raw), st) = absurd (cc raw)
  test_done n cs s (packs addressed) (h, st) = (h, inr st)
  test_done n cs s notifying g = absurd g
  test_done n cs s finished (h, st) = h
  test_done n cs s given_up g = absurd g
  test_done n cs s crashed g = absurd g

  pub write_taken :
      (n : ℕ) (d : Option (List ℕ)) (p : PoolPc)
      → Together bs p exchanging n d requested
      → Together bs p (writes packing) n d one
  unfolding Together
  write_taken n d scheduled (raw, st) = (raw, refl)
  write_taken n d (packs k) (h, st) = absurd (cc st)
  write_taken n d notifying g = absurd g
  write_taken n d finished (h, st) = absurd (cc st)
  write_taken n d given_up g = absurd g
  write_taken n d crashed g = absurd g

  pub waits :
      (n : ℕ) (d : Option (List ℕ)) (p : PoolPc)
      → Together bs p exchanging n d two
      → Together bs p waiting n d one
  unfolding Together
  waits n d scheduled (raw, st) = absurd (cc st)
  waits n d (packs k) (h, st) = (h, refl)
  waits n d notifying g = absurd g
  waits n d finished (h, st) = absurd (cc st)
  waits n d given_up g = absurd g
  waits n d crashed g = absurd g

  pub goes :
      (n : ℕ) (d : Option (List ℕ)) (s : Status) (p : PoolPc)
      → (s ≡ completed) ⊎ (s ≡ one)
      → Together bs p exchanging n d s
      → Together bs p ready n d one
  unfolding Together
  goes n d s scheduled e (raw, st) = absurd (no_request s e st)
  goes n d s (packs k) e (h, st) = absurd (not_two s e st)
  goes n d s notifying e g = absurd g
  goes n d s finished e (h, st) = h
  goes n d s given_up e g = absurd g
  goes n d s crashed e g = absurd g

  pub own_size :
      (n : ℕ) (d : Option (List ℕ)) (s : Status) (p : PoolPc)
      → Together bs p (writes packing) n d s
      → Together bs p (writes sized) (length bs) d s
  unfolding Together
  own_size n d s scheduled (raw, st) = ((refl, raw), st)
  own_size n d s (packs k) g = absurd g
  own_size n d s notifying g = absurd g
  own_size n d s finished (raw, st) = ((refl, raw), st)
  own_size n d s given_up g = absurd g
  own_size n d s crashed g = absurd g

  pub own_address :
      (n : ℕ) (d : Option (List ℕ)) (s : Status) (p : PoolPc)
      → Together bs p (writes sized) n d s
      → Together bs p (writes addressed) n (some bs) s
  unfolding Together
  own_address n d s scheduled ((sz, raw), st) = ((sz, refl), st)
  own_address n d s (packs k) g = absurd g
  own_address n d s notifying g = absurd g
  own_address n d s finished ((sz, raw), st) = ((sz, refl), st)
  own_address n d s given_up g = absurd g
  own_address n d s crashed g = absurd g

  pub own_complete :
      (n : ℕ) (d : Option (List ℕ)) (s : Status) (p : PoolPc)
      → Together bs p (writes addressed) n d s
      → Together bs p ready n d completed
  unfolding Together
  own_complete n d s scheduled (h, st) = (h, refl)
  own_complete n d s (packs k) g = absurd g
  own_complete n d s notifying g = absurd g
  own_complete n d s finished (h, st) = h
  own_complete n d s given_up g = absurd g
  own_complete n d s crashed g = absurd g

  pub wakes :
      (n : ℕ) (d : Option (List ℕ)) (s : Status) (p : PoolPc)
      → Together bs p waiting n d s
      → Together bs p woken n d s
  unfolding Together
  wakes n d s scheduled g = absurd g
  wakes n d s (packs k) g = g
  wakes n d s notifying g = g
  wakes n d s finished g = absurd g
  wakes n d s given_up g = absurd g
  wakes n d s crashed g = absurd g

  pub again :
      (n : ℕ) (s : Status) (p : PoolPc)
      → Together bs p woken n none s
      → Together bs p waiting n none s
  unfolding Together
  again n s scheduled g = absurd g
  again n s (packs k) g = g
  again n s notifying g = g
  again n s finished ((sz, whole), st) = absurd (cc whole)
  again n s given_up g = absurd g
  again n s crashed g = absurd g

  pub awake :
      (n : ℕ) (cs : List ℕ) (s : Status) (p : PoolPc)
      → Together bs p woken n (some cs) s
      → Together bs p ready n (some cs) s
  unfolding Together
  awake n cs s scheduled g = absurd g
  awake n cs s (packs packing) (raw, st) = absurd (cc raw)
  awake n cs s (packs sized) ((sz, raw), st) = absurd (cc raw)
  awake n cs s (packs addressed) (h, st) = (h, inl st)
  awake n cs s notifying g = g
  awake n cs s finished (h, st) = h
  awake n cs s given_up g = absurd g
  awake n cs s crashed g = absurd g
