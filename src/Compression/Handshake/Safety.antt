-- ===== src/Compression/Handshake/Safety.antt =====
-- Safety of the sharing of src/compression.cpp and src/writer.cpp, when `compress` succeeds.
use mathlib.Core.Path.{subst}
use lmdb_js.Prelude.{ℕ, ◌≡◌, refl, Option, some, List, length}
use lmdb_js.Compression.{Lz4, Settings, compress, packed}
use lmdb_js.Compression.Handshake.{
  result, Status, packing, sized, addressed, WriterPc, testing, exchanging, writes, waiting, woken,
  ready, PoolPc, scheduled, packs, notifying, finished, given_up, crashed, Slot, Move, pool_take,
  pool_late, pool_crash, pool_size, pool_fail, pool_address, pool_complete, pool_awaited,
  pool_signal, pool_signal_none, write_test_raw, write_test_done, write_take, write_wait, write_go,
  write_size, write_fail, write_address, write_complete, write_wake, write_again, write_awake,
  start, Reach, here, next,
}
use lmdb_js.Compression.Handshake.Together.{Whole, Together, IsTogether}
use lmdb_js.Compression.Handshake.PoolSteps.{
  take, late, crash, size, address, complete, awaited, signal, signal_none,
}
use lmdb_js.Compression.Handshake.WriterSteps.{
  test_raw, test_done, write_taken, waits, goes, own_size, own_address, own_complete, wakes, again,
  awake,
}

some-inj : (bs cs : List ℕ) → some bs ≡ some cs → bs ≡ cs
some-inj bs cs e = cc e

module _ (bs : List ℕ) where
  Move-IsTogether : {s t : Slot} → Move (some bs) s t → IsTogether bs s → IsTogether bs t
  Move-IsTogether (pool_take {n} {d} {w}) g = take bs n d w g
  Move-IsTogether (pool_late {n} {d} {s} {w} e) g = late bs n d s w e g
  Move-IsTogether (pool_crash {n} {d} {w}) g = crash bs n d w g
  Move-IsTogether (pool_size {n} {d} {s} {w} {cs} e) g =
      subst (λ cs. Together bs (packs sized) w (length cs) d s) (some-inj bs cs e)
        (size bs n d s w g)
  Move-IsTogether (pool_fail {n} {d} {s} {w} e) g = absurd (cc e)
  Move-IsTogether (pool_address {n} {d} {s} {w} {cs} e) g =
      subst (λ cs. Together bs (packs addressed) w n (some cs) s) (some-inj bs cs e)
        (address bs n d s w g)
  Move-IsTogether (pool_complete {n} {d} {s} {w} other) g = complete bs n d s w other g
  Move-IsTogether (pool_awaited {n} {d} {w}) g = awaited bs n d w g
  Move-IsTogether (pool_signal {n} {d} {s}) g = signal bs n d s g
  Move-IsTogether (pool_signal_none {n} {d} {s} {w} e) g = signal_none bs n d s w e g
  Move-IsTogether (write_test_raw {n} {s} {p}) g = test_raw bs n s p g
  Move-IsTogether (write_test_done {n} {cs} {s} {p}) g = test_done bs n cs s p g
  Move-IsTogether (write_take {n} {d} {p}) g = write_taken bs n d p g
  Move-IsTogether (write_wait {n} {d} {p}) g = waits bs n d p g
  Move-IsTogether (write_go {n} {d} {s} {p} e) g = goes bs n d s p e g
  Move-IsTogether (write_size {n} {d} {s} {p} {cs} e) g =
      subst (λ cs. Together bs p (writes sized) (length cs) d s) (some-inj bs cs e)
        (own_size bs n d s p g)
  Move-IsTogether (write_fail {n} {d} {s} {p} e) g = absurd (cc e)
  Move-IsTogether (write_address {n} {d} {s} {p} {cs} e) g =
      subst (λ cs. Together bs p (writes addressed) n (some cs) s) (some-inj bs cs e)
        (own_address bs n d s p g)
  Move-IsTogether (write_complete {n} {d} {s} {p}) g = own_complete bs n d s p g
  Move-IsTogether (write_wake {n} {d} {s} {p}) g = wakes bs n d s p g
  Move-IsTogether (write_again {n} {s} {p}) g = again bs n s p g
  Move-IsTogether (write_awake {n} {cs} {s} {p}) g = awake bs n cs s p g

  pub Reach-IsTogether : {n : ℕ} {t : Slot} → Reach (some bs) (start n) t → IsTogether bs t
  unfolding Together
  Reach-IsTogether here = (refl, refl)
  Reach-IsTogether (next r s) = Move-IsTogether s (Reach-IsTogether r)

-- a writer that goes on has the whole compressed value
abbrev pub HasWhole : List ℕ → WriterPc → ℕ → Option (List ℕ) → Type 0
HasWhole bs ready n d = Whole bs n d
HasWhole bs _ n d = Unit

-- the pool has not taken 2 for a pointer
abbrev pub IsUncrashed : PoolPc → Type 0
IsUncrashed crashed = ⊥
IsUncrashed _ = Unit

abbrev pub IsSafe : List ℕ → Slot → Type 0
IsSafe bs t = HasWhole bs t.writer t.size t.data' × IsUncrashed t.pool

module _ (bs : List ℕ) where
  Together-HasWhole :
      (p : PoolPc) (w : WriterPc) (n : ℕ) (d : Option (List ℕ)) (s : Status)
      → Together bs p w n d s
      → HasWhole bs w n d
  unfolding Together
  Together-HasWhole p testing n d s g = tt
  Together-HasWhole p exchanging n d s g = tt
  Together-HasWhole p (writes k) n d s g = tt
  Together-HasWhole p waiting n d s g = tt
  Together-HasWhole p woken n d s g = tt
  Together-HasWhole scheduled ready n d s (h, st) = h
  Together-HasWhole (packs packing) ready n d s g = absurd g
  Together-HasWhole (packs sized) ready n d s g = absurd g
  Together-HasWhole (packs addressed) ready n d s (h, st) = h
  Together-HasWhole notifying ready n d s (h, st) = h
  Together-HasWhole finished ready n d s h = h
  Together-HasWhole given_up ready n d s g = absurd g
  Together-HasWhole crashed ready n d s g = absurd g

  Together-IsUncrashed :
      (p : PoolPc) (w : WriterPc) (n : ℕ) (d : Option (List ℕ)) (s : Status)
      → Together bs p w n d s
      → IsUncrashed p
  unfolding Together
  Together-IsUncrashed scheduled w n d s g = tt
  Together-IsUncrashed (packs k) w n d s g = tt
  Together-IsUncrashed notifying w n d s g = tt
  Together-IsUncrashed finished w n d s g = tt
  Together-IsUncrashed given_up w n d s g = tt
  Together-IsUncrashed crashed w n d s g = g

-- When LZ4 compresses the value and the steps of the writer and of the pool's thread come in any
-- order, the writer goes on only with the compressed value and its size, whichever thread has
-- compressed it, and the pool's thread never takes the status 2 for a pointer.
pub Reach-IsSafe :
    (lz4 : Lz4) (c : Settings) (junk : ℕ) (value bs : List ℕ) (t : Slot)
    → compress lz4 c junk value ≡ packed bs
    → Reach (result (compress lz4 c junk value)) (start (length value)) t
    → IsSafe bs t
Reach-IsSafe lz4 c junk value bs t packs_it reach =
    let g : IsTogether bs t =
      Reach-IsTogether bs (subst (λ r. Reach (result r) (start (length value)) t) packs_it reach) in
    (
      Together-HasWhole bs t.pool t.writer t.size t.data' t.status g,
      Together-IsUncrashed bs t.pool t.writer t.size t.data' t.status g,
    )
