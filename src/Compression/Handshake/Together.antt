-- ===== src/Compression/Handshake/Together.antt =====
-- The states that the threads of src/compression.cpp and src/writer.cpp can be in together, when
-- `compress` succeeds.
use lmdb_js.Prelude.{ℕ, ◌≡◌, ◌⊎◌, Option, none, some, List, length}
use lmdb_js.Compression.Handshake.{
  Status, requested, one, two, completed, Packing, packing, sized, addressed, WriterPc, testing,
  exchanging, writes, waiting, woken, ready, PoolPc, scheduled, packs, notifying, finished, Slot,
}

-- what `compressInstruction` has stored
abbrev Raw : ℕ → Option (List ℕ) → Type 0
Raw n d = d ≡ none

abbrev pub Whole : List ℕ → ℕ → Option (List ℕ) → Type 0
Whole bs n d = (n ≡ length bs) × (d ≡ some bs)

abbrev pub Holds : List ℕ → Packing → ℕ → Option (List ℕ) → Type 0
Holds bs packing n d = d ≡ none
Holds bs sized n d = (n ≡ length bs) × (d ≡ none)
Holds bs addressed n d = Whole bs n d

-- the words and the two threads together; what is not named does not happen
unfoldable pub Together : List ℕ → PoolPc → WriterPc → ℕ → Option (List ℕ) → Status → Type 0
Together bs scheduled testing n d s = (d ≡ none) × (s ≡ requested)
Together bs scheduled exchanging n d s = (d ≡ none) × (s ≡ requested)
Together bs scheduled (writes k) n d s = Holds bs k n d × (s ≡ one)
Together bs scheduled ready n d s = Whole bs n d × (s ≡ completed)
Together bs (packs k) testing n d s = Holds bs k n d × (s ≡ two)
Together bs (packs k) exchanging n d s = Holds bs k n d × (s ≡ two)
Together bs (packs k) waiting n d s = Holds bs k n d × (s ≡ one)
Together bs (packs k) woken n d s = Holds bs k n d × (s ≡ one)
Together bs (packs addressed) ready n d s = Whole bs n d × ((s ≡ one) ⊎ (s ≡ two))
Together bs notifying waiting n d s = Whole bs n d × (s ≡ completed)
Together bs notifying woken n d s = Whole bs n d × (s ≡ completed)
Together bs notifying ready n d s = Whole bs n d × (s ≡ completed)
Together bs finished testing n d s = Whole bs n d × (s ≡ completed)
Together bs finished exchanging n d s = Whole bs n d × (s ≡ completed)
Together bs finished (writes k) n d s = Holds bs k n d × (s ≡ two)
Together bs finished woken n d s = Whole bs n d × (s ≡ completed)
Together bs finished ready n d s = Whole bs n d
Together _ _ _ _ _ _ = ⊥

abbrev pub IsTogether : List ℕ → Slot → Type 0
IsTogether bs t = Together bs t.pool t.writer t.size t.data' t.status
