-- ===== src/Tests/Handshakes.antt =====
-- Runs of the two threads that share a compression (src/compression.cpp, src/writer.cpp).
use lmdb_js.Prelude.{ℕ, ◌+◌, ◌≡◌, refl, none, some, List, [], ◌∷◌}
use lmdb_js.Compression.{Lz4, Settings, packed, header, compress}
use lmdb_js.Compression.Handshake.{
  one, waiting, woken, packs, packing, given_up, Slot, Reach, here, next, start, result, pool_take,
  write_test_raw, write_wait, write_wake,
}
use lmdb_js.Compression.Handshake.Safety.{IsSafe, Reach-IsSafe}
use lmdb_js.Compression.Handshake.Progress.{CanFinish, Reach-CanFinish}
use lmdb_js.Compression.Handshake.Failure.{IsWaiting, left_waiting, Reach-IsWaiting}

abbrev sharing : Lz4
sharing = record {
  bound = λ n. n + 16;
  pack = λ data' bound. some data';
  unpack = λ body n. some body;
}

abbrev refusing : Lz4
refusing = record { bound = λ n. n + 16; pack = λ data' bound. none; unpack = λ body n. none }

abbrev all_sizes : Settings
all_sizes = record { threshold = 1; decompress_size = 64 }

abbrev shared : List ℕ
shared = 7 ∷ 8 ∷ []

-- the writer waits while the pool compresses
abbrev awaited : Slot
awaited = record { size = 2; data' = none; status = one; writer = waiting; pool = packs packing }

awaited-Reach : Reach (result (compress sharing all_sizes 0 shared)) (start 2) awaited
awaited-Reach = next (next (next here pool_take) write_test_raw) write_wait

compress-shared : compress sharing all_sizes 0 shared ≡ packed (254 ∷ 0 ∷ 0 ∷ 2 ∷ shared)
unfolding compress header
compress-shared = refl

Reach-IsSafe_example : IsSafe (254 ∷ 0 ∷ 0 ∷ 2 ∷ shared) awaited
Reach-IsSafe_example =
    Reach-IsSafe sharing all_sizes 0 shared (254 ∷ 0 ∷ 0 ∷ 2 ∷ shared) awaited compress-shared
      awaited-Reach

Reach-CanFinish_example : CanFinish (result (compress sharing all_sizes 0 shared)) awaited
Reach-CanFinish_example =
    Reach-CanFinish sharing all_sizes 0 shared (254 ∷ 0 ∷ 0 ∷ 2 ∷ shared) awaited compress-shared
      awaited-Reach

result-compress : result (compress refusing all_sizes 0 shared) ≡ none
unfolding compress
result-compress = refl

abbrev woken_in_vain : Slot
woken_in_vain = record { size = 2; data' = none; status = one; writer = woken; pool = given_up }

Reach-IsWaiting_example :
    Reach (result (compress refusing all_sizes 0 shared)) (start 2) (left_waiting 2)
    × IsWaiting woken_in_vain
Reach-IsWaiting_example =
    Reach-IsWaiting refusing all_sizes 0 shared woken_in_vain result-compress (next here write_wake)
