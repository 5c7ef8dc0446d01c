-- ===== src/Tests/Nodes.antt =====
-- Nodes of a page of mdb.c on concrete data.
use lmdb_js.Prelude.{
  ℕ, zero, suc, ◌+◌, ◌-◌, ◌≤◌, ◌<◌, ◌≡◌, ◌≢◌, ◌⊎◌, inl, inr, refl, some, [], ◌∷◌, arith, ◌^◌,
}
use lmdb_js.OrderedBinary.Words.{bytes}
use lmdb_js.Pages.Search.{leaf, leaf2}
use lmdb_js.Pages.Nodes.{Body, num_keys, node_bytes_count, node_del}
use lmdb_js.Pages.Delete.{IsPage, node_end, node_at, behind, node_del-keeps}
use lmdb_js.Pages.Adding.{Overflow, Data, node_add}
use lmdb_js.Pages.Sizes.{HasRoom, leaf_size, leaf_size-HasRoom}
use lmdb_js.Tests.Data.{cells}

-- two nodes of ten bytes with a key and a value of one byte each
abbrev body : Body
body = record {
  lower = 4;
  upper = 20;
  slot = cells (20 ∷ 30 ∷ []);
  mem = λ y.
      cells (1 ∷ 0 ∷ 0 ∷ 0 ∷ 0 ∷ 0 ∷ 1 ∷ 0 ∷ 65 ∷ 66 ∷ 1 ∷ 0 ∷ 0 ∷ 0 ∷ 0 ∷ 0 ∷ 1 ∷ 0 ∷ 67 ∷ 68 ∷ [])
        (y - 20);
}

body-above : (i : ℕ) → i < 2 → 20 ≤ body.slot i
body-above zero h = omega arith
body-above (suc zero) h = omega arith
body-above (suc (suc i)) h = absurd (omega arith)

body-header : (i : ℕ) → i < 2 → body.slot i + 8 ≤ node_end leaf body i
unfolding node_bytes_count
body-header zero h = omega arith
body-header (suc zero) h = omega arith
body-header (suc (suc i)) h = absurd (omega arith)

body-small : (i : ℕ) → i < 2 → node_end leaf body i < 2 ^ 16
unfolding node_bytes_count
body-small zero h = omega arith
body-small (suc zero) h = omega arith
body-small (suc (suc i)) h = absurd (omega arith)

body-apart :
    (i j : ℕ)
    → i < 2
    → j < 2
    → i ≢ j
    → (node_end leaf body i ≤ body.slot j) ⊎ (node_end leaf body j ≤ body.slot i)
unfolding node_bytes_count
body-apart zero zero h k e = absurd (e refl)
body-apart zero (suc zero) h k e = inl (omega arith)
body-apart (suc zero) zero h k e = inr (omega arith)
body-apart (suc zero) (suc zero) h k e = absurd (e refl)
body-apart (suc (suc i)) j h k e = absurd (omega arith)
body-apart zero (suc (suc j)) h k e = absurd (omega arith)
body-apart (suc zero) (suc (suc j)) h k e = absurd (omega arith)

body-IsPage : IsPage leaf body
body-IsPage = record {
  slots = omega arith;
  above = body-above;
  header = body-header;
  small = body-small;
  apart = body-apart;
}

leaf-differs : leaf ≢ leaf2
leaf-differs e = cc

node_del-keeps_example :
    (r : Body) × (node_del leaf 1 0 body ≡ some r)
    × (num_keys r ≡ 1)
    × ((k : ℕ)
        → k < num_keys r
        → bytes r.mem (r.slot k) (node_bytes_count leaf r.mem (r.slot k))
          ≡ node_at leaf body (behind 1 k))
node_del-keeps_example = node_del-keeps leaf body body-IsPage 1 (omega arith) 0 leaf-differs

abbrev no_pages : ℕ → ℕ ⊎ Overflow
no_pages n = inl 12

abbrev three_bytes : Data
three_bytes = record { size = 3; bytes = 70 ∷ 71 ∷ 72 ∷ [] }

leaf_size-HasRoom_example :
    HasRoom (node_add 0 100 4096 no_pages leaf 1 0 (69 ∷ []) three_bytes 0 0 body)
unfolding leaf_size
leaf_size-HasRoom_example =
    leaf_size-HasRoom 0 100 4096 no_pages body 1 (omega arith) (omega arith) 0 (69 ∷ []) three_bytes
      0 0 refl (omega arith)
