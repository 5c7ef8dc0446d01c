-- ===== src/Tests/Data.antt =====
-- Concrete data that the tests share.
use lmdb_js.Prelude.{ℕ, none, some, List, get_elem?}

-- the numbers from index 0 on, and 0 behind them
abbrev pub cells : List ℕ → ℕ → ℕ
cells ns i = elim (get_elem? ns i) [ none ↦ 0 | some n ↦ n ]
