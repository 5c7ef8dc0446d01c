-- ===== src/Pages/Integers.antt =====
-- On integer keys `mdb_cmp_cint` of mdb.c computes what `mdb_cmp_long` and `mdb_cmp_int` do, which
-- `mdb_node_search` takes in its place.
use lmdb_js.Prelude.{◌≡◌, some, arith}
use lmdb_js.OrderedBinary.{Val}
use lmdb_js.OrderedBinary.Words.{AreBytes}
use lmdb_js.Pages.Compare.{cmp_long, cmp_int, cint_from, cmp_cint}

module _ (a b : Val) (bytes_a : AreBytes a.byte) (bytes_b : AreBytes b.byte) where
  -- On keys of bytes in memory, the first one of 4 bytes, the comparison by halves from the end
  -- is the one by whole numbers, which the page search takes in its place on branch pages.
  cmp_cint-cmp_int : a.size ≡ 4 → cmp_cint a b ≡ some (cmp_int a b)
  unfolding cmp_cint cint_from cmp_int
  cmp_cint-cmp_int h = rw h (
      ground (
        arith,
        bytes_a 0,
        bytes_a 1,
        bytes_a 2,
        bytes_a 3,
        bytes_b 0,
        bytes_b 1,
        bytes_b 2,
        bytes_b 3,
      ))

  -- On keys of bytes in memory, the first one of 8 bytes, the comparison by halves from the end
  -- is the one by whole numbers, which the page search takes in its place on branch pages.
  pub cmp_cint-cmp_long : a.size ≡ 8 → cmp_cint a b ≡ some (cmp_long a b)
  unfolding cmp_cint cint_from cmp_long
  cmp_cint-cmp_long h = rw h (
      ground (
        arith,
        bytes_a 0,
        bytes_a 1,
        bytes_a 2,
        bytes_a 3,
        bytes_b 0,
        bytes_b 1,
        bytes_b 2,
        bytes_b 3,
        bytes_a 4,
        bytes_a 5,
        bytes_a 6,
        bytes_a 7,
        bytes_b 4,
        bytes_b 5,
        bytes_b 6,
        bytes_b 7,
      ))
