-- ===== src/Tests/Envs.antt =====
-- The table of environments of src/env.cpp on concrete calls.
use lmdb_js.Prelude.{ℕ, zero, suc, update, ◌==◌, ◌||◌, ◌≡◌, refl, false, some, List, [], ◌∷◌, arith}
use lmdb_js.Env.{Handle, Options, Lmdb, open_wrap, open_env, setup_code, close, close_env}
use lmdb_js.Env.Counts.{IsCounted, points_to}
use lmdb_js.Env.Calls.{
  Call, construct_at, open_at, close_at, start, IsAllowed, call, calls, AreAllowed, calls-IsCounted,
}
use lmdb_js.Env.Last.{ClosesLast, close_env-ClosesLast}

abbrev willing : Lmdb
willing = record {
  set_maxdbs = λ h n. 0;
  set_maxreaders = λ h n. 0;
  set_mapsize = λ h n. 0;
  set_pagesize = λ h n. 0;
  set_encrypt = λ h k. 0;
  env_open = λ h path flags. 0;
}

abbrev data_file : Options
data_file = record {
  flags = 0;
  path = 100 ∷ 98 ∷ [];
  max_dbs = 12;
  max_readers = 126;
  map_size = 0;
  page_size = 8192;
  encryption_key = 0;
}

-- two wraps are made and opened at the same path, and the first is closed
abbrev shared : List Call
shared =
    construct_at 0 40
    ∷ open_at 0 data_file
    ∷ construct_at 1 41
    ∷ open_at 1 data_file
    ∷ close_at 0
    ∷ []

others_free : (j : ℕ) → points_to 41 (update (update start.env 0 (some 40)) 0 (some 40) j) ≡ false
others_free zero = refl
others_free (suc j) = ground arith

not_listed : (h : Handle) → some 41 ≡ some h → (40 == h) || false ≡ false
not_listed h has = let it : 41 ≡ h = cc has in ground (arith, it)

shared-AreAllowed : AreAllowed willing 2 shared start
unfolding AreAllowed IsAllowed call open_wrap open_env setup_code close close_env
shared-AreAllowed = (
  (omega arith, refl, refl, refl, λ j below. refl),
  (
    (omega arith, λ h has. refl),
    (
      (omega arith, refl, refl, refl, λ j below. others_free j),
      ((omega arith, λ h has. not_listed h has), (omega arith, tt)),
    ),
  ),
)

calls-IsCounted_example : IsCounted 2 (calls willing shared start)
calls-IsCounted_example = calls-IsCounted willing 2 shared shared-AreAllowed

close_env-ClosesLast_example : ClosesLast 2 40 (close_env 1 (calls willing shared start))
unfolding calls call open_wrap open_env setup_code close close_env
close_env-ClosesLast_example =
    close_env-ClosesLast 2 (calls willing shared start) 1 40 (omega arith) refl refl
      (calls-IsCounted willing 2 shared shared-AreAllowed)

-- the environment is closed with the second wrap
shared_closed : (close_env 1 (calls willing shared start)).closed ≡ 40 ∷ 41 ∷ []
unfolding calls call open_wrap open_env setup_code close close_env
shared_closed = refl
