-- ===== src/Env.antt =====
-- The table of environments that the wraps of src/env.cpp share: `EnvWrap::ctor`, `open`, `openEnv`,
-- `closeEnv` and `close`.
pub mod Counts
pub mod Leave
pub mod Close
pub mod Join
pub mod Entering
pub mod Opening
pub mod Calls
pub mod Last
use Prim.Native.Nat.{bit_and, bit_or}
use lmdb_js.Prelude.{
  ℕ, zero, suc, ◌-◌, update, ltb, leb, Bool, true, false, ◌&&◌, Option, none, some, List, [], ◌∷◌,
  ◌++◌, ◌==◌, if◌then◌else◌, ◌>>=◌,
}

-- an `MDB_env *` that is not null
abbrev pub Handle : Type 0
Handle = ℕ

-- `env_path_t`; a path is its bytes
pub record EnvPath : Type 0 where
  pub path : List ℕ
  pub env : Handle
  pub count : ℕ

-- `EnvWrap::envs`, the `env` of each wrap, and the environments that `mdb_env_close` has closed
pub record Table : Type 0 where
  pub envs : List EnvPath
  pub env : ℕ → Option Handle
  pub closed : List Handle

-- what `openEnv` is called with; `encryption_key` is the pointer
pub record Options : Type 0 where
  pub flags : ℕ
  pub path : List ℕ
  pub max_dbs : ℕ
  pub max_readers : ℕ
  pub map_size : ℕ
  pub page_size : ℕ
  pub encryption_key : ℕ

-- the codes of LMDB's calls, 0 for success
pub record Lmdb : Type 0 where
  pub set_maxdbs : Handle → ℕ → ℕ
  pub set_maxreaders : Handle → ℕ → ℕ
  pub set_mapsize : Handle → ℕ → ℕ
  pub set_pagesize : Handle → ℕ → ℕ
  pub set_encrypt : Handle → ℕ → ℕ
  pub env_open : Handle → List ℕ → ℕ → ℕ

-- whether `strcmp` gives 0
abbrev pub same_path : List ℕ → List ℕ → Bool
same_path [] [] = true
same_path (a ∷ ps) (b ∷ qs) = (a == b) && same_path ps qs
same_path _ _ = false

-- the first code that is not 0
abbrev pub or_code : ℕ → ℕ → ℕ
or_code zero later = later
or_code (suc code) later = suc code

-- the flags for `mdb_env_open`
abbrev pub open_flags : ℕ → ℕ
open_flags flags =
    bit_or (if bit_and flags 0x1000 == 0 then flags else bit_or flags 0x2000000) 0x200000

-- `EnvWrap::ctor`, with the environment that `mdb_env_create` has made
abbrev pub construct : ℕ → Handle → Table → Table
construct i h t = record t { env = update t.env i (some h) }

-- The loop of `openEnv`: the environment that has the path already, and the table with its count.
abbrev pub join : List ℕ → List EnvPath → Option (Handle × List EnvPath)
join path [] = none
join path (p ∷ ps) =
    let rest = join path ps in
    if same_path p.path path
    then some (p.env, record p { count = suc p.count } ∷ ps)
    else elim rest [ none ↦ none | some (h, ps') ↦ some (h, p ∷ ps') ]

-- The loop of `closeEnv`: whether the environment is closed, and the table.
abbrev pub leave : Handle → List EnvPath → Bool × List EnvPath
leave h [] = (false, [])
leave h (p ∷ ps) =
    let (closes, ps') = leave h ps in
    if p.env == h
    then (if leb (p.count - 1) 0
        then (true, ps)
        else (false, record p { count = p.count - 1 } ∷ ps))
    else (closes, p ∷ ps')

module _ (lmdb : Lmdb) where
  -- the code of what stands before `mdb_env_open`
  unfoldable pub setup_code : Handle → Options → ℕ
  setup_code h o = or_code (lmdb.set_maxdbs h o.max_dbs) (
      or_code (lmdb.set_maxreaders h o.max_readers) (
        or_code (lmdb.set_mapsize h o.map_size) (
          or_code (lmdb.set_pagesize h o.page_size)
            (if ltb 100 o.encryption_key then lmdb.set_encrypt h o.encryption_key else 0))))

  -- `EnvWrap::openEnv` of the wrap `i`, whose environment is `h`: the code, and the table
  unfoldable pub open_env : ℕ → Handle → Options → Table → ℕ × Table
  open_env i h o t = elim (join o.path t.envs) [
    | some (g, ps) ↦ (0, record { envs = ps; env = update t.env i (some g); closed = h ∷ t.closed })
    | none ↦ elim (setup_code h o) [
      | suc code ↦ (suc code, record t { env = update t.env i none })
      | zero ↦ elim (lmdb.env_open h o.path (open_flags o.flags)) [
        | suc code ↦ (suc code, record t { env = update t.env i none; closed = h ∷ t.closed })
        | zero ↦ (
          0,
          record t {
            envs = t.envs ++ (record { path = o.path; env = h; count = 1 } ∷ []);
            env = update t.env i (some h);
          },
        )
      ]
    ]
  ]

  -- `EnvWrap::open`; `none` is the error for a wrap that is closed
  unfoldable pub open_wrap : ℕ → Options → Table → Option (ℕ × Table)
  open_wrap i o t = t.env i >>= λ h. some (open_env i h o t)

-- `EnvWrap::closeEnv` after `cleanupStrayTxns`
unfoldable pub close_env : ℕ → Table → Table
close_env i t = elim (t.env i) [
  | none ↦ t
  | some h ↦
      let (closes, ps) = leave h t.envs in
      record {
        envs = ps;
        env = update t.env i none;
        closed = if closes then h ∷ t.closed else t.closed;
      }
]

-- `EnvWrap::close`; `none` is the error for a wrap that is closed
unfoldable pub close : ℕ → Table → Option Table
close i t = t.env i >>= λ h. some (close_env i t)
