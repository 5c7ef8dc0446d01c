-- ===== src/Writer/Instr.antt =====
-- The instructions of src/writer.cpp: the flag word, and where an instruction's parts stand in the
-- buffer. Words have 32 bits; an address counts words.
use Prim.Native.Nat.{bit_and}
use lmdb_js.Prelude.{
  ℕ, zero, suc, ◌+◌, ◌-◌, ◌*◌, ◌/◌, ◌%◌, ◌^◌, Bool, not, List, [], ◌∷◌, ◌==◌, if◌then◌else◌, take,
}

-- `flags & mask` as a condition
abbrev pub flag_on : ℕ → ℕ → Bool
flag_on flags mask = not (bit_and flags mask == 0)

-- what `DoWrites` asks of a flag word
pub record Flags : Type 0 where
  pub op : ℕ
  pub unknown : Bool
  pub has_key : Bool
  pub has_value : Bool
  pub conditional : Bool
  pub compressible : Bool
  pub conditional_version : Bool
  pub set_version : Bool
  pub if_no_exists : Bool
  pub delete_database : Bool
  pub put_flags : ℕ

-- `compressible` and `USER_CALLBACK_STRICT_ORDER` are one bit; 0x60030 is
-- `MDB_NOOVERWRITE | MDB_NODUPDATA | MDB_APPEND | MDB_APPENDDUP`
unfoldable pub parse_flags : ℕ → Flags
parse_flags flags = record {
  op = bit_and flags 0xf;
  unknown = flag_on flags 0xf0c0;
  has_key = flag_on flags 4;
  has_value = flag_on flags 2;
  conditional = flag_on flags 8;
  compressible = flag_on flags 0x100000;
  conditional_version = flag_on flags 0x100;
  set_version = flag_on flags 0x200;
  if_no_exists = flag_on flags 0x10;
  delete_database = flag_on flags 0x400;
  put_flags = bit_and flags 0x60030;
}

-- the two words of a `double`
pub record Double : Type 0 where
  pub low : ℕ
  pub high : ℕ

-- An instruction with what it points to. The key and the value are empty, and the versions zero,
-- where the instruction has none. `next` is the address behind it.
pub record Instr : Type 0 where
  pub flags : Flags
  pub dbi : ℕ
  pub key : List ℕ
  pub value : List ℕ
  pub if_version : Double
  pub version : Double
  pub next : ℕ

abbrev pub word_bytes : ℕ → List ℕ
word_bytes w = w % 2 ^ 8 ∷ w / 2 ^ 8 % 2 ^ 8 ∷ w / 2 ^ 16 % 2 ^ 8 ∷ w / 2 ^ 24 % 2 ^ 8 ∷ []

-- n words from `at` on, as bytes
abbrev pub read_words : (ℕ → ℕ) → ℕ → ℕ → List ℕ
read_words mem at zero = []
read_words mem at (suc n) =
    mem at % 2 ^ 8
    ∷ mem at / 2 ^ 8 % 2 ^ 8
    ∷ mem at / 2 ^ 16 % 2 ^ 8
    ∷ mem at / 2 ^ 24 % 2 ^ 8
    ∷ read_words mem (at + 1) n

unfoldable pub read_bytes : (ℕ → ℕ) → ℕ → ℕ → List ℕ
read_bytes mem at size = take size (read_words mem at ((size + 3) / 4))

abbrev pub read_double : (ℕ → ℕ) → ℕ → Double
read_double mem at = record { low = mem at; high = mem (at + 1) }

abbrev pub no_version : Double
no_version = record { low = 0; high = 0 }

-- `(instruction + key.mv_size + 16) & ~7`, for the address of the key
unfoldable pub behind_key : ℕ → ℕ → ℕ
behind_key at size = (at * 4 + size + 16) / 8 * 2

-- `buffer pointer size` is the memory that a value's pointer shows; for a compressible value the
-- pointer is an integer and not a `double`, which `by_double` says.
module _ (buffer : (by_double : Bool) → Double → ℕ → List ℕ) where
  -- behind the value: its address, and the versions
  unfoldable pub fetch_versions : (ℕ → ℕ) → Flags → ℕ → ℕ → List ℕ → List ℕ → Instr
  fetch_versions mem f at dbi key value =
      let at' = if f.conditional_version then at + 2 else at in
      record {
        flags = f;
        dbi = dbi;
        key = key;
        value = value;
        if_version = if f.conditional_version then read_double mem at else no_version;
        version = if f.set_version then read_double mem at' else no_version;
        next = if f.set_version then at' + 2 else at';
      }

  unfoldable pub fetch : (ℕ → ℕ) → ℕ → Instr
  unfolding parse_flags behind_key read_bytes fetch_versions
  fetch mem start =
      let f = parse_flags (mem start) in
      if f.has_key
      then (let size = mem (start + 2) in
          let key = read_bytes mem (start + 3) size in
          let at = behind_key (start + 3) size in
          if f.has_value
          then fetch_versions mem f (if f.compressible then at + 4 else at + 2) (mem (start + 1))
              key (buffer (not f.compressible) (read_double mem at) (mem (at - 1)))
          else fetch_versions mem f at (mem (start + 1)) key [])
      else record {
        flags = f;
        dbi = 0;
        key = [];
        value = [];
        if_version = no_version;
        version = no_version;
        next = start + 2;
      }
