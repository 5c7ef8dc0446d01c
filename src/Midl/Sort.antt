-- ===== src/Midl/Sort.antt =====
-- `mdb_midl_sort` of midl.c: a quicksort whose small segments are sorted by insertion. The stack of
-- segments is a list of pairs; a push behind the end of `istack` is a fault.
pub mod Counts
pub mod Moved
pub mod Insertion
pub mod Rounds
pub mod Median
pub mod Scans
pub mod Partition
pub mod Split
pub mod Segments
pub mod Ready
pub mod Loop
pub mod Sorts
use lmdb_js.Prelude.{
  ℕ, zero, suc, ◌+◌, ◌-◌, ◌*◌, ◌/◌, Option, none, some, List, [], ◌∷◌, ltb, leb, if◌then◌else◌,
  ◌>>=◌, Block, load, store, length,
}
use lmdb_js.Midl.Idl.{Idl, count}

-- `MIDL_SWAP`
abbrev pub swap : Idl → ℕ → ℕ → Option Idl
swap b i j = load b i >>= λ x. load b j >>= λ y. store b i y >>= λ b'. store b' j x

-- `if (ids[i] < ids[j])` with the swap
abbrev pub swap_if_less : Idl → ℕ → ℕ → Option Idl
swap_if_less b i j = load b i >>= λ x. load b j >>= λ y. if ltb x y then swap b i j else some b

-- `do i++; while(ids[i] > a);`, on fuel
unfoldable pub scan_up : ℕ → Idl → ℕ → ℕ → Option ℕ
scan_up zero b a i = none
scan_up (suc fuel) b a i =
    let rest = scan_up fuel b a (suc i) in
    load b (suc i) >>= λ x. if ltb a x then rest else some (suc i)

-- `do j--; while(ids[j] < a);`
unfoldable pub scan_down : Idl → ℕ → ℕ → Option ℕ
scan_down b a zero = none
scan_down b a (suc j) =
    let rest = scan_down b a j in load b j >>= λ x. if ltb x a then rest else some j

-- the loop that partitions, on fuel: where `i` and `j` end, and the list
unfoldable pub partition : ℕ → Idl → ℕ → ℕ → ℕ → Option (ℕ × ℕ × Idl)
partition zero b a i j = none
partition (suc fuel) b a i j = scan_up (suc b.cap) b a i >>= λ i'. scan_down b a j >>= λ j'.
    if ltb j' i' then some (i', j', b) else swap b i' j' >>= λ b'. partition fuel b' a i' j'

-- the median of left, center and right at `l + 1`
unfoldable pub choose_median : Idl → ℕ → ℕ → Option Idl
choose_median b l ir = swap b ((l + ir) / 2) (suc l) >>= λ b1.
    swap_if_less b1 l ir >>= λ b2. swap_if_less b2 (suc l) ir >>= λ b3. swap_if_less b3 l (suc l)

-- `ids[l+1] = ids[j]; ids[j] = a;`
unfoldable pub settle_median : Idl → ℕ → ℕ → ℕ → Option Idl
settle_median b l j a = load b j >>= λ x. store b (suc l) x >>= λ b'. store b' j a

-- the segment from `l` to `ir` is split
unfoldable pub split : Idl → ℕ → ℕ → Option (ℕ × ℕ × Idl)
split b l ir = choose_median b l ir >>= λ b1. load b1 (suc l) >>= λ a.
    partition (suc b.cap) b1 a (suc l) ir >>= λ (i, j, b2).
    settle_median b2 l j a >>= λ b3. some (i, j, b3)

-- the inner loop of the insertion, down from `i`: where it ends, and the list
unfoldable pub shift : Idl → ℕ → ℕ → Option (ℕ × Idl)
shift b a zero = some (zero, b)
shift b a (suc i) = load b (suc i) >>= λ x.
    if leb a x then some (suc i, b) else store b (suc (suc i)) x >>= λ b'. shift b' a i

-- one round of the insertion
unfoldable pub insert_one : Idl → ℕ → Option Idl
insert_one b j = load b j >>= λ a. shift b a (j - 1) >>= λ (i, b'). store b' (suc i) a

-- the rounds from `j` on
unfoldable pub insert_all : Idl → ℕ → ℕ → Option Idl
insert_all b j zero = some b
insert_all b j (suc rounds) = insert_one b j >>= λ b'. insert_all b' (suc j) rounds

-- the segments that wait; `istack` has room for 31 of them
abbrev pub Stack : Type 0
Stack = List (ℕ × ℕ)

abbrev pub push : ℕ × ℕ → Stack → Option Stack
push segment stack = if leb 31 (length stack) then none else some (segment ∷ stack)

-- which of the two parts waits: the segment to go on with, and the one to push
abbrev pub parts : ℕ → ℕ → ℕ → ℕ → (ℕ × ℕ) × (ℕ × ℕ)
parts l ir i j = if leb (j - l) (suc ir - i) then ((l, j - 1), (i, ir)) else ((i, ir), (l, j - 1))

-- the outer loop, on fuel
unfoldable pub sort_loop : ℕ → Idl → ℕ → ℕ → Stack → Option Idl
sort_loop zero b l ir stack = none
sort_loop (suc fuel) b l ir stack =
    if ltb ir (l + 8)
    then (insert_all b (suc l) (ir - l) >>= λ b'. elim stack [
      | [] ↦ some b'
      | (l', ir') ∷ rest ↦ sort_loop fuel b' l' ir' rest
    ])
    else (split b l ir >>= λ (i, j, b').
        let ((l', ir'), waits) = parts l ir i j in
        push waits stack >>= λ stack'. sort_loop fuel b' l' ir' stack')

-- `mdb_midl_sort`; the fuel is for two rounds for each ID
unfoldable pub midl_sort : Idl → Option Idl
midl_sort b = sort_loop (2 * count b + 2) b 1 (count b) []
