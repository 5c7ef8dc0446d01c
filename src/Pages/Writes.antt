-- ===== src/Pages/Writes.antt =====
-- The slots and the bytes that `mdb_node_add` of mdb.c writes.
use mathlib.Core.List.{append-nil, append_assoc}
use lmdb_js.Prelude.{
  ℕ, zero, suc, ◌+◌, ◌-◌, ◌≤◌, ◌<◌, ◌≡◌, inl, inr, refl, ap, ◌∙◌, true, none, some, List, [], ◌∷◌,
  ◌++◌, arith, ltb, leb, update, length, get_elem?, Bool-cases, length-append,
}
use lmdb_js.OrderedBinary.Words.{bytes}
use lmdb_js.Pages.Adding.{write_bytes, slots_up}

pub slots_up-kept :
    (indx n k : ℕ) (f : ℕ → ℕ)
    → (k ≤ indx → slots_up indx n f k ≡ f k)
      × (indx ≤ k → k < n → slots_up indx n f (k + 1) ≡ f k)
      × (n < k → slots_up indx n f k ≡ f k)
unfolding slots_up
slots_up-kept indx zero k f = (λ p. refl, λ p q. absurd (omega arith), λ p. refl)
slots_up-kept indx (suc n) k f =
    let g = update f (suc n) (f n) in
    let (low, up, high) = slots_up-kept indx n k g in
    let (low', up', high') = slots_up-kept indx n (k + 1) g in
    elim (Bool-cases (ltb indx (suc n))) [
      | inl go ↦ rw go (ground (arith), ground (arith), ground (arith))
      | inr stop ↦ rw stop (λ p. refl, λ p q. absurd (ground arith), λ p. refl)
    ]

get_elem?-none : (bs : List ℕ) (i : ℕ) → length bs ≤ i → get_elem? bs i ≡ none
get_elem?-none [] i h = refl
get_elem?-none (c ∷ bs) zero h = absurd (omega arith)
get_elem?-none (c ∷ bs) (suc i) h = get_elem?-none bs i (omega arith)

-- behind the bytes that are written
pub write_bytes-behind :
    (mem : ℕ → ℕ) (p y : ℕ) (bs : List ℕ) → p + length bs ≤ y → write_bytes mem p bs y ≡ mem y
write_bytes-behind mem p y bs h =
    let gone : get_elem? bs (y - p) ≡ none = get_elem?-none bs (y - p) (omega arith) in
    let from : leb p y ≡ true = ground arith in rw (from, gone) refl

write_bytes-at :
    (mem : ℕ → ℕ) (p y c : ℕ) (bs : List ℕ)
    → p ≤ y
    → get_elem? bs (y - p) ≡ some c
    → write_bytes mem p bs y ≡ c
write_bytes-at mem p y c bs h e = let from : leb p y ≡ true = ground arith in rw (from, e) refl

get_elem?-some : (bs : List ℕ) (i : ℕ) → i < length bs → (c : ℕ) × (get_elem? bs i ≡ some c)
get_elem?-some [] i h = absurd (omega arith)
get_elem?-some (c ∷ bs) zero h = (c, refl)
get_elem?-some (c ∷ bs) (suc i) h = get_elem?-some bs i (omega arith)

get_elem?-prefix :
    (ys zs : List ℕ) (i c : ℕ) → get_elem? ys i ≡ some c → get_elem? (ys ++ zs) i ≡ some c
get_elem?-prefix [] zs i c e = cc
get_elem?-prefix (y ∷ ys) zs zero c e = e
get_elem?-prefix (y ∷ ys) zs (suc i) c e = get_elem?-prefix ys zs i c e

get_elem?-suffix : (xs ys : List ℕ) (i : ℕ) → get_elem? (xs ++ ys) (length xs + i) ≡ get_elem? ys i
get_elem?-suffix [] ys i = let e : 0 + i ≡ i = omega arith in rw e refl
get_elem?-suffix (x ∷ xs) ys i =
    let e : suc (length xs) + i ≡ suc (length xs + i) = omega arith in
    rw e (get_elem?-suffix xs ys i)

bytes-read :
    (f : ℕ → ℕ) (p : ℕ) (bs : List ℕ)
    → ((i c : ℕ) → get_elem? bs i ≡ some c → f (p + i) ≡ c)
    → bytes f p (length bs) ≡ bs
bytes-read f p [] h = refl
bytes-read f p (c ∷ bs) h =
    let here : f p ≡ c = ground (arith, h 0 c refl) in
    let rest : bytes f (p + 1) (length bs) ≡ bs =
      bytes-read f (p + 1) bs
        (λ i d e. let next : p + 1 + i ≡ p + suc i = omega arith in rw next (h (suc i) d e)) in
    ap (λ t. t ∷ bytes f (p + 1) (length bs)) here ∙ ap (λ t. c ∷ t) rest

-- what is written behind a header reads as it was
pub write_bytes-read :
    (mem : ℕ → ℕ) (p : ℕ) (header key rest : List ℕ)
    → bytes (write_bytes mem p (header ++ (key ++ rest))) (p + length header) (length key) ≡ key
write_bytes-read mem p header key rest =
    bytes-read (write_bytes mem p (header ++ (key ++ rest))) (p + length header) key (λ i c e.
      let index : p + length header + i - p ≡ length header + i = omega arith in
      write_bytes-at mem p (p + length header + i) c (header ++ (key ++ rest)) (omega arith) (
        ap (get_elem? (header ++ (key ++ rest))) index
        ∙ get_elem?-suffix header (key ++ rest) i
        ∙ get_elem?-prefix key rest i c e))

-- what stands behind a header of eight bytes and a key
pub write_bytes-rest :
    (mem : ℕ → ℕ) (p : ℕ) (header key rest : List ℕ)
    → length header ≡ 8
    → bytes (write_bytes mem p (header ++ (key ++ rest))) (p + 8 + length key) (length rest) ≡ rest
write_bytes-rest mem p header key rest eight =
    let same : (header ++ key) ++ (rest ++ []) ≡ header ++ (key ++ rest) =
      ap (λ t. (header ++ key) ++ t) (append-nil rest) ∙ append_assoc header key rest in
    let place : p + length (header ++ key) ≡ p + 8 + length key =
      omega (arith, length-append header key, eight) in
    rw (same, place) at (write_bytes-read mem p (header ++ key) rest [])
