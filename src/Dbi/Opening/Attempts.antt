-- ===== src/Dbi/Opening/Attempts.antt =====
-- What the attempts of `DbiWrap::open` (src/dbi.cpp) to open a database come to.
use lmdb_js.Prelude.{
  ℕ, zero, suc, ◌≡◌, ◌≢◌, refl, sym, ◌⊎◌, inl, inr, true, false, Bool-cases, Option, none, some,
  List, [], ◌∷◌, ◌==◌, arith,
}
use lmdb_js.Txn.State.{Handle, Tracked, Env, Host}
use lmdb_js.Dbi.Opening.{
  eacces, Fate, none_begun, committed, aborted, Tried, attempt_in, retry, attempt,
}

zero-cases : (n : ℕ) → (n ≡ 0) ⊎ (n ≢ 0)
zero-cases zero = inl refl
zero-cases (suc n) = inr (λ e. absurd (omega arith))

-- the transaction that `txn` stands for behind the attempts, when it was the reader before
abbrev pub used : Option Handle → Fate → Option Handle
used read none_begun = read
used read (committed h) = some h
used read (aborted h) = some h

-- a failed `mdb_txn_begin` has a code
abbrev pub FailsWithCode : Host → Type 0
FailsWithCode host =
    (e : Env) (parent : Option Handle) (flags : ℕ)
    → host.begin e parent flags ≡ none
    → host.begin_code e parent flags ≢ 0

module _ (host : Host) (dbi_open : Option Handle → ℕ → ℕ × ℕ) where
  -- the number is what LMDB gave in the transaction in use
  abbrev pub Gives : (read : Option Handle) (flags : ℕ) → Fate → ℕ → Type 0
  Gives read flags fate dbi =
      ((dbi_open (used read fate) flags).0 ≡ 0) × ((dbi_open (used read fate) flags).1 ≡ dbi)

  module _ (read : Option Handle) (flags : ℕ) (e : Env) where
    -- LMDB asks for a write transaction, and there is none that is current
    abbrev pub IsAlone : Type 0
    IsAlone = ((dbi_open read flags).0 ≡ eacces) × (e.write_txns ≡ [])

    -- What becomes of a transaction of its own, by the code and by the transactions that are ended.
    -- None is begun but for `EACCES` without a current write transaction, and if `mdb_txn_begin` does
    -- not fail. It is committed with code 0 and aborted with any other.
    abbrev pub Ends : (code : ℕ) (ended : List Handle) → Fate → Type 0
    Ends code ended none_begun =
        (ended ≡ e.ended)
        × (((code ≡ (dbi_open read flags).0)
              × (((dbi_open read flags).0 ≢ eacces) ⊎ (e.write_txns ≢ [])))
            ⊎ (IsAlone × (host.begin e none 0 ≡ none) × (code ≡ host.begin_code e none 0)))
    Ends code ended (committed h) =
        IsAlone × (host.begin e none 0 ≡ some h) × (ended ≡ h ∷ e.ended) × (code ≡ 0)
    Ends code ended (aborted h) =
        IsAlone × (host.begin e none 0 ≡ some h) × (ended ≡ h ∷ e.ended) × (code ≢ 0)

    pub record IsTried (t : Tried) : Type 0 where
      pub ends : Ends t.code t.env.ended t.fate
      pub kept : t.env ≡ record e { ended = t.env.ended }
      pub uses : t.txn ≡ used read t.fate
      pub gives : ((t.code ≡ 0) × Gives read flags t.fate t.dbi) ⊎ (t.code ≢ 0)

    attempt_in-IsTried :
        (o : Option Handle) (dbi : ℕ)
        → FailsWithCode host
        → IsAlone
        → host.begin e none 0 ≡ o
        → IsTried (attempt_in host dbi_open o read flags dbi e)
    unfolding attempt_in
    attempt_in-IsTried none dbi fails alone begun = record {
      ends = (refl, inr (alone, begun, refl));
      kept = refl;
      uses = refl;
      gives = inr (fails e none 0 begun);
    }
    attempt_in-IsTried (some h) dbi fails alone begun =
        elim (zero-cases (dbi_open (some h) flags).0) [
          | inl done ↦
              let test : ((dbi_open (some h) flags).0 == 0) ≡ true = ground arith in
              record {
                ends = rw test (alone, begun, refl, done);
                kept = refl;
                uses = rw test refl;
                gives = inl (done, rw test (done, refl));
              }
          | inr failed ↦
              let test : ((dbi_open (some h) flags).0 == 0) ≡ false = ground arith in
              record {
                ends = rw test (alone, begun, refl, failed);
                kept = refl;
                uses = rw test refl;
                gives = inr failed;
              }
        ]

    retry-IsTried :
        (ts : List Tracked) (dbi : ℕ)
        → FailsWithCode host
        → (dbi_open read flags).0 ≡ eacces
        → e.write_txns ≡ ts
        → IsTried (retry host dbi_open ts read flags dbi e)
    unfolding retry
    retry-IsTried [] dbi fails refused current =
        attempt_in-IsTried (host.begin e none 0) dbi fails (refused, current) refl
    retry-IsTried (t ∷ ts) dbi fails refused current = record {
      ends = (refl, inl (sym refused, inr (λ nothing. cc (current, nothing))));
      kept = refl;
      uses = refl;
      gives = inr (λ e. absurd (omega arith));
    }

    pub attempt-IsTried : FailsWithCode host → IsTried (attempt host dbi_open read flags e)
    unfolding attempt
    attempt-IsTried fails = elim (Bool-cases ((dbi_open read flags).0 == eacces)) [
      | inl refused ↦
          rw refused (retry-IsTried e.write_txns (dbi_open read flags).1 fails (ground arith) refl)
      | inr other ↦ rw other (record {
        ends = (refl, inl (refl, inl (λ same. ground arith)));
        kept = refl;
        uses = refl;
        gives = answered (zero-cases (dbi_open read flags).0);
      })
    ]
      where
        answered :
            ((dbi_open read flags).0 ≡ 0) ⊎ ((dbi_open read flags).0 ≢ 0)
            → (((dbi_open read flags).0 ≡ 0) × Gives read flags none_begun (dbi_open read flags).1)
              ⊎ ((dbi_open read flags).0 ≢ 0)
        answered (inl done) = inl (done, (done, refl))
        answered (inr failed) = inr failed
