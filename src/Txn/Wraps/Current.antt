-- ===== src/Txn/Wraps/Current.antt =====
-- `getReadTxn` of src/env.cpp after the end of the transaction that it has given.
use lmdb_js.Prelude.{ℕ, ◌≡◌, refl, ap, ◌∙◌, inl, inr, Bool-cases, some, [], ◌∷◌}
use lmdb_js.Txn.State.{Handle, Env, Host}
use lmdb_js.Txn.Write.{end_txn}
use lmdb_js.Txn.Wraps.{points_to, remove_from_env, end_wrap, get_read_txn}

end_wrap-kept :
    (i : ℕ) (e : Env)
    → ((end_wrap i e).current_read ≡ e.current_read)
      × ((end_wrap i e).write_txns ≡ e.write_txns)
      × ((end_wrap i e).ended ≡ end_txn (e.wrap i).txn e.ended)
unfolding end_wrap remove_from_env
end_wrap-kept i e = elim (Bool-cases ((e.wrap i).attached)) [
  | inl attached ↦ elim (Bool-cases (points_to i e.current_write)) [
    | inl points ↦ rw (attached, points) (refl, refl, refl)
    | inr other ↦ rw (attached, other) (refl, refl, refl)
  ]
  | inr detached ↦ rw detached (refl, refl, refl)
]

module _ (host : Host) where
  get_read_txn-current :
      (h : Handle) (e : Env)
      → e.write_txns ≡ []
      → e.current_read ≡ some h
      → (get_read_txn host e).0 ≡ some h
  unfolding get_read_txn
  get_read_txn-current h e empty current = elim (Bool-cases e.renewed) [
    | inl renewed ↦ rw (empty, renewed, current) refl
    | inr stale ↦ rw (empty, stale, current) refl
  ]

  -- the transaction has been ended, and is handed out
  abbrev pub HandsOutEnded : Handle → Env → Env → Type 0
  HandsOutEnded h e e' = (e'.ended ≡ h ∷ e.ended) × ((get_read_txn host e').0 ≡ some h)

  -- When a wrap is ended whose transaction is also the current read transaction, and there is
  -- no write transaction, `getReadTxn` hands out that transaction afterwards, which has been
  -- ended.
  pub end_wrap-HandsOutEnded :
      (i : ℕ) (h : Handle) (e : Env)
      → (e.wrap i).txn ≡ some h
      → e.current_read ≡ some h
      → e.write_txns ≡ []
      → HandsOutEnded h e (end_wrap i e)
  end_wrap-HandsOutEnded i h e opened current empty =
      let (read, writes, ended) = end_wrap-kept i e in
      (
        ended ∙ ap (λ o. end_txn o e.ended) opened,
        get_read_txn-current h (end_wrap i e) (writes ∙ empty) (read ∙ current),
      )
