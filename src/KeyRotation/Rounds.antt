-- ===== src/KeyRotation/Rounds.antt =====
-- One round of the loop over the batches: what it fetches, and how its transaction ends.
use mcp_data_gateway.Prelude.{
  ℕ, zero, suc, ◌+◌, true, false, Bool-cases, ◌≡◌, refl, ap, ◌⊎◌, inl, inr, List, [], ◌∷◌, ◌++◌,
  Option, none, some, length, take,
}
use mcp_data_gateway.Prelude.Bytes.{Bytes}
use mcp_data_gateway.Prelude.Result.{Result, ok, err}
use mcp_data_gateway.Crypto.{Aead}
use mcp_data_gateway.KeyRotation.{
  Chunk, Counts, Failure, failed, Queries, Commit, committed, unanswered, refused, settle, transact,
  rotate_batch, rotate_loop,
}
use mcp_data_gateway.Prelude.Int.{pos}
use mcp_data_gateway.KeyRotation.Pairs.{drop-length}

module _ (queries : Queries) (aead : Aead) (fill : ℕ → Option Bytes)
    (embed_client : Option (Bytes → Option Bytes)) (old_key new_key : Bytes) where
  abbrev pub loop : ℕ → ℕ → List Chunk → ℕ → Counts → Option (List Chunk × Result Failure Counts)
  loop fuel size = rotate_loop queries aead fill embed_client old_key new_key fuel (pos size)

  abbrev pub in_transaction :
      ℕ → ℕ → Chunk → List Chunk → List Chunk → Counts → List Chunk × Result Failure Counts
  in_transaction offset size c cs tx n =
      transact queries aead fill embed_client old_key new_key offset (c ∷ take size cs) tx n

  abbrev pub run_batch :
      ℕ → Chunk → List Chunk → List Chunk → Counts → Result Failure (List Chunk × Counts)
  run_batch size c cs tx n =
      rotate_batch queries aead fill embed_client old_key new_key (c ∷ take size cs) tx n

  -- One round of the loop, by what it fetches and how its transaction ends.
  pub loop_unfetched :
      (fuel size offset : ℕ) (tx : List Chunk) (n : Counts)
      → queries.fetches offset ≡ false
      → loop (suc fuel) size tx offset n ≡ some (tx, err failed)
  unfolding rotate_loop
  loop_unfetched fuel size offset tx n f = rw (f, rotate_loop) refl

  pub loop_end :
      (fuel size : ℕ) (xs : List Chunk) (n : Counts)
      → queries.fetches (length xs) ≡ true
      → loop (suc fuel) size (xs ++ []) (length xs) n ≡ some (xs ++ [], ok n)
  unfolding rotate_loop
  loop_end fuel zero xs n f = rw (f, rotate_loop) refl
  loop_end fuel (suc size) xs n f = rw (f, rotate_loop, drop-length xs []) refl

  pub loop_fails :
      (fuel size : ℕ) (xs : List Chunk) (c : Chunk) (cs t : List Chunk) (n : Counts) (e : Failure)
      → queries.fetches (length xs) ≡ true
      → in_transaction (length xs) size c cs (xs ++ c ∷ cs) n ≡ (t, err e)
      → loop (suc fuel) (suc size) (xs ++ c ∷ cs) (length xs) n ≡ some (t, err e)
  unfolding rotate_loop
  loop_fails fuel size xs c cs t n e f b =
      rw (f, rotate_loop, drop-length xs (c ∷ cs), rotate_loop, b) (ap (λ p. some (p.0, err e)) b)

  pub loop_goes_on :
      (fuel size : ℕ) (xs : List Chunk) (c : Chunk) (cs : List Chunk) (n : Counts)
      (r : List Chunk × Counts)
      → queries.fetches (length xs) ≡ true
      → in_transaction (length xs) size c cs (xs ++ c ∷ cs) n ≡ (r.0, ok r.1)
      → loop (suc fuel) (suc size) (xs ++ c ∷ cs) (length xs) n
        ≡ loop fuel (suc size) r.0 (length xs + suc (length (take size cs))) r.1
  unfolding rotate_loop
  loop_goes_on fuel size xs c cs n r f b =
      rw (f, rotate_loop, drop-length xs (c ∷ cs), rotate_loop, b)
        (ap (λ p. loop fuel (suc size) p.0 (length xs + suc (length (take size cs))) r.1) b)

  -- How a transaction ends: rolled back, or with the rows of its batch written.
  abbrev pub Ends :
      List Chunk
      → Result Failure (List Chunk × Counts)
      → List Chunk × Result Failure Counts
      → Type 0
  Ends tx o p =
      ((e : Failure) × (p ≡ (tx, err e)))
      ⊎ (r : List Chunk × Counts) × (o ≡ ok r) × ((p ≡ (r.0, ok r.1)) ⊎ (p ≡ (r.0, err failed)))

  settle-Ends :
      (c : Commit) (tx : List Chunk) (o : Result Failure (List Chunk × Counts))
      → Ends tx o (settle queries aead fill embed_client old_key new_key c tx o)
  unfolding settle
  settle-Ends c tx (err e) = inl (e, refl)
  settle-Ends committed tx (ok r) = inr (r, refl, inl refl)
  settle-Ends unanswered tx (ok r) = inr (r, refl, inr refl)
  settle-Ends refused tx (ok r) = inl (failed, refl)

  pub transact-Ends :
      (offset size : ℕ) (c : Chunk) (cs tx : List Chunk) (n : Counts)
      → Ends tx (run_batch size c cs tx n) (in_transaction offset size c cs tx n)
  unfolding transact
  transact-Ends offset size c cs tx n = elim (Bool-cases (queries.begins offset)) [
    | inl e ↦ rw e (settle-Ends (queries.commits offset) tx (run_batch size c cs tx n))
    | inr e ↦ inl (failed, rw e refl)
  ]

  pub transact-committed :
      (offset size : ℕ) (c : Chunk) (cs tx : List Chunk) (n : Counts) (r : List Chunk × Counts)
      → queries.begins offset ≡ true
      → queries.commits offset ≡ committed
      → run_batch size c cs tx n ≡ ok r
      → in_transaction offset size c cs tx n ≡ (r.0, ok r.1)
  unfolding transact settle
  transact-committed offset size c cs tx n r g k b = rw (g, transact, b, k) refl

  pub loop-zero :
      (size offset : ℕ) (xs : List Chunk) (n : Counts) → loop zero size xs offset n ≡ none
  unfolding rotate_loop
  loop-zero size offset xs n = refl
