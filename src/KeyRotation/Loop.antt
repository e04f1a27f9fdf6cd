-- ===== src/KeyRotation/Loop.antt =====
-- The loop over the batches: what it leaves behind, and that it returns.
use mcp_data_gateway.Prelude.{
  ℕ, zero, suc, ◌+◌, true, Bool-cases, ◌<◌, ◌≡◌, refl, ap, ap₂, sym, subst, ◌∙◌, ◌⊎◌, inl, inr,
  List, [], ◌∷◌, ◌++◌, append_assoc, Option, some, some-injective, arith, length, take, drop,
  take-append-drop, length-append, length-drop, All, All-take, All-drop,
}
use mcp_data_gateway.Prelude.Bytes.{Bytes}
use mcp_data_gateway.Prelude.Result.{Result, ok, err, ok_same}
use mcp_data_gateway.Crypto.{Aead, IsAead}
use mcp_data_gateway.KeyRotation.{Chunk, Counts, Failure, failed, Queries}
use mcp_data_gateway.KeyRotation.Rounds.{
  loop, in_transaction, run_batch, Ends, loop_unfetched, loop_end, loop_fails, loop_goes_on,
  transact-Ends, transact-committed, loop-zero,
}
use mcp_data_gateway.KeyRotation.Rows.{
  IsReady, Reads, Rotated, rotate_batch-Steps, rotate_batch_total,
}
use mcp_data_gateway.KeyRotation.Pairs.{Pairs-append, Pairs-length, Pairs-map, Pairs-same}
use mcp_data_gateway.KeyRotation.Table.{IsOrdered, Pairs, total}

module _ (queries : Queries) (aead : Aead) (fill : ℕ → Option Bytes)
    (embed_client : Option (Bytes → Option Bytes)) (old_key new_key : Bytes) (a : IsAead aead)
    (sized : (n : ℕ) (iv : Bytes) → fill n ≡ some iv → length iv ≡ 12) where
  abbrev pub Turned : Chunk → Chunk → Type 0
  Turned = Rotated queries aead fill embed_client old_key new_key a sized

  abbrev pub Readable : Chunk → Type 0
  Readable c = (p : Bytes) × Reads queries aead fill embed_client old_key new_key a sized c p

  -- A batch that ends well: what it leaves, and where the loop queries aead fill embed_client old_key new_key goes on.
  abbrev Batch : ℕ → ℕ → List Chunk → Chunk → List Chunk → Counts → List Chunk × Counts → Type 0
  Batch size lo xs c cs n r =
      (ds : List Chunk) × (r.0 ≡ (xs ++ ds) ++ drop size cs)
      × (length xs + suc (length (take size cs)) ≡ length (xs ++ ds))
      × IsOrdered lo ((xs ++ ds) ++ drop size cs)
      × Pairs Turned (c ∷ take size cs) ds
      × (total r.1 ≡ total n + length (c ∷ take size cs))

  run_batch-Batch :
      (size lo : ℕ) (xs : List Chunk) (c : Chunk) (cs : List Chunk) (n : Counts)
      (r : List Chunk × Counts)
      → IsOrdered lo (xs ++ c ∷ cs)
      → run_batch queries aead fill embed_client old_key new_key size c cs (xs ++ c ∷ cs) n ≡ ok r
      → Batch size lo xs c cs n r
  run_batch-Batch size lo xs c cs n r or b =
      let whole : xs ++ c ∷ cs ≡ xs ++ (c ∷ take size cs ++ drop size cs) =
        ap (λ v. xs ++ c ∷ v) (sym (take-append-drop size cs)) in
      let (ds, e, o', ws, k) =
        rotate_batch-Steps queries aead fill embed_client old_key new_key a sized (c ∷ take size cs)
          lo xs (drop size cs) n r (subst (IsOrdered lo) whole or)
          (subst
            (λ v. run_batch queries aead fill embed_client old_key new_key size c cs v n ≡ ok r)
            whole b) in
      let split : r.0 ≡ (xs ++ ds) ++ drop size cs = e ∙ sym (append_assoc xs ds (drop size cs)) in
      (
        ds,
        split,
        omega (arith, length-append xs ds, Pairs-length Turned (c ∷ take size cs) ds ws),
        subst (IsOrdered lo) split o',
        ws,
        k,
      )

  loop_next :
      (fuel size lo : ℕ) (xs : List Chunk) (c : Chunk) (cs : List Chunk) (n : Counts)
      (r : List Chunk × Counts) (q : Batch size lo xs c cs n r)
      → queries.fetches (length xs) ≡ true
      → in_transaction queries aead fill embed_client old_key new_key
          (length xs)
          size
          c
          cs
          (xs ++ c ∷ cs)
          n
        ≡ (r.0, ok r.1)
      → loop queries aead fill embed_client old_key new_key
          (suc fuel)
          (suc size)
          (xs ++ c ∷ cs)
          (length xs)
          n
        ≡ loop queries aead fill embed_client old_key new_key fuel
            (suc size)
            ((xs ++ q.0) ++ drop size cs)
            (length (xs ++ q.0))
            r.1
  loop_next fuel size lo xs c cs n r (ds, split, here, o', ws, k) f b =
      loop_goes_on queries aead fill embed_client old_key new_key fuel size xs c cs n r f b
      ∙ ap₂ (λ v w. loop queries aead fill embed_client old_key new_key fuel (suc size) v w r.1)
          split here

  abbrev pub Kept : Chunk → Chunk → Type 0
  Kept c d = (d ≡ c) ⊎ Turned c d

  -- What a run over the rows `ys` behind `xs` leaves.
  abbrev pub Leaves : List Chunk → List Chunk → Counts → List Chunk × Result Failure Counts → Type 0
  Leaves xs ys n u =
      (zs : List Chunk) × (u.0 ≡ xs ++ zs)
      × Pairs Kept ys zs
      × ((m : Counts) → u.1 ≡ ok m → Pairs Turned ys zs × (total m ≡ total n + length ys))

  -- a run that ends early, with its rows as they were
  Leaves-same : (xs ys : List Chunk) (n : Counts) (e : Failure) → Leaves xs ys n (xs ++ ys, err e)
  Leaves-same xs ys n e = (ys, refl, Pairs-same Kept ys (λ x. inl refl), λ m k. cc)

  -- the batch in front of the rows that the rest of the run leaves
  Leaves-both :
      (xs ds bs rest : List Chunk) (n k : Counts) (u : List Chunk × Result Failure Counts)
      → Pairs Turned bs ds
      → total k ≡ total n + length bs
      → Leaves (xs ++ ds) rest k u
      → Leaves xs (bs ++ rest) n u
  Leaves-both xs ds bs rest n k u ws c (zs, e, ks, fin) = (
    ds ++ zs,
    e ∙ append_assoc xs ds zs,
    Pairs-append Kept bs ds rest zs (Pairs-map Turned Kept bs ds (λ x y w. inr w) ws) ks,
    λ m em.
        let (ts, t) = fin m em in
        (Pairs-append Turned bs ds rest zs ws ts, omega (arith, t, c, length-append bs rest)),
  )

  -- the rest of the run, with some fuel
  abbrev Goes : ℕ → ℕ → ℕ → List Chunk × Result Failure Counts → Type 0
  Goes fuel size lo u =
      (xs ys : List Chunk) (n : Counts)
      → IsOrdered lo (xs ++ ys)
      → loop queries aead fill embed_client old_key new_key fuel (suc size) (xs ++ ys) (length xs) n
        ≡ some u
      → Leaves xs ys n u

  -- by how the transaction of the batch ends
  batch-Leaves :
      (fuel size lo : ℕ) (xs : List Chunk) (c : Chunk) (cs : List Chunk) (n : Counts)
      (u : List Chunk × Result Failure Counts)
      → Goes fuel size lo u
      → IsOrdered lo (xs ++ c ∷ cs)
      → queries.fetches (length xs) ≡ true
      → Ends queries aead fill embed_client old_key new_key
          (xs ++ c ∷ cs)
          (run_batch queries aead fill embed_client old_key new_key size c cs (xs ++ c ∷ cs) n)
          (in_transaction queries aead fill embed_client old_key new_key
            (length xs)
            size
            c
            cs
            (xs ++ c ∷ cs)
            n)
      → loop queries aead fill embed_client old_key new_key
          (suc fuel)
          (suc size)
          (xs ++ c ∷ cs)
          (length xs)
          n
        ≡ some u
      → Leaves xs (c ∷ cs) n u
  batch-Leaves fuel size lo xs c cs n u go or f (inl (e, q)) h =
      subst (Leaves xs (c ∷ cs) n)
        (some-injective _ _ (
          sym (
            loop_fails queries aead fill embed_client old_key new_key fuel size xs c cs
              (xs ++ c ∷ cs) n e f q)
          ∙ h))
        (Leaves-same xs (c ∷ cs) n e)
  batch-Leaves fuel size lo xs c cs n u go or f (inr (r, b, inl q)) h =
      let batch = run_batch-Batch size lo xs c cs n r or b in
      let (ds, split, here, o', ws, k) = batch in
      subst (λ v. Leaves xs (c ∷ v) n u) (take-append-drop size cs)
        (Leaves-both xs ds (c ∷ take size cs) (drop size cs) n r.1 u ws k (
          go (xs ++ ds) (drop size cs) r.1 o'
            (sym (loop_next fuel size lo xs c cs n r batch f q) ∙ h)))
  batch-Leaves fuel size lo xs c cs n u go or f (inr (r, b, inr q)) h =
      let (ds, split, here, o', ws, k) = run_batch-Batch size lo xs c cs n r or b in
      subst (λ v. Leaves xs (c ∷ v) n u) (take-append-drop size cs)
        (Leaves-both xs ds (c ∷ take size cs) (drop size cs) n r.1 u ws k (
          subst (Leaves (xs ++ ds) (drop size cs) r.1)
            (ap (λ v. (v, err failed)) (sym split)
              ∙ some-injective _ _ (
                  sym (
                    loop_fails queries aead fill embed_client old_key new_key fuel size xs c cs r.0
                      n failed f q)
                  ∙ h))
            (Leaves-same (xs ++ ds) (drop size cs) r.1 failed)))

  fetched-Leaves :
      (fuel size lo : ℕ) (xs ys : List Chunk) (n : Counts) (u : List Chunk × Result Failure Counts)
      → Goes fuel size lo u
      → IsOrdered lo (xs ++ ys)
      → queries.fetches (length xs) ≡ true
      → loop queries aead fill embed_client old_key new_key
          (suc fuel)
          (suc size)
          (xs ++ ys)
          (length xs)
          n
        ≡ some u
      → Leaves xs ys n u
  fetched-Leaves fuel size lo xs [] n u go or f h =
      subst (Leaves xs [] n)
        (some-injective _ _ (
          sym (loop_end queries aead fill embed_client old_key new_key fuel (suc size) xs n f) ∙ h))
        ([], refl, tt, λ m e. (tt, ap total (ok_same m n e refl) ∙ omega arith))
  fetched-Leaves fuel size lo xs (c ∷ cs) n u go or f h =
      batch-Leaves fuel size lo xs c cs n u go or f
        (transact-Ends queries aead fill embed_client old_key new_key (length xs) size c cs
          (xs ++ c ∷ cs) n)
        h

  pub loop-Leaves :
      (fuel size lo : ℕ) (xs ys : List Chunk) (n : Counts) (u : List Chunk × Result Failure Counts)
      → IsOrdered lo (xs ++ ys)
      → loop queries aead fill embed_client old_key new_key fuel (suc size) (xs ++ ys) (length xs) n
        ≡ some u
      → Leaves xs ys n u
  loop-Leaves zero size lo xs ys n u or h = cc (
    loop-zero queries aead fill embed_client old_key new_key (suc size) (length xs) (xs ++ ys) n,
    h,
  )
  loop-Leaves (suc fuel) size lo xs ys n u or h = elim (Bool-cases (queries.fetches (length xs))) [
    | inl f ↦
        fetched-Leaves fuel size lo xs ys n u
          (λ vs ws k o i. loop-Leaves fuel size lo vs ws k u o i) or f h
    | inr f ↦
        subst (Leaves xs ys n)
          (some-injective _ _ (
            sym (
              loop_unfetched queries aead fill embed_client old_key new_key fuel (suc size)
                (length xs) (xs ++ ys) n f)
            ∙ h))
          (Leaves-same xs ys n failed)
  ]

  -- The loop queries aead fill embed_client old_key new_key returns: with fuel for a row each and one round more, and without an early end if the
  -- calls succeed and one of the keys opens each row.
  pub loop_returns :
      (fuel size lo : ℕ) (xs ys : List Chunk) (n : Counts)
      → length ys < fuel
      → IsOrdered lo (xs ++ ys)
      → IsReady queries aead fill embed_client
      → All Readable ys
      → (t : List Chunk) × (m : Counts) × (loop queries aead fill embed_client old_key new_key fuel
            (suc size)
            (xs ++ ys)
            (length xs)
            n
          ≡ some (t, ok m))
  loop_returns zero size lo xs ys n l or ready h = absurd (omega arith)
  loop_returns (suc fuel) size lo xs [] n l or ready h = (
    xs ++ [],
    n,
    loop_end queries aead fill embed_client old_key new_key fuel (suc size) xs n
        (ready.fetched (length xs)),
  )
  loop_returns (suc fuel) size lo xs (c ∷ cs) n l or ready h =
      let (r, b) =
        rotate_batch_total queries aead fill embed_client old_key new_key a sized (c ∷ take size cs)
          (xs ++ c ∷ cs) n ready (h.0, All-take Readable size cs h.1) in
      let batch = run_batch-Batch size lo xs c cs n r or b in
      let (ds, split, here, o', ws, k) = batch in
      let (t, m, g) =
        loop_returns fuel size lo (xs ++ ds) (drop size cs) r.1 (omega (arith, length-drop size cs))
          o' ready (All-drop Readable size cs h.1) in
      let e = loop_next fuel size lo xs c cs n r batch (ready.fetched (length xs)) (
        transact-committed queries aead fill embed_client old_key new_key (length xs) size c cs
          (xs ++ c ∷ cs) n r (ready.begun (length xs)) (ready.commits (length xs)) b) in
      (t, m, e ∙ g)
