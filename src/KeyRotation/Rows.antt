-- ===== src/KeyRotation/Rows.antt =====
-- One row and one batch of the rotation: the row is replaced in its place by one that the new key opens.
use mcp_data_gateway.Prelude.{
  ℕ, suc, ◌+◌, ◌&&◌, true, Bool-cases, ◌≡◌, refl, sym, subst, ◌∙◌, ◌⊎◌, inl, inr, List, [], ◌∷◌,
  ◌++◌, append_assoc, Option, none, some, arith, Option-cases, length, All,
}
use mcp_data_gateway.Prelude.Bytes.{Bytes}
use mcp_data_gateway.Prelude.Result.{ok, both_ok, ok_same}
use mcp_data_gateway.Crypto.{Aead, IsAead, encrypt, decrypt}
use mcp_data_gateway.Crypto.Laws.{decrypt-encrypt, encrypt-none, encrypt_total}
use mcp_data_gateway.KeyRotation.{
  Chunk, Counts, Queries, committed, updated, update_content, update_content_and_embedding,
  write_back, rotate_chunk, rotate_batch,
}
use mcp_data_gateway.KeyRotation.Table.{IsOrdered, IsOrdered-replace, update_one, Pairs, total}

-- What the rotation needs of the calls that it makes in order not to fail.
pub record IsReady (queries : Queries) (aead : Aead) (fill : ℕ → Option Bytes)
    (embed_client : Option (Bytes → Option Bytes)) : Type 0 where
  pub answers : (queries.connects && queries.counts) ≡ true
  pub fetched : (offset : ℕ) → queries.fetches offset ≡ true
  pub begun : (offset : ℕ) → queries.begins offset ≡ true
  pub updates : (id : ℕ) → queries.updates id ≡ true
  pub commits : (offset : ℕ) → queries.commits offset ≡ committed
  pub draws : (n : ℕ) → (iv : Bytes) × (fill n ≡ some iv)
  pub seals : (key iv plain : Bytes) → (sealed : Bytes) × (aead.seal key iv plain ≡ some sealed)
  pub embeds :
      (client : Bytes → Option Bytes) (plain : Bytes)
      → embed_client ≡ some client
      → (vector : Bytes) × (client plain ≡ some vector)

module _ (queries : Queries) (aead : Aead) (fill : ℕ → Option Bytes)
    (embed_client : Option (Bytes → Option Bytes)) (old_key new_key : Bytes) (a : IsAead aead)
    (sized : (n : ℕ) (iv : Bytes) → fill n ≡ some iv → length iv ≡ 12) where
  -- The text of a row: what the old key opens, or else what the new key opens.
  abbrev pub Reads : Chunk → Bytes → Type 0
  Reads c p =
      (decrypt aead old_key c.encrypted_content ≡ some p)
      ⊎ ((decrypt aead old_key c.encrypted_content ≡ none)
          × (decrypt aead new_key c.encrypted_content ≡ some p))

  -- The embedding beside a text that was encrypted again: that of the client, if there is one.
  abbrev pub EmbedsAs : Option (Bytes → Option Bytes) → Bytes → Chunk → Chunk → Type 0
  EmbedsAs none p c d = d.embedding ≡ c.embedding
  EmbedsAs (some client) p c d = client p ≡ d.embedding

  -- The new key opens `d` to the text of `c`, and a row that the old key does not open stays as it was.
  abbrev pub Rotated : Chunk → Chunk → Type 0
  Rotated c d =
      (d.id ≡ c.id)
      × (p : Bytes) × Reads c p
      × (decrypt aead new_key d.encrypted_content ≡ some p)
      × (decrypt aead old_key c.encrypted_content ≡ some p → EmbedsAs embed_client p c d)
      × (decrypt aead old_key c.encrypted_content ≡ none → d ≡ c)

  abbrev Step : Chunk → List Chunk → List Chunk → Counts → List Chunk × Counts → Type 0
  Step c xs ys n r = (d : Chunk) × (r.0 ≡ xs ++ d ∷ ys) × Rotated c d × (total r.1 ≡ suc (total n))

  updated-ok :
      (id : ℕ) (tx : List Chunk) (n : Counts) (r : List Chunk × Counts)
      → updated queries aead fill embed_client old_key new_key id tx n ≡ ok r
      → (tx, record n { rotated = suc n.rotated }) ≡ r
  unfolding updated
  updated-ok id tx n r h = elim (Bool-cases (queries.updates id)) [
    | inl e ↦ ok_same _ _ refl (rw (e, updated) at h)
    | inr e ↦ cc (rw (e, updated) at h)
  ]

  write_back-Step :
      (client : Option (Bytes → Option Bytes)) (c : Chunk) (lo : ℕ) (xs ys : List Chunk)
      (n : Counts) (plain enc : Bytes) (r : List Chunk × Counts)
      → IsOrdered lo (xs ++ c ∷ ys)
      → embed_client ≡ client
      → decrypt aead old_key c.encrypted_content ≡ some plain
      → decrypt aead new_key enc ≡ some plain
      → write_back queries aead fill embed_client old_key new_key client c.id plain enc
          (xs ++ c ∷ ys)
          n
        ≡ ok r
      → Step c xs ys n r
  unfolding write_back
  write_back-Step none c lo xs ys n plain enc r o same p d h =
      subst (Step c xs ys n) (updated-ok c.id _ n r h) (
        record c { encrypted_content = enc },
        update_one (λ x. record x { encrypted_content = enc }) lo xs c ys o,
        (
          refl,
          plain,
          inl p,
          d,
          λ _.
              subst (λ k. EmbedsAs k plain c (record c { encrypted_content = enc })) (sym same)
                refl,
          λ none_. cc (p, none_),
        ),
        omega arith,
      )
  write_back-Step (some client) c lo xs ys n plain enc r o same p d h =
      elim (Option-cases (client plain)) [
        | inl e ↦ cc (rw (e, write_back) at h)
        | inr (v, e) ↦ subst (Step c xs ys n) (updated-ok c.id _ n r (rw (e, write_back) at h)) (
          record c { encrypted_content = enc; embedding = some v },
          update_one (λ x. record x { encrypted_content = enc; embedding = some v }) lo xs c ys o,
          (
            refl,
            plain,
            inl p,
            d,
            λ _.
                subst
                  (λ k.
                    EmbedsAs k plain c (record c { encrypted_content = enc; embedding = some v }))
                  (sym same) e,
            λ none_. cc (p, none_),
          ),
          omega arith,
        )
      ]

  -- A row that is opened is encrypted again and written back.
  rotate_opened :
      (c : Chunk) (lo : ℕ) (xs ys : List Chunk) (n : Counts) (p : Bytes) (r : List Chunk × Counts)
      → IsOrdered lo (xs ++ c ∷ ys)
      → decrypt aead old_key c.encrypted_content ≡ some p
      → rotate_chunk queries aead fill embed_client old_key new_key c (xs ++ c ∷ ys) n ≡ ok r
      → Step c xs ys n r
  unfolding rotate_chunk
  rotate_opened c lo xs ys n p r o d h = elim (Option-cases (fill n.rotated)) [
    | inl e ↦ cc (rw (d, rotate_chunk, e, encrypt-none aead new_key p) at h)
    | inr (iv, e) ↦ elim (Option-cases (encrypt aead (some iv) new_key p)) [
      | inl f ↦ cc (rw (d, rotate_chunk, e, f) at h)
      | inr (enc, f) ↦
          write_back-Step embed_client c lo xs ys n p enc r o refl d
            (decrypt-encrypt aead iv new_key p enc a (sized n.rotated iv e) f).0
            (rw (d, rotate_chunk, e, f) at h)
    ]
  ]

  rotate_chunk-Step :
      (c : Chunk) (lo : ℕ) (xs ys : List Chunk) (n : Counts) (r : List Chunk × Counts)
      → IsOrdered lo (xs ++ c ∷ ys)
      → rotate_chunk queries aead fill embed_client old_key new_key c (xs ++ c ∷ ys) n ≡ ok r
      → Step c xs ys n r
  unfolding rotate_chunk
  rotate_chunk-Step c lo xs ys n r o h =
      elim (Option-cases (decrypt aead old_key c.encrypted_content)) [
        | inr (p, d) ↦ rotate_opened c lo xs ys n p r o d h
        | inl d ↦ elim (Option-cases (decrypt aead new_key c.encrypted_content)) [
          | inl e ↦ cc (rw (d, rotate_chunk, e) at h)
          | inr (p, e) ↦
              subst (Step c xs ys n) (ok_same _ _ refl (rw (d, rotate_chunk, e) at h))
                (c, refl, (refl, p, inr (d, e), e, λ s. cc (d, s), λ _. refl), omega arith)
        ]
      ]

  abbrev Steps : ℕ → List Chunk → List Chunk → List Chunk → Counts → List Chunk × Counts → Type 0
  Steps lo cs xs ys n r =
      (ds : List Chunk) × (r.0 ≡ xs ++ (ds ++ ys))
      × IsOrdered lo r.0
      × Pairs Rotated cs ds
      × (total r.1 ≡ total n + length cs)

  -- A batch that ends well has rotated its rows in their place.
  pub rotate_batch-Steps :
      (cs : List Chunk) (lo : ℕ) (xs ys : List Chunk) (n : Counts) (r : List Chunk × Counts)
      → IsOrdered lo (xs ++ (cs ++ ys))
      → rotate_batch queries aead fill embed_client old_key new_key cs (xs ++ (cs ++ ys)) n ≡ ok r
      → Steps lo cs xs ys n r
  unfolding rotate_batch
  rotate_batch-Steps [] lo xs ys n r o h =
      subst (Steps lo [] xs ys n) (ok_same _ _ refl h) ([], refl, o, tt, omega arith)
  rotate_batch-Steps (c ∷ cs) lo xs ys n r o h =
      let (r', h₁, h₂) = both_ok _ _ h in
      let (d, e, w, t) = rotate_chunk-Step c lo xs (cs ++ ys) n r' o h₁ in
      let at_d : r'.0 ≡ (xs ++ d ∷ []) ++ (cs ++ ys) =
        e ∙ sym (append_assoc xs (d ∷ []) (cs ++ ys)) in
      let (ds, e', o', ws, t') =
        rotate_batch-Steps cs lo (xs ++ d ∷ []) ys r'.1 r
          (subst (IsOrdered lo) (sym (append_assoc xs (d ∷ []) (cs ++ ys)))
            (IsOrdered-replace lo xs c d (cs ++ ys) w.0 o))
          (subst (λ u. rotate_batch queries aead fill embed_client old_key new_key cs u r'.1 ≡ ok r)
            at_d h₂) in
      (d ∷ ds, e' ∙ append_assoc xs (d ∷ []) (ds ++ ys), o', (w, ws), omega (arith, t, t'))

  -- A row that one of the keys opens is rotated or skipped, if the calls succeed.
  rotate_chunk_total :
      (c : Chunk) (tx : List Chunk) (n : Counts) (p : Bytes)
      → IsReady queries aead fill embed_client
      → Reads c p
      → (r : List Chunk × Counts) × (rotate_chunk queries aead fill embed_client old_key new_key c
            tx n
          ≡ ok r)
  unfolding rotate_chunk updated
  rotate_chunk_total c tx n p ready (inr (d, e)) =
      ((tx, record n { skipped = suc n.skipped }), rw (d, rotate_chunk, e) refl)
  rotate_chunk_total c tx n p ready (inl d) =
      let (iv, e) = ready.draws n.rotated in
      let (sealed, s) = ready.seals new_key iv p in
      elim (Option-cases embed_client) [
        | inl e₀ ↦ (
          (update_content tx c.id (iv ++ sealed), record n { rotated = suc n.rotated }),
          rw
              (
                d,
                rotate_chunk,
                e,
                encrypt_total aead iv new_key p sealed s,
                e₀,
                write_back,
                updated,
                ready.updates c.id,
              )
              refl,
        )
        | inr (client, e₁) ↦
            let (v, w) = ready.embeds client p e₁ in
            (
              (
                update_content_and_embedding tx c.id (iv ++ sealed) v,
                record n { rotated = suc n.rotated },
              ),
              rw
                  (
                    d,
                    rotate_chunk,
                    e,
                    encrypt_total aead iv new_key p sealed s,
                    e₁,
                    write_back,
                    w,
                    updated,
                    ready.updates c.id,
                  )
                  refl,
            )
      ]

  pub rotate_batch_total :
      (cs : List Chunk) (tx : List Chunk) (n : Counts)
      → IsReady queries aead fill embed_client
      → All (λ c. (p : Bytes) × Reads c p) cs
      → (r : List Chunk × Counts) × (rotate_batch queries aead fill embed_client old_key new_key cs
            tx n
          ≡ ok r)
  unfolding rotate_batch
  rotate_batch_total [] tx n ready h = ((tx, n), refl)
  rotate_batch_total (c ∷ cs) tx n ready ((p, d), h) =
      let (r, e) = rotate_chunk_total c tx n p ready d in
      let (r', e') = rotate_batch_total cs r.0 r.1 ready h in (r', rw e e')
