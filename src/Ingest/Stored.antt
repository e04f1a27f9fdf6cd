-- ===== src/Ingest/Stored.antt =====
-- From a file to its rows: the chunker, the cipher, the embedding client and the queries together.
use mcp_data_gateway.Prelude.{
  ℕ, ◌+◌, ◌≡◌, refl, ap, ap₂, sym, ◌∙◌, String, Bool, true, false, inl, inr, List, [], ◌∷◌, map,
  Option, none, some, some-injective, Option-cases, Bool-cases, length, arith,
}
use mcp_data_gateway.Prelude.Text.{Text}
use mcp_data_gateway.Prelude.Bytes.{Bytes, utf8}
use mcp_data_gateway.Prelude.Result.{ok}
use mcp_data_gateway.Chunker.{chunk}
use mcp_data_gateway.Connector.{ChangeItem}
use mcp_data_gateway.Crypto.{IsAead, iv_len, decrypt}
use mcp_data_gateway.Ingest.Cipher.{encrypt}
use mcp_data_gateway.Ingest.Cipher.Laws.{decrypt-encrypt_same}
use mcp_data_gateway.Ingest.{
  ChunkRow, Env, new_rows, encrypt_all, embedded, from_chunks, from_text, ingest, store, turn,
  process_item,
}
use mcp_data_gateway.Ingest.Embed.{IsEmbedder}
use mcp_data_gateway.Ingest.Embed.Order.{length-map}
use mcp_data_gateway.Ingest.Rows.{rows_of}
use mcp_data_gateway.Ingest.Cycle.{process_item-own, target}

module _ (env : Env) where
  -- Every draw has the length of an IV.
  abbrev pub Draws : Type 0
  Draws = (id : String) (i : ℕ) → (iv : Bytes) × (env.fill id i ≡ some iv) × (length iv ≡ iv_len)

  abbrev pub readable : Bytes → Option Bytes
  readable wire = decrypt env.aead env.content_key wire

  encrypt_all-readable :
      (id : String) (i : ℕ) (cs : List Text) (encs : List Bytes)
      → IsAead env.aead
      → Draws
      → encrypt_all env id i cs ≡ some encs
      → map readable encs ≡ map (λ c. some (utf8 c)) cs
  unfolding encrypt_all
  encrypt_all-readable id i [] encs a d e = ap (map readable) (sym (some-injective _ _ e))
  encrypt_all-readable id i (c ∷ cs) encs a d e =
      elim (Option-cases (encrypt env.aead (env.fill id i) env.content_key (utf8 c))) [
        | inl n ↦ cc (rw (n, encrypt_all) at e)
        | inr (enc, h) ↦ elim (Option-cases (encrypt_all env id (i + 1) cs)) [
          | inl n ↦ cc (rw (h, encrypt_all, n) at e)
          | inr (rest, g) ↦
              let (iv, f, l) = d id i in
              let opened : readable enc ≡ some (utf8 c) =
                decrypt-encrypt_same env.aead iv env.content_key (utf8 c) enc a l
                  (ap (λ o. encrypt env.aead o env.content_key (utf8 c)) (sym f) ∙ h) in
              ap (map readable) (sym (some-injective _ _ (rw (h, encrypt_all, g) at e)))
              ∙ ap₂ ◌∷◌ opened (encrypt_all-readable id (i + 1) cs rest a d g)
        ]
      ]

  -- lists whose images are equal
  lengths :
      (encs : List Bytes) (cs : List Text)
      → map readable encs ≡ map (λ c. some (utf8 c)) cs
      → length encs ≡ length cs
  lengths encs cs e =
      sym (length-map readable encs) ∙ ap length e ∙ length-map (λ c. some (utf8 c)) cs

  embedded-parts :
      (cs : List Text) (o : Option (List Bytes)) (encs embs : List Bytes)
      → embedded env cs o ≡ some (encs, embs)
      → (o ≡ some encs) × (env.embed_batch cs ≡ some embs)
  unfolding embedded
  embedded-parts cs none encs embs e = cc
  embedded-parts cs (some es) encs embs e = elim (Option-cases (env.embed_batch cs)) [
    | inl n ↦ cc (rw (n, embedded) at e)
    | inr (vs, h) ↦
        let same = some-injective _ _ (rw (h, embedded) at e) in
        (ap (λ p. some p.0) same, h ∙ ap (λ p. some p.1) same)
  ]

  -- What is stored of a file was made of its chunks.
  from_chunks-parts :
      (item : ChangeItem) (o : Option (List Text)) (cs : List Text) (encs embs : List Bytes)
      → from_chunks env item o ≡ some (encs, embs)
      → o ≡ some cs
      → (encrypt_all env item.remote_id 0 cs ≡ some encs) × (env.embed_batch cs ≡ some embs)
  unfolding from_chunks
  from_chunks-parts item none cs encs embs e h = cc
  from_chunks-parts item (some []) cs encs embs e h = cc
  from_chunks-parts item (some (t ∷ ts)) cs encs embs e h =
      let same : t ∷ ts ≡ cs = some-injective _ _ h in
      let (p, q) =
        embedded-parts (t ∷ ts) (encrypt_all env item.remote_id 0 (t ∷ ts)) encs embs e in
      (ap (encrypt_all env item.remote_id 0) (sym same) ∙ p, ap env.embed_batch (sym same) ∙ q)

  from_text-parts :
      (item : ChangeItem) (s : Text) (cs : List Text) (encs embs : List Bytes)
      → from_text env item s ≡ some (encs, embs)
      → chunk s ≡ some cs
      → (encrypt_all env item.remote_id 0 cs ≡ some encs) × (env.embed_batch cs ≡ some embs)
  unfolding from_text
  from_text-parts item [] cs encs embs e h = cc
  from_text-parts item (c ∷ s) cs encs embs e h =
      from_chunks-parts item (chunk (c ∷ s)) cs encs embs e h

  ingest-parts :
      (item : ChangeItem) (content : Bytes) (cs : List Text) (encs embs : List Bytes)
      → ingest env item ≡ some (encs, embs)
      → env.connector.download item ≡ ok content
      → chunk (env.extract content item.name) ≡ some cs
      → (encrypt_all env item.remote_id 0 cs ≡ some encs) × (env.embed_batch cs ≡ some embs)
  unfolding ingest
  ingest-parts item content cs encs embs e d h =
      from_text-parts item (env.extract content item.name) cs encs embs (rw (d, ingest) at e) h

  -- an item that counts as processed was stored
  store-counted :
      (item : ChangeItem) (o : Option (List Bytes × List Bytes)) (table : List ChunkRow)
      → (store env item o table).1 ≡ 1
      → (env.upserts item.remote_id ≡ true) × (p : List Bytes × List Bytes) × (o ≡ some p)
  unfolding store
  store-counted item none table h = absurd (omega arith)
  store-counted item (some (encs, embs)) table h = elim (Bool-cases (env.upserts item.remote_id)) [
    | inl u ↦ (u, (encs, embs), refl)
    | inr u ↦ let g = rw u at h in absurd (omega (arith, g))
  ]

  turn-counted :
      (item : ChangeItem) (deleted : Bool) (table : List ChunkRow)
      → deleted ≡ false
      → (turn env item deleted table).1 ≡ 1
      → (env.upserts item.remote_id ≡ true)
        × (p : List Bytes × List Bytes) × (ingest env item ≡ some p)
  unfolding turn
  turn-counted item true table d h = cc
  turn-counted item false table d h = store-counted item (ingest env item) table h

  target_stored :
      (item : ChangeItem) (old : List ChunkRow) (encs embs : List Bytes)
      → item.deleted ≡ false
      → env.upserts item.remote_id ≡ true
      → ingest env item ≡ some (encs, embs)
      → target env item old
        ≡ new_rows (env.uuid item.remote_id) env.classification item.remote_id item.name 0 encs embs
  unfolding target
  target_stored item old encs embs d u e = rw (e, target, d, u) refl

  read_rows :
      (uuid : ℕ → ℕ) (class : Text) (id name : String) (i : ℕ) (encs embs : List Bytes)
      → length encs ≡ length embs
      → map (λ r. readable r.encrypted_content) (new_rows uuid class id name i encs embs)
        ≡ map readable encs
  unfolding new_rows
  read_rows uuid class id name i [] embs l = refl
  read_rows uuid class id name i (e ∷ encs) [] l = absurd (omega arith)
  read_rows uuid class id name i (e ∷ encs) (v ∷ embs) l =
      ap (◌∷◌ (readable e)) (read_rows uuid class id name (i + 1) encs embs (omega arith))

  -- A file for which every call succeeds: what it is to have as its rows are its chunks.
  pub target-readable :
      (item : ChangeItem) (content : Bytes) (cs : List Text) (old : List ChunkRow)
      (p : List Bytes × List Bytes)
      → IsAead env.aead
      → Draws
      → IsEmbedder env.embed_batch
      → item.deleted ≡ false
      → env.connector.download item ≡ ok content
      → chunk (env.extract content item.name) ≡ some cs
      → env.upserts item.remote_id ≡ true
      → ingest env item ≡ some p
      → map (λ r. decrypt env.aead env.content_key r.encrypted_content) (target env item old)
        ≡ map (λ c. some (utf8 c)) cs
  target-readable item content cs old (encs, embs) a draws emb live got cut u e =
      let (p, q) = ingest-parts item content cs encs embs e got cut in
      let opened = encrypt_all-readable item.remote_id 0 cs encs a draws p in
      let same : length encs ≡ length embs = lengths encs cs opened ∙ sym (emb.counted cs embs q) in
      ap (map (λ r. readable r.encrypted_content)) (target_stored item old encs embs live u e)
      ∙ read_rows (env.uuid item.remote_id) env.classification item.remote_id item.name 0 encs embs
          same
      ∙ opened

  -- With a cipher that opens what it sealed, draws of 12 bytes and one embedding for each text, a file that
  -- counts as processed has as its rows exactly its chunks, in order: the content key opens each row to
  -- the text of its chunk.
  pub process_item-readable :
      (item : ChangeItem) (content : Bytes) (cs : List Text) (table : List ChunkRow)
      → IsAead env.aead
      → Draws
      → IsEmbedder env.embed_batch
      → item.deleted ≡ false
      → env.connector.download item ≡ ok content
      → chunk (env.extract content item.name) ≡ some cs
      → (process_item env item table).1 ≡ 1
      → map
          (λ r. decrypt env.aead env.content_key r.encrypted_content)
          (rows_of item.remote_id (process_item env item table).0)
        ≡ map (λ c. some (utf8 c)) cs
  unfolding process_item
  process_item-readable item content cs table a draws emb live got cut counted =
      let (u, p, e) = turn-counted item item.deleted table live counted in
      ap (map (λ r. readable r.encrypted_content)) (process_item-own env item table)
      ∙ target-readable item content cs (rows_of item.remote_id table) p a draws emb live got cut u
          e
