-- ===== src/Ingest/Embed.antt =====
-- ingestion/src/embed.rs: the client of the embedding service. The service is a parameter: it answers the
-- i-th request at a URL, or fails. `format_vector` is that of db.rs, which writes the embeddings.
pub mod Sort
pub mod Order
mod Tests
use mcp_data_gateway.Prelude.{
  ℕ, zero, suc, ◌+◌, Bool, List, [], ◌∷◌, ◌++◌, map, Option, none, some, if◌then◌else◌, leb, ltb,
  ◌==◌, length, take, drop, ◌≡◌,
}
use mcp_data_gateway.Prelude.Bytes.{Bytes, utf8}
use mcp_data_gateway.Prelude.Text.{Text, codes}
use mcp_data_gateway.Prelude.Result.{Result, ok, err, ◌>>=◌}

pub data EmbedError : Type 0 where
  failed : EmbedError
  wrong_count : (returned inputs : ℕ) → EmbedError

pub record EmbedClient : Type 0 where
  pub base_url : Text
  pub batch_size : ℕ

-- `trim_end_matches('/')`
slash_before : ℕ → Text → Text
slash_before c [] = if c == b'/' then [] else c ∷ []
slash_before c (d ∷ s) = c ∷ d ∷ s

unfoldable pub trim_slashes : Text → Text
unfolding slash_before
trim_slashes [] = []
trim_slashes (c ∷ s) = slash_before c (trim_slashes s)

unfoldable pub new_client : Text → ℕ → EmbedClient
unfolding trim_slashes
new_client base_url batch_size = record {
  base_url = trim_slashes base_url;
  batch_size = if ltb batch_size 1 then 1 else batch_size;
}

pub record EmbedData (V : Type 0) : Type 0 where
  pub index : ℕ
  pub embedding : V

module _ {V : Type 0} where
  -- `sort_by_key` is stable.
  unfoldable pub insert : EmbedData V → List (EmbedData V) → List (EmbedData V)
  insert d [] = d ∷ []
  insert d (e ∷ ds) = let rest = insert d ds in if leb d.index e.index then d ∷ e ∷ ds else e ∷ rest

  unfoldable pub sort_by_index : List (EmbedData V) → List (EmbedData V)
  sort_by_index [] = []
  sort_by_index (d ∷ ds) = insert d (sort_by_index ds)

  -- a reply to a number of texts: one embedding for each, in the order of the indices
  unfoldable pub collect : ℕ → Option (List (EmbedData V)) → Result EmbedError (List V)
  collect n none = err failed
  collect n (some ds) =
      if length ds == n
      then ok (map (λ d. d.embedding) (sort_by_index ds))
      else err (wrong_count (length ds) n)

  module _ (post : ℕ → Text → List Text → Option (List (EmbedData V))) (client : EmbedClient) where
    unfoldable pub embed_one_batch : ℕ → List Text → Result EmbedError (List V)
    unfolding collect
    embed_one_batch i texts =
        collect (length texts) (post i (client.base_url ++ codes "/v1/embeddings") texts)

    -- the loop over `texts.chunks(batch_size)`
    unfoldable pub embed_chunks : ℕ → ℕ → List Text → Result EmbedError (List V)
    embed_chunks zero i texts = ok []
    embed_chunks (suc fuel) i [] = ok []
    embed_chunks (suc fuel) i (t ∷ texts) =
        embed_one_batch i (take client.batch_size (t ∷ texts)) >>= λ first.
        embed_chunks fuel (i + 1) (drop client.batch_size (t ∷ texts)) >>= λ rest.
        ok (first ++ rest)

    unfoldable pub embed_batch : List Text → Result EmbedError (List V)
    unfolding embed_chunks
    embed_batch texts = embed_chunks (length texts) 0 texts

-- the numbers between commas
unfoldable pub joined : {F : Type 0} → (F → Text) → List F → Text
joined to_string [] = []
joined to_string (x ∷ []) = to_string x
joined to_string (x ∷ y ∷ xs) = to_string x ++ (b',' ∷ joined to_string (y ∷ xs))

unfoldable pub format_vector : {F : Type 0} → (F → Text) → List F → Text
unfolding joined
format_vector to_string v = b'[' ∷ (joined to_string v ++ b']' ∷ [])

unfoldable pub literals :
    {F : Type 0} → (F → Text) → Result EmbedError (List (List F)) → Option (List Bytes)
literals to_string (err e) = none
literals to_string (ok vs) = some (map (λ v. utf8 (format_vector to_string v)) vs)

-- What the cycle makes of the client: the literals of the embeddings.
unfoldable pub embedder :
    {F : Type 0}
    → (F → Text)
    → (ℕ → Text → List Text → Option (List (EmbedData (List F))))
    → EmbedClient
    → List Text
    → Option (List Bytes)
unfolding literals
embedder to_string post client texts = literals to_string (embed_batch post client texts)

-- What the cycle relies on: one embedding for each text.
pub record IsEmbedder (embed : List Text → Option (List Bytes)) : Type 0 where
  pub counted :
      (texts : List Text) (vs : List Bytes) → embed texts ≡ some vs → length vs ≡ length texts
