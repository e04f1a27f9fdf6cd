-- ===== src/KeyRotation/Embed/Same.antt =====
-- The tool and the daemon bind the same literals for the same texts.
use mcp_data_gateway.Prelude.{
  ℕ, ◌≡◌, refl, ap, ap₂, ◌∙◌, List, [], ◌∷◌, ◌++◌, map, Option, some, All,
}
use mcp_data_gateway.Prelude.Bytes.{Bytes, utf8}
use mcp_data_gateway.Prelude.Text.{Text, codes}
use mcp_data_gateway.Ingest.Embed.{
  EmbedData, trim_slashes, joined, format_vector, literals, embedder, new_client as daemon_client,
}
use mcp_data_gateway.Ingest.Embed.Order.{Serves, embed_batch-Serves}
use mcp_data_gateway.KeyRotation.Embed.{
  join, literal_of, first_of, format_vector as tool_format, new_client, embed, reembed,
}

join-joined :
    {F : Type 0} (to_string : F → Text) (v : List F) → join (map to_string v) ≡ joined to_string v
unfolding join joined
join-joined to_string [] = refl
join-joined to_string (x ∷ []) = refl
join-joined to_string (x ∷ y ∷ v) =
    ap (λ s. to_string x ++ (b',' ∷ s)) (join-joined to_string (y ∷ v))

-- The two copies of `format_vector` print the same.
format_vector_same :
    {F : Type 0} (to_string : F → Text) (v : List F)
    → tool_format to_string v ≡ format_vector to_string v
unfolding tool_format format_vector join joined
format_vector_same to_string v = ap (λ s. b'[' ∷ (s ++ b']' ∷ [])) (join-joined to_string v)

module _ {F : Type 0} (to_string : F → Text) (lossy : Bytes → Text) (vec : Text → List F)
    (base_url : Text) (batch_size : ℕ)
    (post_batch : ℕ → Text → List Text → Option (List (EmbedData (List F))))
    (post : Text → Text → Option (List (List F))) where
  -- what is bound for a text
  abbrev literal : Text → Bytes
  literal c = utf8 (format_vector to_string (vec c))

  -- The service lists the embedding of a text first, where it is asked for one text.
  abbrev pub ServesOne : Type 0
  ServesOne =
      (c : Text)
      → (rest : List (List F)) × (post (trim_slashes base_url ++ codes "/v1/embeddings") c
          ≡ some (vec c ∷ rest))

  -- The decoder reads the texts back from their bytes.
  abbrev pub Decodes : List Text → Type 0
  Decodes cs = All (λ c. lossy (utf8 c) ≡ c) cs

  reembed-utf8 :
      (c : Text)
      → ServesOne
      → lossy (utf8 c) ≡ c
      → reembed post to_string lossy (new_client base_url) (utf8 c) ≡ some (literal c)
  unfolding reembed embed new_client literal_of first_of
  reembed-utf8 c serves e =
      let (rest, p) = serves c in
      rw (e, p) (ap (λ s. some (utf8 s)) (format_vector_same to_string (vec c)))

  all_reembed :
      (cs : List Text)
      → ServesOne
      → Decodes cs
      → map (λ c. reembed post to_string lossy (new_client base_url) (utf8 c)) cs
        ≡ map some (map literal cs)
  all_reembed [] serves h = refl
  all_reembed (c ∷ cs) serves (e, h) = ap₂ (◌∷◌) (reembed-utf8 c serves e) (all_reembed cs serves h)

  map-map :
      (cs : List Text) → map (λ v. utf8 (format_vector to_string v)) (map vec cs) ≡ map literal cs
  map-map [] = refl
  map-map (c ∷ cs) = ap (◌∷◌ (literal c)) (map-map cs)

  -- With a service that has one embedding for each text, in whatever order it lists those of a batch, and
  -- lists that of a single text first, and a decoder that reads the texts back, the daemon binds a literal for
  -- each text, and the tool, with its own copy of `format_vector`, binds the same one for the
  -- bytes of the text.
  pub embedder-reembed :
      (cs : List Text)
      → Serves post_batch (daemon_client base_url batch_size) vec
      → ServesOne
      → Decodes cs
      → (embs : List Bytes) × (embedder to_string post_batch (daemon_client base_url batch_size) cs
          ≡ some embs)
        × (map (λ c. reembed post to_string lossy (new_client base_url) (utf8 c)) cs
            ≡ map some embs)
  unfolding embedder
  embedder-reembed cs batch one decodes = (
    map literal cs,
    ap (literals to_string) (embed_batch-Serves post_batch base_url batch_size vec cs batch)
        ∙ ap some (map-map cs),
    all_reembed cs one decodes,
  )
