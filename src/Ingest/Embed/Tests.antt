-- ===== src/Ingest/Embed/Tests.antt =====
-- A service that lists the embeddings of a request from the last to the first, and batches of two texts.
use mathlib.Core.List.{Permᴰ}
use mathlib.Core.List.Permᴰ
use mcp_data_gateway.Prelude.{ℕ, ◌≡◌, refl, List, [], ◌∷◌, ◌++◌, map, Option, some, length}
use mcp_data_gateway.Prelude.Text.{Text, codes}
use mcp_data_gateway.Prelude.Result.{ok, err}
use mcp_data_gateway.Ingest.Embed.{
  EmbedData, wrong_count, new_client, trim_slashes, insert, sort_by_index, collect, embed_one_batch,
  embed_chunks, embed_batch,
}
use mcp_data_gateway.Ingest.Embed.Sort.{numbered}
use mcp_data_gateway.Ingest.Embed.Order.{embed_batch-Serves}

abbrev backwards : List (EmbedData ℕ) → List (EmbedData ℕ)
backwards [] = []
backwards (d ∷ ds) = backwards ds ++ d ∷ []

to_end : (d : EmbedData ℕ) (ds : List (EmbedData ℕ)) → Permᴰ (ds ++ d ∷ []) (d ∷ ds)
to_end d [] = Permᴰ.refl (d ∷ [])
to_end d (e ∷ ds) = Permᴰ.trans (Permᴰ.cons refl (to_end d ds)) (Permᴰ.swap refl refl)

backwards-perm : (ds : List (EmbedData ℕ)) → Permᴰ (backwards ds) ds
backwards-perm [] = Permᴰ.nil
backwards-perm (d ∷ ds) =
    Permᴰ.trans (to_end d (backwards ds)) (Permᴰ.cons refl (backwards-perm ds))

abbrev post : ℕ → Text → List Text → Option (List (EmbedData ℕ))
post i url batch = some (backwards (numbered length 0 batch))

abbrev texts : List Text
texts = codes "a" ∷ codes "bcd" ∷ codes "ef" ∷ []

three_lengths : embed_batch post (new_client (codes "http://tei//") 2) texts ≡ ok (1 ∷ 3 ∷ 2 ∷ [])
unfolding embed_batch embed_chunks embed_one_batch collect sort_by_index insert new_client
    trim_slashes
three_lengths = refl

abbrev nothing : ℕ → Text → List Text → Option (List (EmbedData ℕ))
nothing i url batch = some []

too_few : embed_batch nothing (new_client (codes "http://tei") 2) texts ≡ err (wrong_count 0 2)
unfolding embed_batch embed_chunks embed_one_batch collect sort_by_index insert new_client
    trim_slashes
too_few = refl

embed_batch-Serves_example :
    embed_batch post (new_client (codes "http://tei//") 2) texts ≡ ok (map length texts)
embed_batch-Serves_example =
    embed_batch-Serves post (codes "http://tei//") 2 length texts (λ i batch.
      (backwards (numbered length 0 batch), refl, backwards-perm (numbered length 0 batch)))
