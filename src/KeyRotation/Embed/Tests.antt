-- ===== src/KeyRotation/Embed/Tests.antt =====
-- A service that embeds a text as its length.
use mathlib.Core.List.Permᴰ
use mcp_data_gateway.Prelude.{ℕ, ◌+◌, ◌≡◌, refl, List, [], ◌∷◌, map, Option, none, some, length}
use mcp_data_gateway.Prelude.Bytes.{Bytes, utf8}
use mcp_data_gateway.Prelude.Text.{Text, codes}
use mcp_data_gateway.Ingest.Embed.{EmbedData, embedder, new_client as daemon_client}
use mcp_data_gateway.Ingest.Embed.Sort.{numbered}
use mcp_data_gateway.KeyRotation.Embed.{new_client, embed, reembed, format_vector as tool_format}
use mcp_data_gateway.KeyRotation.Embed.Same.{embedder-reembed}

abbrev digit : ℕ → Text
digit n = (48 + n) ∷ []

abbrev as_is : Bytes → Text
as_is b = b

abbrev vec : Text → List ℕ
vec t = length t ∷ []

abbrev post_batch : ℕ → Text → List Text → Option (List (EmbedData (List ℕ)))
post_batch i url batch = some (numbered vec 0 batch)

abbrev post : Text → Text → Option (List (List ℕ))
post url text = some (vec text ∷ [])

abbrev nothing : Text → Text → Option (List (List ℕ))
nothing url text = some []

bound :
    reembed post digit as_is (new_client (codes "http://tei/")) (codes "hi") ≡ some (codes "[2]")
unfolding reembed embed tool_format utf8
bound = refl

empty_reply : embed nothing (new_client (codes "http://tei/")) (codes "hi") ≡ none
unfolding embed
empty_reply = refl

embedder-reembed_example :
    (embs : List Bytes) × (embedder digit post_batch
        (daemon_client (codes "http://tei/") 2)
        (codes "hi" ∷ codes "a" ∷ [])
      ≡ some embs)
    × (map
          (λ c. reembed post digit as_is (new_client (codes "http://tei/")) (utf8 c))
          (codes "hi" ∷ codes "a" ∷ [])
        ≡ map some embs)
unfolding utf8
embedder-reembed_example =
    embedder-reembed digit as_is vec (codes "http://tei/") 2 post_batch post
      (codes "hi" ∷ codes "a" ∷ [])
      (λ i batch. (numbered vec 0 batch, refl, Permᴰ.refl (numbered vec 0 batch))) (λ c. ([], refl))
      (refl, (refl, tt))
