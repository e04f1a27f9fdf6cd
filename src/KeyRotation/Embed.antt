-- ===== src/KeyRotation/Embed.antt =====
-- tools/key-rotation/src/embed.rs, and the vector literal of db.rs. The embedding service is a parameter: it
-- answers a text at a URL with the embeddings that it lists, or fails.
pub mod Same
mod Tests
use mcp_data_gateway.Prelude.{List, [], ◌∷◌, ◌++◌, map, Option, none, some}
use mcp_data_gateway.Prelude.Bytes.{Bytes, utf8}
use mcp_data_gateway.Prelude.Text.{Text, codes}
use mcp_data_gateway.Ingest.Embed.{trim_slashes}

pub record EmbedClient : Type 0 where
  pub base_url : Text

-- `join(",")`
join : List Text → Text
join [] = []
join (s ∷ []) = s
join (s ∷ t ∷ rest) = s ++ (b',' ∷ join (t ∷ rest))

-- `format_vector` of the tool's db.rs
pub format_vector : {F : Type 0} → (F → Text) → List F → Text
unfolding join
format_vector to_string v = b'[' ∷ (join (map to_string v) ++ b']' ∷ [])

unfoldable pub new_client : Text → EmbedClient
new_client base_url = record { base_url = trim_slashes base_url }

-- `.into_iter().next()` on the embeddings of a reply
pub first_of : {V : Type 0} → Option (List V) → Option V
first_of none = none
first_of (some []) = none
first_of (some (v ∷ vs)) = some v

module _ {F : Type 0} (post : Text → Text → Option (List (List F))) where
  unfoldable pub embed : EmbedClient → Text → Option (List F)
  unfolding first_of
  embed client text = first_of (post (client.base_url ++ codes "/v1/embeddings") text)

  literal_of : (F → Text) → Option (List F) → Option Bytes
  literal_of to_string none = none
  literal_of to_string (some v) = some (utf8 (format_vector to_string v))

  -- What the loop of `main` does with the client: the text of the bytes, its embedding, and the literal
  -- that is bound. `lossy` is `String::from_utf8_lossy`.
  unfoldable pub reembed : (F → Text) → (Bytes → Text) → EmbedClient → Bytes → Option Bytes
  unfolding literal_of
  reembed to_string lossy client plain = literal_of to_string (embed client (lossy plain))
