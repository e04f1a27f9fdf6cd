-- ===== src/Connector/Graph/Client.antt =====
-- `GraphClient::new`, `fetch_token` and `access_token` of graph.rs on the client. The token service is a
-- parameter: it answers a form that is posted to a URL.
use mcp_data_gateway.Prelude.{
  ℕ, ◌&&◌, List, [], ◌∷◌, ◌++◌, Option, none, some, if◌then◌else◌, leb, ltb,
}
use mcp_data_gateway.Prelude.Bytes.{Bytes}
use mcp_data_gateway.Prelude.Text.{Text, codes}
use mcp_data_gateway.Prelude.Result.{ok, err}
use mcp_data_gateway.Connector.{Outcome, other}
use mcp_data_gateway.Connector.Graph.{GraphToken, access_token}

pub record GraphClient : Type 0 where
  pub drive_id : Text
  pub tenant_id : Text
  pub client_id : Text
  pub client_secret : Text
  pub token : Option GraphToken

abbrev pub new_graph : Text → Text → Text → Text → GraphClient
new_graph drive_id tenant_id client_id client_secret = record {
  drive_id = drive_id;
  tenant_id = tenant_id;
  client_id = client_id;
  client_secret = client_secret;
  token = none;
}

-- What comes back: nothing, or a status and the token with its lifetime if the body decodes.
pub data TokenReply : Type 0 where
  no_reply : TokenReply
  token_reply : ℕ → Option (Bytes × ℕ) → TokenReply

decode_token : Option (Bytes × ℕ) → Outcome (Bytes × ℕ)
decode_token none = err other
decode_token (some body) = ok body

-- `error_for_status` refuses the statuses from 400 to 599.
read_token : TokenReply → Outcome (Bytes × ℕ)
unfolding decode_token
read_token no_reply = err other
read_token (token_reply status body) =
    if leb 400 status && ltb status 600 then err other else decode_token body

unfoldable pub fetch_token :
    (Text → List (Text × Text) → TokenReply) → GraphClient → Outcome (Bytes × ℕ)
unfolding read_token
fetch_token post client = read_token (
    post
      (codes "https://login.microsoftonline.com/"
        ++ (client.tenant_id ++ codes "/oauth2/v2.0/token"))
      ((codes "grant_type", codes "client_credentials")
        ∷ (codes "client_id", client.client_id)
        ∷ (codes "client_secret", client.client_secret)
        ∷ (codes "scope", codes "https://graph.microsoft.com/.default")
        ∷ []))

-- The cache is locked for the test and again for the write.
unfoldable pub client_token :
    (Text → List (Text × Text) → TokenReply) → ℕ → ℕ → GraphClient → Outcome Bytes × GraphClient
client_token post now later client =
    let (token, cached) = access_token (fetch_token post client) now later client.token in
    (token, record client { token = cached })
