-- ===== src/Daemon.antt =====
-- `main` of ingestion/src/main.rs: the start of the daemon, build_zoho_connector and the polling loop. The
-- environment, the database connection and what each cycle meets are parameters.
pub mod Start
pub mod Polls
mod Cursors
pub mod Mirror
mod Tests
use mcp_data_gateway.Prelude.{
  ℕ, zero, suc, ◌+◌, String, Bool, true, false, ◌&&◌, ◌||◌, map, List, [], ◌∷◌, ◌++◌, Option, none,
  some, if◌then◌else◌,
}
use mcp_data_gateway.Prelude.Bytes.{Bytes, bytes_eq}
use mcp_data_gateway.Prelude.Text.{Text, codes}
use mcp_data_gateway.Prelude.Result.{Result, ok, err, ◌>>=◌}
use mcp_data_gateway.Connector.Graph.Client.{GraphClient, new_graph}
use mcp_data_gateway.Connector.Zoho.Client.{
  ZohoCredentials, ZohoClient, BuildError, not_set, new_zoho,
}
use mcp_data_gateway.Ingest.{ChunkRow, Db, Env, run_cycle}
use mcp_data_gateway.Ingest.Cipher.{KeyError, parse_key}
use mcp_data_gateway.Ingest.Embed.{EmbedClient, EmbedData, new_client, embedder}

pub record Args : Type 0 where
  pub content_key : Text
  pub tei_base_url : Text
  pub tenant_id : Text
  pub client_id : Text
  pub client_secret : Text
  pub drive_id : Text
  pub classification : Text
  pub embed_batch_size : ℕ
  pub once : Bool

-- `std::env::var`, `none` where it fails
abbrev pub Vars : Type 0
Vars = Text → Option Text

-- `ok_or_else`
pub ok_or {ℓ} : {E A : Type ℓ} → E → Option A → Result E A
ok_or e none = err e
ok_or e (some a) = ok a

pub unwrap_or {ℓ} : {A : Type ℓ} → A → Option A → A
unwrap_or d none = d
unwrap_or d (some a) = a

is_none {ℓ} : {A : Type ℓ} → Option A → Bool
is_none none = true
is_none (some a) = false

-- the credentials, once one of the three variables is set
unfoldable pub zoho_from : Bool → Bool → Vars → Result BuildError ZohoClient
unfolding ok_or unwrap_or
zoho_from api_builds download_builds vars =
    ok_or (not_set (codes "ZOHO_CLIENT_ID")) (vars (codes "ZOHO_CLIENT_ID")) >>= λ client_id.
    ok_or (not_set (codes "ZOHO_CLIENT_SECRET")) (vars (codes "ZOHO_CLIENT_SECRET"))
    >>= λ client_secret.
        ok_or (not_set (codes "ZOHO_REFRESH_TOKEN")) (vars (codes "ZOHO_REFRESH_TOKEN"))
        >>= λ refresh_token.
            ok_or (not_set (codes "ZOHO_ROOT_ID")) (vars (codes "ZOHO_ROOT_ID")) >>= λ root_id.
            new_zoho api_builds download_builds
              (record {
                client_id = client_id;
                client_secret = client_secret;
                refresh_token = refresh_token;
                dc = unwrap_or (codes "eu") (vars (codes "ZOHO_DC"));
              })
              (unwrap_or (codes "zoho:" ++ root_id) (vars (codes "ZOHO_CONNECTOR_ID"))) root_id

pub some_client : Result BuildError ZohoClient → Result BuildError (Option ZohoClient)
some_client (err e) = err e
some_client (ok client) = ok (some client)

pub none_set : Vars → Bool
unfolding is_none
none_set vars =
    is_none (vars (codes "ZOHO_CLIENT_ID"))
    && (is_none (vars (codes "ZOHO_CLIENT_SECRET")) && is_none (vars (codes "ZOHO_REFRESH_TOKEN")))

unfoldable pub build_zoho_connector : Bool → Bool → Vars → Result BuildError (Option ZohoClient)
unfolding zoho_from some_client none_set
build_zoho_connector api_builds download_builds vars =
    if none_set vars then ok none else some_client (zoho_from api_builds download_builds vars)

pub data Connector : Type 0 where
  graph : GraphClient → Connector
  zoho : ZohoClient → Connector

abbrev pub connector_id : Connector → Text
connector_id (graph client) = client.drive_id
connector_id (zoho client) = client.id

abbrev pub drive_of : Args → Connector
drive_of args = graph (new_graph args.drive_id args.tenant_id args.client_id args.client_secret)

-- A connector that does not build is left out.
pub zoho_connectors : Result BuildError (Option ZohoClient) → List Connector
zoho_connectors (err e) = []
zoho_connectors (ok none) = []
zoho_connectors (ok (some client)) = zoho client ∷ []

pub data StartError : Type 0 where
  bad_key : KeyError → StartError
  bad_classification no_database : StartError

-- What the loop works with.
pub record Started : Type 0 where
  pub content_key : Bytes
  pub connectors : List Connector
  pub embed : EmbedClient

pub is_classification : Text → Bool
is_classification c =
    bytes_eq c (codes "PUBLIC")
    || bytes_eq c (codes "INTERNAL")
    || bytes_eq c (codes "CONFIDENTIAL")

pub with_key : Bool → List Connector → Args → Result KeyError Bytes → Result StartError Started
unfolding is_classification
with_key connects zohos args (err e) = err (bad_key e)
with_key connects zohos args (ok key) =
    if is_classification args.classification
    then (if connects
        then ok (record {
          content_key = key;
          connectors = drive_of args ∷ zohos;
          embed = new_client args.tei_base_url args.embed_batch_size;
        })
        else err no_database)
    else err bad_classification

-- `main` in front of the loop
unfoldable pub start :
    (Text → Option Bytes) → Bool → Bool → Bool → Vars → Args → Result StartError Started
unfolding with_key zoho_connectors
start decode connects api_builds download_builds vars args =
    with_key connects (zoho_connectors (build_zoho_connector api_builds download_builds vars)) args
      (parse_key decode args.content_key)

-- The tables document_chunks and ingestion_state.
pub record World : Type 0 where
  pub table : List ChunkRow
  pub cursors : List (Text × String)

-- `load_cursor`
unfoldable pub load_cursor : Text → List (Text × String) → Option String
load_cursor id [] = none
load_cursor id (p ∷ cursors) =
    let rest = load_cursor id cursors in if bytes_eq p.0 id then some p.1 else rest

-- `save_cursor`: INSERT … ON CONFLICT (connector_id) DO UPDATE
unfoldable pub save_cursor : Text → String → List (Text × String) → List (Text × String)
save_cursor id token [] = (id, token) ∷ []
save_cursor id token (p ∷ cursors) =
    let rest = save_cursor id token cursors in
    if bytes_eq p.0 id then (p.0, token) ∷ cursors else p ∷ rest

pub put_back : Text → Option String → List (Text × String) → List (Text × String)
put_back id none cursors = cursors
put_back id (some token) cursors = save_cursor id token cursors

-- A cycle of one connector; its failure is logged.
pub one_cycle : Env → Text → World → World
unfolding put_back
one_cycle env id w =
    let db = (run_cycle env (record { table = w.table; cursor = load_cursor id w.cursors })).0 in
    record { table = db.table; cursors = put_back id db.cursor w.cursors }

-- `env i id` is what the cycle of a connector meets in the i-th round.
module _ (env : ℕ → Text → Env) where
  -- `for connector in &connectors`
  pub round : ℕ → List Text → World → World
  round i [] w = w
  round i (id ∷ ids) w = round i ids (one_cycle (env i id) id w)

  -- The loop of `main`, for a number of rounds; with `once` there is one.
  pub poll_loop : ℕ → ℕ → Bool → List Text → World → World
  poll_loop zero i once ids w = w
  poll_loop (suc n) i once ids w =
      let polled = round i ids w in
      let rest = poll_loop n (i + 1) once ids polled in if once then polled else rest

-- What the cycles share: the key and the embedding client of the start, and the classification.
module _ {F : Type 0} (to_string : F → Text)
    (post : ℕ → Text → List Text → Option (List (EmbedData (List F)))) (env : ℕ → Text → Env) where
  abbrev pub cycle_env : Args → Started → ℕ → Text → Env
  cycle_env args s i id = record (env i id) {
    content_key = s.content_key;
    classification = args.classification;
    embed_batch = embedder to_string post s.embed;
  }

  -- `main`, and the tables behind a number of rounds
  unfoldable pub main :
      (Text → Option Bytes) → Bool → Bool → Bool → Vars → Args → ℕ → World → Result StartError World
  main decode connects api_builds download_builds vars args n w =
      start decode connects api_builds download_builds vars args >>= λ s.
      ok (poll_loop (cycle_env args s) n 0 args.once (map connector_id s.connectors) w)
