-- ===== src/Daemon/Tests.antt =====
-- A daemon with a drive and Zoho, where Zoho answers or not.
use mcp_data_gateway.Prelude.{
  ℕ, ◌≡◌, refl, String, true, false, List, [], ◌∷◌, Option, none, some, if◌then◌else◌, length,
}
use mcp_data_gateway.Prelude.Bytes.{Bytes, bytes_eq}
use mcp_data_gateway.Prelude.Text.{Text, codes, trim}
use mcp_data_gateway.Prelude.Result.{ok, err}
use mcp_data_gateway.Connector.{DeltaResult, Outcome, other}
use mcp_data_gateway.Connector.Graph.Client.{new_graph}
use mcp_data_gateway.Connector.Zoho.Client.{ZohoClient, new_cache, new_zoho, not_set}
use mcp_data_gateway.Crypto.Tests.{toy, zero_iv}
use mcp_data_gateway.Ingest.{SourceConnector, Env, process_items, run_cycle}
use mcp_data_gateway.Ingest.Cipher.{parse_key, sized_key}
use mcp_data_gateway.Ingest.Embed.{new_client, trim_slashes}
use mcp_data_gateway.Daemon.{
  Args, Vars, build_zoho_connector, zoho_from, graph, zoho, Started, start, World, load_cursor,
  save_cursor, one_cycle, round, poll_loop,
}
use mcp_data_gateway.Daemon.Start.{IsClassification, AreConnectors, start-checked}
use mcp_data_gateway.Daemon.Polls.{poll_loop_without}

-- an environment that has the variables of a list, each set to one letter
abbrev among : List Text → Vars
among [] v = none
among (n ∷ names) v = if bytes_eq n v then some (codes "x") else among names v

abbrev credentials : List Text
credentials = codes "ZOHO_CLIENT_ID" ∷ codes "ZOHO_CLIENT_SECRET" ∷ codes "ZOHO_REFRESH_TOKEN" ∷ []

-- With the root alone the connector is passed over in silence, and without the root it is an error.
root_alone : build_zoho_connector true true (among (codes "ZOHO_ROOT_ID" ∷ [])) ≡ ok none
unfolding build_zoho_connector
root_alone = refl

no_root : build_zoho_connector true true (among credentials) ≡ err (not_set (codes "ZOHO_ROOT_ID"))
unfolding build_zoho_connector zoho_from
no_root = refl

abbrev key_text : Text
key_text = codes "0123456789abcdef0123456789abcdef"

abbrev args : Args
args = record {
  content_key = key_text;
  tei_base_url = codes "http://tei";
  tenant_id = codes "t";
  client_id = codes "c";
  client_secret = codes "s";
  drive_id = codes "d";
  classification = codes "INTERNAL";
  embed_batch_size = 32;
  once = false;
}

abbrev as_is : Text → Option Bytes
as_is s = some s

abbrev client : ZohoClient
client = record {
  id = codes "zoho:x";
  tokens = new_cache (record {
    client_id = codes "x";
    client_secret = codes "x";
    refresh_token = codes "x";
    dc = codes "eu";
  });
  api_base = codes "https://workdrive.zoho.eu/api/v1";
  root_id = codes "x";
}

abbrev started : Started
started = record {
  content_key = key_text;
  connectors = graph (new_graph (codes "d") (codes "t") (codes "c") (codes "s")) ∷ zoho client ∷ [];
  embed = record { base_url = codes "http://tei"; batch_size = 32 };
}

starts : start as_is true true true (among (codes "ZOHO_ROOT_ID" ∷ credentials)) args ≡ ok started
unfolding start build_zoho_connector zoho_from new_zoho parse_key sized_key trim new_client
    trim_slashes
starts = refl

start-checked_example :
    (length key_text ≡ 32)
    × IsClassification (codes "INTERNAL")
    × AreConnectors (among (codes "ZOHO_ROOT_ID" ∷ credentials)) args started.connectors
start-checked_example =
    start-checked as_is true true true (among (codes "ZOHO_ROOT_ID" ∷ credentials)) args started
      starts

-- A connector with nothing new, or one that is out of reach.
abbrev source : Outcome (DeltaResult String) → SourceConnector
source reply = record { list_changes = λ cursor. reply; download = λ item. err other }

abbrev env : ℕ → Text → Env
env i id = record {
  connector = source (
      if bytes_eq id (codes "z")
      then err other
      else ok (record { next_cursor = some "next"; changes = []; more = false }));
  extract = λ bytes name. bytes;
  aead = toy;
  fill = λ item n. some zero_iv;
  content_key = 7 ∷ [];
  classification = codes "INTERNAL";
  uuid = λ id i. i;
  embed_batch = λ texts. none;
  loads = true;
  saves = true;
  deletes = λ item. true;
  upserts = λ item. true;
}

abbrev world : World
world = record { table = []; cursors = (codes "z", "kept") ∷ [] }

two_rounds :
    poll_loop env 2 0 false (codes "z" ∷ codes "d" ∷ []) world
    ≡ record { table = []; cursors = (codes "z", "kept") ∷ (codes "d", "next") ∷ [] }
unfolding poll_loop round one_cycle run_cycle process_items load_cursor save_cursor
two_rounds = refl

poll_loop_without_example :
    poll_loop env 2 0 false (codes "z" ∷ codes "d" ∷ []) world
    ≡ poll_loop env 2 0 false (codes "d" ∷ []) world
poll_loop_without_example =
    poll_loop_without env 2 0 false [] (codes "z") (codes "d" ∷ []) world
      (λ j cursor. (other, refl))
