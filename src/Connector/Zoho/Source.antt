-- ===== src/Connector/Zoho/Source.antt =====
-- `impl SourceConnector for ZohoClient` of zoho.rs: id, kind, list_changes with the cursor as a text, and
-- download. The JSON of a cursor (serde_json) and the parser of URLs are parameters.
pub mod Download
pub mod Codec
mod Tests
use mcp_data_gateway.Prelude.{◌≡◌, ℕ, String, List, [], ◌++◌, Option, none, some}
use mcp_data_gateway.Prelude.Int.{ℤ}
use mcp_data_gateway.Prelude.Bytes.{Bytes}
use mcp_data_gateway.Prelude.Text.{Text, codes}
use mcp_data_gateway.Prelude.Result.{Result, ok, err, ◌>>=◌}
use mcp_data_gateway.Connector.{ChangeItem, DeltaResult, Outcome, other}
use mcp_data_gateway.Connector.Zoho.Bfs.{ZohoCursor, PageReply, list_changes}
use mcp_data_gateway.Connector.Zoho.Client.{ZohoClient}
use mcp_data_gateway.Connector.Zoho.Redirect.{Url, Request, Reply, download_with_trusted_auth}

pub id : ZohoClient → Text
id client = client.id

pub kind : ZohoClient → Text
kind client = codes "zoho_workdrive"

-- serde_json on cursors
pub record Json : Type 0 where
  pub to_string : ZohoCursor → Option String
  pub from_str : String → Option ZohoCursor

-- A cursor has a text, and is read back from it.
pub record IsJson (json : Json) : Type 0 where
  pub text : (s : ZohoCursor) → (c : String) × (json.to_string s ≡ some c)
  pub round : (s : ZohoCursor) (c : String) → json.to_string s ≡ some c → json.from_str c ≡ some s

module _ (json : Json) where
  -- `to_json`
  unfoldable pub to_json : ZohoCursor → Outcome String
  to_json s = elim (json.to_string s) [ none ↦ err other | some c ↦ ok c ]

  -- `from_json` on the cursor that is passed; `some none` is a text that does not decode.
  unfoldable pub from_json : Option String → Option (Option ZohoCursor)
  from_json none = none
  from_json (some c) = some (json.from_str c)

  -- the cursor of a result
  unfoldable pub next_text : Option ZohoCursor → Outcome (Option String)
  unfolding to_json
  next_text none = ok none
  next_text (some s) = to_json s >>= λ c. ok (some c)

  unfoldable pub with_text : DeltaResult ZohoCursor → Outcome (DeltaResult String)
  unfolding next_text
  with_text r = next_text r.next_cursor >>= λ c.
      ok (record { next_cursor = c; changes = r.changes; more = r.more })

  -- the result of a call that returns
  unfoldable pub returned :
      Option (Outcome (DeltaResult ZohoCursor)) → Option (Outcome (DeltaResult String))
  unfolding with_text
  returned none = none
  returned (some r) = some (r >>= with_text)

  -- `list_changes`
  unfoldable pub list_text :
      (ℤ → List ℕ)
      → ℕ
      → (String → ℕ → ℕ → PageReply)
      → ℕ
      → String
      → Option String
      → Option (Outcome (DeltaResult String))
  unfolding returned from_json
  list_text format_epoch_ms fuel page now root cursor =
      returned (list_changes format_epoch_ms fuel page now root (from_json cursor))

-- the text of the URL of a download
unfoldable pub download_url : ZohoClient → ChangeItem → Text
download_url client item =
    client.api_base ++ (codes "/files/" ++ (codes item.remote_id ++ codes "/download"))

module _ (parse : Text → Option Url) (send : Request → Reply) (refresh : ℕ → Outcome Bytes) where
  download_from : Option Url → List Request × Outcome Bytes
  download_from none = ([], err other)
  download_from (some initial_url) = download_with_trusted_auth send refresh initial_url

  -- `download`: the requests that are sent, and the result.
  unfoldable pub download : ZohoClient → ChangeItem → List Request × Outcome Bytes
  unfolding download_from download_url
  download client item = download_from (parse (download_url client item))
