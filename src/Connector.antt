-- ===== src/Connector.antt =====
-- ingestion/src/connector/mod.rs: the items, the errors and the interface that every connector has.
-- Remote identifiers, names, cursors and URLs are texts.
pub mod Zoho
pub mod Graph
use mcp_data_gateway.Prelude.{ℕ, String, Bool, List, Option}
use mcp_data_gateway.Prelude.Bytes.{Bytes}
use mcp_data_gateway.Prelude.Result.{Result}

-- `raw` is the JSON envelope; the connectors put one text into it at most.
pub record ChangeItem : Type 0 where
  pub remote_id : String
  pub parent_id : Option String
  pub name : String
  pub is_folder : Bool
  pub modified_at : Option Bytes
  pub deleted : Bool
  pub raw : Option String

pub record DeltaResult (Cursor : Type 0) : Type 0 where
  pub next_cursor : Option Cursor
  pub changes : List ChangeItem
  pub more : Bool

pub data AuthErrorKind : Type 0 where
  invalid_code access_denied invalid_client unexpected : AuthErrorKind

pub data ConnectorError : Type 0 where
  http : ℕ → ConnectorError
  auth : AuthErrorKind → ConnectorError
  cursor_invalid : ConnectorError
  throttled : ℕ → ConnectorError
  other : ConnectorError

abbrev pub Outcome : Type 0 → Type 0
Outcome = Result ConnectorError
