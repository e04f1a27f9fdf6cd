-- ===== src/Connector/Zoho.antt =====
-- ingestion/src/connector/zoho.rs: constants, credentials and the classification of OAuth errors.
pub mod Tokens
pub mod Bfs
pub mod Redirect
pub mod Client
pub mod Body
pub mod Clock
pub mod Source
use text.Mathlib.Text.{◌==◌ as str_eq}
use mcp_data_gateway.Prelude.{ℕ, ◌*◌, String, ◌||◌, if◌then◌else◌}
use mcp_data_gateway.Connector.{
  AuthErrorKind, invalid_code, access_denied, invalid_client, unexpected,
}

abbrev pub max_redirects : ℕ
max_redirects = 5

abbrev pub access_token_ttl_safety_secs : ℕ
access_token_ttl_safety_secs = 300

abbrev pub watermark_overlap_ms : ℕ
watermark_overlap_ms = 60000

unfoldable pub classify_oauth_error : String → AuthErrorKind
classify_oauth_error code =
    if str_eq code "invalid_code"
    then invalid_code
    else if str_eq code "access_denied"
    then access_denied
    else if str_eq code "invalid_client" || str_eq code "invalid_client_secret"
    then invalid_client
    else unexpected
