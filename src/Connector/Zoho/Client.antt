-- ===== src/Connector/Zoho/Client.antt =====
-- `ZohoClient::new` and `ZohoTokenCache::new` of zoho.rs. Whether the two HTTP clients build is a parameter.
use mcp_data_gateway.Prelude.{Bool, ◌++◌, Option, none, ◌&&◌, if◌then◌else◌}
use mcp_data_gateway.Prelude.Bytes.{bytes_eq}
use mcp_data_gateway.Prelude.Text.{Text, codes}
use mcp_data_gateway.Prelude.Result.{Result, ok, err}
use mcp_data_gateway.Connector.Zoho.Tokens.{CachedToken}

pub record ZohoCredentials : Type 0 where
  pub client_id : Text
  pub client_secret : Text
  pub refresh_token : Text
  pub dc : Text

pub record ZohoTokenCache : Type 0 where
  pub cached : Option CachedToken
  pub creds : ZohoCredentials
  pub accounts_base : Text

pub record ZohoClient : Type 0 where
  pub id : Text
  pub tokens : ZohoTokenCache
  pub api_base : Text
  pub root_id : Text

pub data BuildError : Type 0 where
  not_set : (variable : Text) → BuildError
  unsupported_dc : (dc : Text) → BuildError
  no_http_client : BuildError

abbrev pub new_cache : ZohoCredentials → ZohoTokenCache
new_cache creds = record {
  cached = none;
  creds = creds;
  accounts_base = codes "https://accounts.zoho." ++ creds.dc;
}

-- The two flags say whether the client for the API builds and whether the one for downloads does.
unfoldable pub new_zoho : Bool → Bool → ZohoCredentials → Text → Text → Result BuildError ZohoClient
new_zoho api_builds download_builds creds connector_id root_id =
    if bytes_eq creds.dc (codes "eu")
    then (if api_builds && download_builds
        then ok (record {
          id = connector_id;
          tokens = new_cache creds;
          api_base = codes "https://workdrive.zoho." ++ (creds.dc ++ codes "/api/v1");
          root_id = root_id;
        })
        else err no_http_client)
    else err (unsupported_dc creds.dc)
