-- ===== src/Connector/Zoho/Redirect/Tests.antt =====
-- A download that is redirected to another host, and the theorems at it.
use mcp_data_gateway.Prelude.{ℕ, ◌≡◌, refl, [], ◌∷◌, none, some}
use mcp_data_gateway.Prelude.Text.{codes}
use mcp_data_gateway.Prelude.Bytes.{Bytes, bytes_eq}
use mcp_data_gateway.Prelude.Result.{ok}
use mcp_data_gateway.Connector.{Outcome}
use mcp_data_gateway.Connector.Zoho.Redirect.{
  Url, Request, Reply, response, target, absent, host_str, hop, is_trusted_zoho_host,
  download_with_trusted_auth,
}
use mcp_data_gateway.Prelude.{if◌then◌else◌}
use mcp_data_gateway.Connector.Zoho.Redirect.Auth.{IsCareful, download-IsCareful}

abbrev api : Url
api = record { text = codes "https://workdrive.zoho.eu/f"; host = some (codes "workdrive.zoho.eu") }

abbrev elsewhere : Url
elsewhere = record { text = codes "https://cdn.example/f"; host = some (codes "cdn.example") }

abbrev answers : Request → Reply
answers r =
    if bytes_eq (host_str r.url) (codes "cdn.example")
    then response 200 absent (ok (codes "file"))
    else response 302 (target elsewhere) (ok [])

abbrev token : ℕ → Outcome Bytes
token n = ok (codes "t")

drops_token : download_with_trusted_auth answers token api ≡ (
  record { url = api; token = some (codes "t") } ∷ record { url = elsewhere; token = none } ∷ [],
  ok (codes "file"),
)
unfolding download_with_trusted_auth hop is_trusted_zoho_host
drops_token = refl

download-IsCareful_example : IsCareful 5 api (download_with_trusted_auth answers token api).0
download-IsCareful_example = download-IsCareful answers token api
