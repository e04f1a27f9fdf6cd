-- ===== src/Connector/Zoho/Redirect.antt =====
-- `download_with_trusted_auth` and `is_trusted_zoho_host` of zoho.rs. What the hosts answer, the token cache
-- and the parser of URLs are parameters. Texts are their bytes.
pub mod Auth
mod Tests
use mcp_data_gateway.Prelude.{
  ℕ, zero, suc, Bool, true, false, not, ◌&&◌, ◌||◌, List, [], ◌∷◌, ◌++◌, Option, none, some,
  if◌then◌else◌, leb, ltb, ◌==◌,
}
use mcp_data_gateway.Prelude.Text.{codes}
use mcp_data_gateway.Prelude.Bytes.{Bytes, bytes_eq, ends_with}
use mcp_data_gateway.Prelude.Result.{Result, ok, err}
use mcp_data_gateway.Connector.{ConnectorError, Outcome, http, other}
use mcp_data_gateway.Connector.Zoho.{max_redirects}

unfoldable pub is_trusted_zoho_host : Bytes → Bool
is_trusted_zoho_host host =
    ends_with host (codes ".zoho.eu")
    || ends_with host (codes ".zohocdn.com")
    || bytes_eq host (codes "zoho.eu")

-- A parsed URL: its text, and its host if it has one.
pub record Url : Type 0 where
  pub text : Bytes
  pub host : Option Bytes

abbrev pub host_str : Url → Bytes
host_str u = elim u.host [ none ↦ [] | some h ↦ h ]

-- the header Location of an answer: absent, not a text, not a URL, or a URL
pub data Location : Type 0 where
  absent not_text malformed : Location
  target : Url → Location

-- What comes back for a request: nothing, or a status, its Location, and what reading the body gives.
pub data Reply : Type 0 where
  no_response : Reply
  response : ℕ → Location → Outcome Bytes → Reply

-- A request: its URL and the token in its header.
pub record Request : Type 0 where
  pub url : Url
  pub token : Option Bytes

-- What an answer leads to: the end of the download, or the next URL.
pub data Hop : Type 0 where
  done : Outcome Bytes → Hop
  follow : Url → Hop

location_hop : ℕ → Location → Hop
location_hop status absent = done (err (http status))
location_hop status not_text = done (err other)
location_hop status malformed = done (err other)
location_hop status (target u) = follow u

pub hop : Reply → Hop
unfolding location_hop
hop no_response = done (err other)
hop (response status location body) =
    if leb 300 status && ltb status 400
    then location_hop status location
    else if not (leb 200 status && ltb status 300)
    then done (err (http status))
    else done body

module _ (send : Request → Reply) (refresh : ℕ → Outcome Bytes) where
  -- the token for a round, if one is attached; `n` rounds are left behind it
  attach : Bool → ℕ → Outcome (Option Bytes)
  attach false n = ok none
  attach true n = elim (refresh n) [ err e ↦ err e | ok token ↦ ok (some token) ]

  -- one request in front of the rest
  sent : Request → List Request × Outcome Bytes → List Request × Outcome Bytes
  sent r (rs, o) = (r ∷ rs, o)

  -- The loop over the redirects: the requests that are sent, and the result.
  pub hops : ℕ → Url → Bool → List Request × Outcome Bytes
  unfolding attach sent
  hops zero current_url attach_auth = ([], err other)
  hops (suc n) current_url attach_auth = elim (attach attach_auth n) [
    | err e ↦ ([], err e)
    | ok token ↦
        let r : Request = record { url = current_url; token = token } in
        elim (hop (send r)) [
          | done o ↦ (r ∷ [], o)
          | follow next_url ↦ sent r (hops n next_url (is_trusted_zoho_host (host_str next_url)))
        ]
  ]

  unfoldable pub download_with_trusted_auth : Url → List Request × Outcome Bytes
  unfolding hops
  download_with_trusted_auth initial_url = hops max_redirects initial_url true
