-- ===== src/Connector/Zoho/Source/Download.antt =====
-- Where the downloads of a client go that `ZohoClient::new` returned.
use mcp_data_gateway.Prelude.{
  ℕ, ◌≤◌, ◌≡◌, refl, sym, ap, ◌∙◌, Bool, true, false, inr, inl, List, [], ◌∷◌, ◌++◌, Option, some,
  arith, leb, ◌&&◌, length, All, Bool-cases,
}
use mcp_data_gateway.Prelude.Bytes.{Bytes, bytes_eq, eq_of_bytes_eq}
use mcp_data_gateway.Prelude.Text.{Text, codes}
use mcp_data_gateway.Prelude.Result.{Result, ok, err}
use mcp_data_gateway.Connector.{ChangeItem, Outcome}
use mcp_data_gateway.Connector.Zoho.Client.{BuildError, ZohoCredentials, ZohoClient, new_zoho}
use mcp_data_gateway.Connector.Zoho.Redirect.{
  Url, Request, Reply, host_str, is_trusted_zoho_host, download_with_trusted_auth,
}
use mcp_data_gateway.Connector.Zoho.Redirect.Auth.{IsGuarded, IsCareful, download-IsCareful}
use mcp_data_gateway.Connector.Zoho.Source.{download, download_from, download_url}

abbrev pub all_small : Text → Bool
all_small [] = true
all_small (c ∷ l) = leb b'a' c && leb c b'z' && all_small l

-- A label of a host: small letters, one at least.
abbrev pub is_label : Text → Bool
is_label [] = false
is_label (c ∷ l) = all_small (c ∷ l)

-- What is relied on of the parser of URLs: an https URL on a host of three labels, whatever its path is,
-- parses and has this host.
pub record IsParser (parse : Text → Option Url) : Type 0 where
  pub hosts :
      (a b c path : Text)
      → is_label a ≡ true
      → is_label b ≡ true
      → is_label c ≡ true
      → (u : Url) × (parse (
            codes "https://"
            ++ (a ++ (codes "." ++ (b ++ (codes "." ++ (c ++ (codes "/" ++ path)))))))
          ≡ some u)
        × (u.host ≡ some (a ++ (codes "." ++ (b ++ (codes "." ++ c)))))

base_or : Result BuildError ZohoClient → Text
base_or (err e) = []
base_or (ok client) = client.api_base

-- the base of a client that was built
built_base :
    (api_builds download_builds : Bool) (creds : ZohoCredentials) (connector_id root_id : Text)
    (client : ZohoClient)
    → new_zoho api_builds download_builds creds connector_id root_id ≡ ok client
    → client.api_base ≡ codes "https://workdrive.zoho.eu/api/v1"
unfolding new_zoho base_or
built_base api_builds download_builds creds connector_id root_id client h =
    elim (Bool-cases (bytes_eq creds.dc (codes "eu"))) [
      | inr n ↦ absurd (cc (rw n at h))
      | inl y ↦ elim (Bool-cases (api_builds && download_builds)) [
        | inr n ↦ absurd (cc (rw (y, n) at h))
        | inl b ↦
            ap base_or (sym (rw (y, b) at h))
            ∙ ap (λ dc. codes "https://workdrive.zoho." ++ (dc ++ codes "/api/v1"))
                (eq_of_bytes_eq creds.dc (codes "eu") y)
      ]
    ]

-- the path of a download, behind the host
path : ChangeItem → Text
path item = codes "api/v1/files/" ++ (codes item.remote_id ++ codes "/download")

url_split :
    (client : ZohoClient) (item : ChangeItem)
    → client.api_base ≡ codes "https://workdrive.zoho.eu/api/v1"
    → download_url client item ≡ codes "https://workdrive.zoho.eu/" ++ path item
unfolding download_url path
url_split client item e = rw e refl

All-IsGuarded :
    (n : ℕ) (u : Url) (rs : List Request)
    → is_trusted_zoho_host (host_str u) ≡ true
    → IsCareful n u rs
    → All IsGuarded rs × (length rs ≤ n)
All-IsGuarded n u [] t h = (tt, omega arith)
All-IsGuarded n u (r ∷ rs) t (e, g, l) =
    ((inr (ap (λ v. is_trusted_zoho_host (host_str v)) e ∙ t), g), l)

module _ (parse : Text → Option Url) (is_parser : IsParser parse) (send : Request → Reply)
    (refresh : ℕ → Outcome Bytes) where
  -- A client that `new` returned sends its token to trusted hosts only, in each download, whatever the
  -- identifier of the file is and whatever the hosts answer, and it makes five requests at most.
  pub download-IsGuarded :
      (api_builds download_builds : Bool) (creds : ZohoCredentials) (connector_id root_id : Text)
      (client : ZohoClient) (item : ChangeItem)
      → new_zoho api_builds download_builds creds connector_id root_id ≡ ok client
      → All IsGuarded (download parse send refresh client item).0
        × (length (download parse send refresh client item).0 ≤ 5)
  unfolding download download_from is_trusted_zoho_host
  download-IsGuarded api_builds download_builds creds connector_id root_id client item h =
      let (u, parsed, host) =
        is_parser.hosts (codes "workdrive") (codes "zoho") (codes "eu") (path item) refl refl
          refl in
      let base = built_base api_builds download_builds creds connector_id root_id client h in
      let trusted : is_trusted_zoho_host (host_str u) ≡ true = rw host refl in
      rw (url_split client item base, parsed)
        (All-IsGuarded 5 u (download_with_trusted_auth send refresh u).0 trusted
          (download-IsCareful send refresh u))
