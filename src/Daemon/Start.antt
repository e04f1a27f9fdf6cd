-- ===== src/Daemon/Start.antt =====
-- What the daemon has checked before its loop begins.
use mcp_data_gateway.Prelude.{
  ◌≡◌, ◌⊎◌, refl, ap, sym, subst, ◌∙◌, Bool, true, ◌&&◌, inl, inr, List, [], ◌∷◌, ◌++◌, Option,
  none, some, Bool-cases, length,
}
use mcp_data_gateway.Prelude.Bytes.{Bytes, bytes_eq, eq_of_bytes_eq}
use mcp_data_gateway.Prelude.Text.{Text, codes}
use mcp_data_gateway.Prelude.Result.{Result, ok, err, ok_same, both_ok, Result-cases}
use mcp_data_gateway.Connector.Zoho.Client.{ZohoCredentials, ZohoClient, new_cache, new_zoho}
use mcp_data_gateway.Ingest.Cipher.{KeyError, parse_key}
use mcp_data_gateway.Ingest.Cipher.Laws.{parse_key-length}
use mcp_data_gateway.Daemon.{
  Args, Vars, ok_or, zoho_from, some_client, none_set, build_zoho_connector, Connector, drive_of,
  zoho, zoho_connectors, Started, is_classification, with_key, start,
}

-- The credentials are those of the environment, and the service is the European one.
pub record IsEuropean (vars : Vars) (client : ZohoClient) : Type 0 where
  pub client_id : vars (codes "ZOHO_CLIENT_ID") ≡ some client.tokens.creds.client_id
  pub client_secret : vars (codes "ZOHO_CLIENT_SECRET") ≡ some client.tokens.creds.client_secret
  pub refresh_token : vars (codes "ZOHO_REFRESH_TOKEN") ≡ some client.tokens.creds.refresh_token
  pub root_id : vars (codes "ZOHO_ROOT_ID") ≡ some client.root_id
  pub accounts_base : client.tokens.accounts_base ≡ codes "https://accounts.zoho.eu"
  pub api_base : client.api_base ≡ codes "https://workdrive.zoho.eu/api/v1"

abbrev client_of : ZohoCredentials → Text → Text → ZohoClient
client_of creds id root = record {
  id = id;
  tokens = new_cache creds;
  api_base = codes "https://workdrive.zoho." ++ (creds.dc ++ codes "/api/v1");
  root_id = root;
}

new_zoho-parts :
    (a d : Bool) (creds : ZohoCredentials) (id root : Text) (client : ZohoClient)
    → new_zoho a d creds id root ≡ ok client
    → (creds.dc ≡ codes "eu") × (client_of creds id root ≡ client)
unfolding new_zoho
new_zoho-parts a d creds id root client h = elim (Bool-cases (bytes_eq creds.dc (codes "eu"))) [
  | inr f ↦ cc (rw f at h)
  | inl e ↦ elim (Bool-cases (a && d)) [
    | inr g ↦ cc (rw (e, g) at h)
    | inl b ↦ (eq_of_bytes_eq creds.dc (codes "eu") e, ok_same _ client refl (rw (e, b) at h))
  ]
]

ok_or-some {ℓ} : {E A : Type ℓ} (e : E) (o : Option A) (a : A) → ok_or e o ≡ ok a → o ≡ some a
unfolding ok_or
ok_or-some e none a h = cc
ok_or-some e (some b) a h = ap some (ok_same b a refl h)

zoho_from-IsEuropean :
    (a d : Bool) (vars : Vars) (client : ZohoClient)
    → zoho_from a d vars ≡ ok client
    → IsEuropean vars client
unfolding zoho_from
zoho_from-IsEuropean a d vars client h =
    let (id, i, h₁) = both_ok (ok_or _ (vars (codes "ZOHO_CLIENT_ID"))) _ h in
    let (secret, s, h₂) = both_ok (ok_or _ (vars (codes "ZOHO_CLIENT_SECRET"))) _ h₁ in
    let (token, t, h₃) = both_ok (ok_or _ (vars (codes "ZOHO_REFRESH_TOKEN"))) _ h₂ in
    let (root, r, h₄) = both_ok (ok_or _ (vars (codes "ZOHO_ROOT_ID"))) _ h₃ in
    let (eu, same) = new_zoho-parts a d _ _ _ client h₄ in
    record {
      client_id = ok_or-some _ _ id i ∙ ap (λ c. some c.tokens.creds.client_id) same;
      client_secret = ok_or-some _ _ secret s ∙ ap (λ c. some c.tokens.creds.client_secret) same;
      refresh_token = ok_or-some _ _ token t ∙ ap (λ c. some c.tokens.creds.refresh_token) same;
      root_id = ok_or-some _ _ root r ∙ ap (λ c. some c.root_id) same;
      accounts_base =
          ap (λ c. c.tokens.accounts_base) (sym same)
          ∙ ap (λ dc. codes "https://accounts.zoho." ++ dc) eu;
      api_base =
          ap (λ c. c.api_base) (sym same)
          ∙ ap (λ dc. codes "https://workdrive.zoho." ++ (dc ++ codes "/api/v1")) eu;
    }

-- The connectors of the loop: that of the drive, and that of Zoho or not.
abbrev pub AreConnectors : Vars → Args → List Connector → Type 0
AreConnectors vars args connectors =
    let drive = drive_of args in
    (connectors ≡ drive ∷ [])
    ⊎ ((client : ZohoClient) × (connectors ≡ drive ∷ zoho client ∷ []) × IsEuropean vars client)

abbrev pub IsClassification : Text → Type 0
IsClassification c = (c ≡ codes "PUBLIC") ⊎ ((c ≡ codes "INTERNAL") ⊎ (c ≡ codes "CONFIDENTIAL"))

classified : (c : Text) → is_classification c ≡ true → IsClassification c
unfolding is_classification
classified c h = elim (Bool-cases (bytes_eq c (codes "PUBLIC"))) [
  | inl e ↦ inl (eq_of_bytes_eq c (codes "PUBLIC") e)
  | inr f ↦ elim (Bool-cases (bytes_eq c (codes "INTERNAL"))) [
    | inl e ↦ inr (inl (eq_of_bytes_eq c (codes "INTERNAL") e))
    | inr g ↦ inr (inr (eq_of_bytes_eq c (codes "CONFIDENTIAL") (rw (f, g) at h)))
  ]
]

built_connectors :
    (a d : Bool) (vars : Vars) (args : Args)
    → AreConnectors vars args (drive_of args ∷ zoho_connectors (build_zoho_connector a d vars))
unfolding build_zoho_connector zoho_connectors some_client
built_connectors a d vars args = elim (Bool-cases (none_set vars)) [
  | inl e ↦ rw e (inl refl)
  | inr f ↦ elim (Result-cases (zoho_from a d vars)) [
    | inl (client, h) ↦ rw (f, h) (inr (client, refl, zoho_from-IsEuropean a d vars client h))
    | inr (e, h) ↦ rw (f, h) (inl refl)
  ]
]

with_key-parts :
    (connects : Bool) (zohos : List Connector) (args : Args) (key : Result KeyError Bytes)
    (s : Started)
    → with_key connects zohos args key ≡ ok s
    → (key ≡ ok s.content_key)
      × (is_classification args.classification ≡ true)
      × (drive_of args ∷ zohos ≡ s.connectors)
unfolding with_key
with_key-parts connects zohos args (err e) s h = cc
with_key-parts connects zohos args (ok key) s h =
    elim (Bool-cases (is_classification args.classification)) [
      | inr f ↦ cc (rw f at h)
      | inl e ↦ elim (Bool-cases connects) [
        | inr g ↦ cc (rw (e, g) at h)
        | inl b ↦
            let same = ok_same _ s refl (rw (e, b) at h) in
            (ap (λ t. ok t.content_key) same, e, ap (λ t. t.connectors) same)
      ]
    ]

-- Where the daemon starts, its key has 32 bytes and the classification is one of the three; it polls the
-- drive, and besides at most one Zoho client, whose credentials are the four set in the environment and
-- whose addresses are those of the European data centre.
pub start-checked :
    (decode : Text → Option Bytes) (connects a d : Bool) (vars : Vars) (args : Args) (s : Started)
    → start decode connects a d vars args ≡ ok s
    → (length s.content_key ≡ 32)
      × IsClassification args.classification
      × AreConnectors vars args s.connectors
unfolding start
start-checked decode connects a d vars args s h =
    let (k, c, same) =
      with_key-parts connects (zoho_connectors (build_zoho_connector a d vars)) args
        (parse_key decode args.content_key) s h in
    (
      parse_key-length decode args.content_key s.content_key k,
      classified args.classification c,
      subst (AreConnectors vars args) same (built_connectors a d vars args),
    )
