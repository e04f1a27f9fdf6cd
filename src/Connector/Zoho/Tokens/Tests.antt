-- ===== src/Connector/Zoho/Tokens/Tests.antt =====
-- Two tasks at an empty cache, and the theorem at them.
use mcp_data_gateway.Prelude.{
  ℕ, ◌+◌, ◌-◌, ◌≡◌, ◌<◌, ◌⊎◌, refl, true, false, List, [], ◌∷◌, none, some, arith, All,
}
use mcp_data_gateway.Prelude.Text.{codes}
use mcp_data_gateway.Prelude.Result.{ok, err}
use mcp_data_gateway.Connector.{ConnectorError}
use mcp_data_gateway.Connector.Zoho.Tokens.{
  CachedToken, OauthReply, response, no_response, Served, call_oauth_refresh, fresh, take_turns,
  refresh_if_needed,
}
use mcp_data_gateway.Connector.Zoho.Tokens.Flight.{granted, take_turns_once, refresh_if_needed_lem}

abbrev tasks : List (ℕ × OauthReply)
tasks = (11, no_response) ∷ (3000, response 200 (granted (codes "b") 3600)) ∷ []

take_turns_once_example :
    (rest : List Served) × (take_turns ((10, response 200 (granted (codes "a") 3600)) ∷ tasks) none
      ≡ record {
        outcome = ok (codes "a");
        cached = some (record { access_token = codes "a"; expires_at = 10 + (3600 - 300) });
        asked = true;
      }
        ∷ rest)
    × All (λ s. (s.outcome ≡ ok (codes "a")) × (s.asked ≡ false)) rest
unfolding fresh
take_turns_once_example =
    take_turns_once 10 (codes "a") 3600 tasks none refl (omega arith, (omega arith, tt))

refresh_if_needed_lem_example :
    let s = refresh_if_needed no_response 5 none 6 none in
    ((t : CachedToken) × (((none ≡ some t) × (5 + 300 < t.expires_at))
        ⊎ ((none ≡ some t) × (6 + 300 < t.expires_at)))
      × (s ≡ record { outcome = ok t.access_token; cached = none; asked = false }))
    ⊎ (((t : CachedToken) × (call_oauth_refresh no_response 6 ≡ ok t)
          × (s ≡ record { outcome = ok t.access_token; cached = some t; asked = true }))
        ⊎ ((e : ConnectorError) × (call_oauth_refresh no_response 6 ≡ err e)
            × (s ≡ record { outcome = err e; cached = none; asked = true })))
refresh_if_needed_lem_example = refresh_if_needed_lem no_response 5 none 6 none
