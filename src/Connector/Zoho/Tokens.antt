-- ===== src/Connector/Zoho/Tokens.antt =====
-- `ZohoTokenCache` of zoho.rs: the token cache with its refresh behind a lock. Times are in seconds. The
-- answer of the OAuth service is a parameter.
pub mod Flight
mod Tests
use mcp_data_gateway.Prelude.{
  ℕ, zero, suc, ◌+◌, ◌-◌, ◌≤◌, ◌<◌, String, Bool, true, false, not, ◌&&◌, List, [], ◌∷◌, Option,
  none, some, if◌then◌else◌, ltb, leb,
}
use mcp_data_gateway.Prelude.Bytes.{Bytes}
use mcp_data_gateway.Prelude.Result.{Result, ok, err}
use mcp_data_gateway.Connector.{ConnectorError, Outcome, auth, other, unexpected}
use mcp_data_gateway.Connector.Zoho.{access_token_ttl_safety_secs, classify_oauth_error}

pub record CachedToken : Type 0 where
  pub access_token : Bytes
  pub expires_at : ℕ

-- the body of the answer, decoded
pub record TokenResponse : Type 0 where
  pub access_token : Option Bytes
  pub expires_in : Option ℕ
  pub error : Option String

-- what comes back: nothing, a body that does not decode, or a status and a body
pub data OauthReply : Type 0 where
  no_response undecodable : OauthReply
  response : ℕ → TokenResponse → OauthReply

-- the lifetime that the answer gives, an hour if it gives none
abbrev pub lifetime : Option ℕ → ℕ
lifetime none = 3600
lifetime (some secs) = secs

-- the token of an answer without an error, at the time `now`
token_of : Option Bytes → Option ℕ → ℕ → Outcome CachedToken
token_of none expires_in now = err other
token_of (some token) expires_in now = ok (record {
  access_token = token;
  expires_at = now + (lifetime expires_in - access_token_ttl_safety_secs);
})

-- The error field is looked at first, then the status.
classify : ℕ → TokenResponse → Option String → ℕ → Outcome CachedToken
unfolding token_of
classify status body (some code) now = err (auth (classify_oauth_error code))
classify status body none now =
    if not (leb 200 status && ltb status 300)
    then err (auth unexpected)
    else token_of body.access_token body.expires_in now

unfoldable pub call_oauth_refresh : OauthReply → ℕ → Outcome CachedToken
unfolding classify
call_oauth_refresh no_response now = err other
call_oauth_refresh undecodable now = err (auth unexpected)
call_oauth_refresh (response status body) now = classify status body body.error now

-- The test of the cache, on the fast path and again under the lock: the token, if it is fresh.
unfoldable pub fresh : Option CachedToken → ℕ → Option Bytes
fresh none now = none
fresh (some t) now =
    if ltb (now + access_token_ttl_safety_secs) t.expires_at then some t.access_token else none

-- What a task does: the token or the error, the cache behind it, and whether it asked the service.
pub record Served : Type 0 where
  pub outcome : Outcome Bytes
  pub cached : Option CachedToken
  pub asked : Bool

refreshed : Outcome CachedToken → Option CachedToken → Served
refreshed (ok t) cached = record { outcome = ok t.access_token; cached = some t; asked = true }
refreshed (err e) cached = record { outcome = err e; cached = cached; asked = true }

-- the section under the lock: the second test, the refresh, and the store
pub under_lock : OauthReply → ℕ → Option CachedToken → Served
unfolding refreshed
under_lock reply now cached = elim (fresh cached now) [
  | some token ↦ record { outcome = ok token; cached = cached; asked = false }
  | none ↦ refreshed (call_oauth_refresh reply now) cached
]

-- `refresh_if_needed`: the cache may have changed while the task waited for the lock, and the time.
pub refresh_if_needed : OauthReply → ℕ → Option CachedToken → ℕ → Option CachedToken → Served
refresh_if_needed reply now cached later cached_later = elim (fresh cached now) [
  | some token ↦ record { outcome = ok token; cached = cached_later; asked = false }
  | none ↦ under_lock reply later cached_later
]

-- Tasks that take the lock one behind the other, each with its time and the answer that it would get.
pub take_turns : List (ℕ × OauthReply) → Option CachedToken → List Served
take_turns [] cached = []
take_turns ((now, reply) ∷ tasks) cached =
    let s = under_lock reply now cached in s ∷ take_turns tasks s.cached
