-- ===== src/Connector/Zoho/Tokens/Flight.antt =====
-- The token cache: one refresh serves all the tasks behind it, and how long a token is used.
use mcp_data_gateway.Prelude.{
  ℕ, ◌+◌, ◌-◌, ◌<◌, ◌≡◌, refl, ◌∙◌, ◌⊎◌, inl, inr, true, false, List, [], ◌∷◌, Option, none, some,
  some-injective, arith, All, All_of_elem, All-elem, Bool-cases, Option-cases, ltb, lt→ltb, ltb→lt,
}
use mcp_data_gateway.Prelude.Bytes.{Bytes}
use mcp_data_gateway.Prelude.Result.{ok, err, Result-cases}
use mcp_data_gateway.Connector.{ConnectorError}
use mcp_data_gateway.Connector.Zoho.Tokens.{
  CachedToken, TokenResponse, OauthReply, response, Served, classify, token_of, call_oauth_refresh,
  fresh, refreshed, under_lock, refresh_if_needed, take_turns,
}

fresh-some :
    (t : CachedToken) (now : ℕ)
    → now + 300 < t.expires_at
    → fresh (some t) now ≡ some t.access_token
unfolding fresh
fresh-some t now l = rw (lt→ltb (now + 300) t.expires_at l) refl

fresh-inv :
    (cached : Option CachedToken) (now : ℕ) (token : Bytes)
    → fresh cached now ≡ some token
    → (t : CachedToken) × (cached ≡ some t) × (t.access_token ≡ token) × (now + 300 < t.expires_at)
unfolding fresh
fresh-inv none now token h = cc
fresh-inv (some t) now token h = elim (Bool-cases (ltb (now + 300) t.expires_at)) [
  | inl b ↦ (t, refl, some-injective _ _ (rw b at h), ltb→lt _ _ b)
  | inr b ↦ cc (rw b at h)
]

-- A task that finds a fresh token leaves the cache alone and asks nobody.
under_lock-fresh :
    (reply : OauthReply) (now : ℕ) (t : CachedToken)
    → now + 300 < t.expires_at
    → under_lock reply now (some t)
      ≡ record { outcome = ok t.access_token; cached = some t; asked = false }
unfolding under_lock
under_lock-fresh reply now t l = rw (fresh-some t now l, under_lock) refl

-- While a token has more than 300 seconds left, all the tasks that take the lock get it, and none of
-- them asks the service.
turns-fresh :
    (tasks : List (ℕ × OauthReply)) (t : CachedToken)
    → All (λ k. k.0 + 300 < t.expires_at) tasks
    → All (λ s. (s.outcome ≡ ok t.access_token) × (s.asked ≡ false)) (take_turns tasks (some t))
unfolding take_turns
turns-fresh [] t h = tt
turns-fresh ((now, reply) ∷ tasks) t (l, h) =
    rw (under_lock-fresh reply now t l) ((refl, refl), turns-fresh tasks t h)

-- A body with a token and no error, under a status of success.
abbrev pub granted : Bytes → ℕ → TokenResponse
granted token secs = record { access_token = some token; expires_in = some secs; error = none }

call_granted :
    (now : ℕ) (token : Bytes) (secs : ℕ)
    → call_oauth_refresh (response 200 (granted token secs)) now
      ≡ ok (record { access_token = token; expires_at = now + (secs - 300) })
unfolding call_oauth_refresh classify token_of
call_granted now token secs = refl

under_lock-asks :
    (reply : OauthReply) (now : ℕ) (cached : Option CachedToken)
    → fresh cached now ≡ none
    → under_lock reply now cached ≡ refreshed (call_oauth_refresh reply now) cached
unfolding under_lock
under_lock-asks reply now cached e = rw (e, under_lock) refl

room : (k now secs : ℕ) → k + 600 < now + secs → k + 300 < now + (secs - 300)
room k now secs l = omega arith

-- Single flight: where the first of several tasks finds no fresh token and is granted one for `secs`
-- seconds, the others, which take the lock up to 600 seconds before it ends, get the same token, and
-- none of them asks the service.
pub take_turns_once :
    (now : ℕ) (token : Bytes) (secs : ℕ) (tasks : List (ℕ × OauthReply))
    (cached : Option CachedToken)
    → fresh cached now ≡ none
    → All (λ k. k.0 + 600 < now + secs) tasks
    → (rest : List Served) × (take_turns ((now, response 200 (granted token secs)) ∷ tasks) cached
        ≡ record {
          outcome = ok token;
          cached = some (record { access_token = token; expires_at = now + (secs - 300) });
          asked = true;
        }
          ∷ rest)
      × All (λ s. (s.outcome ≡ ok token) × (s.asked ≡ false)) rest
unfolding take_turns refreshed
take_turns_once now token secs tasks cached e h =
    let t : CachedToken = record { access_token = token; expires_at = now + (secs - 300) } in
    (
      take_turns tasks (some t),
      rw
          (
            under_lock-asks (response 200 (granted token secs)) now cached e,
            call_granted now token secs,
          )
          refl,
      turns-fresh tasks t (All_of_elem _ tasks (λ k e. room k.0 now secs (All-elem _ k tasks h e))),
    )

-- The three ends of a task under the lock.
under_lock-cases :
    (reply : OauthReply) (now : ℕ) (cached : Option CachedToken)
    → ((t : CachedToken) × (cached ≡ some t)
        × (now + 300 < t.expires_at)
        × (under_lock reply now cached
            ≡ record { outcome = ok t.access_token; cached = cached; asked = false }))
      ⊎ (under_lock reply now cached ≡ refreshed (call_oauth_refresh reply now) cached)
unfolding under_lock
under_lock-cases reply now cached = elim (Option-cases (fresh cached now)) [
  | inl e ↦ inr (under_lock-asks reply now cached e)
  | inr (token, e) ↦
      let (t, c, a, l) = fresh-inv cached now token e in
      inl (t, c, l, rw (e, under_lock) (rw a refl))
]

-- What `refresh_if_needed` may return: a token of the cache that had more than 300 seconds left when it
-- was looked at, the cache unchanged; or the token of a refresh, which is now in the cache; or the
-- error of a refresh, the cache unchanged.
pub refresh_if_needed_lem :
    (reply : OauthReply) (now : ℕ) (cached : Option CachedToken) (later : ℕ)
    (cached_later : Option CachedToken)
    → let s = refresh_if_needed reply now cached later cached_later in
      ((t : CachedToken) × (((cached ≡ some t) × (now + 300 < t.expires_at))
          ⊎ ((cached_later ≡ some t) × (later + 300 < t.expires_at)))
        × (s ≡ record { outcome = ok t.access_token; cached = cached_later; asked = false }))
      ⊎ (((t : CachedToken) × (call_oauth_refresh reply later ≡ ok t)
            × (s ≡ record { outcome = ok t.access_token; cached = some t; asked = true }))
          ⊎ ((e : ConnectorError) × (call_oauth_refresh reply later ≡ err e)
              × (s ≡ record { outcome = err e; cached = cached_later; asked = true })))
unfolding refresh_if_needed refreshed
refresh_if_needed_lem reply now cached later cached_later = elim (Option-cases (fresh cached now)) [
  | inr (token, e) ↦
      let (t, c, a, l) = fresh-inv cached now token e in
      inl (t, inl (c, l), rw (e, refresh_if_needed) (rw a refl))
  | inl e ↦ elim (under_lock-cases reply later cached_later) [
    | inl (t, c, l, u) ↦ inl (t, inr (c, l), rw (e, refresh_if_needed) u)
    | inr u ↦ elim (Result-cases (call_oauth_refresh reply later)) [
      | inl (t, k) ↦ inr (inl (t, k, rw (e, refresh_if_needed) (u ∙ rw k refl)))
      | inr (er, k) ↦ inr (inr (er, k, rw (e, refresh_if_needed) (u ∙ rw k refl)))
    ]
  ]
]
