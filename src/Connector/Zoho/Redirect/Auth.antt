-- ===== src/Connector/Zoho/Redirect/Auth.antt =====
-- Where the token goes in a download, and how many requests it makes.
use mcp_data_gateway.Prelude.{
  ℕ, zero, suc, ◌≤◌, ◌≡◌, ◌⊎◌, inl, inr, refl, ap, Bool, true, false, List, [], ◌∷◌, ◌++◌, Option,
  none, arith, length, All, Bool-cases, length-append, ◌==◌,
}
use mcp_data_gateway.Prelude.Text.{codes}
use mcp_data_gateway.Prelude.Bytes.{Bytes, bytes_eq, reverse_onto}
use mcp_data_gateway.Prelude.Result.{ok, err, Result-cases}
use mcp_data_gateway.Connector.{ConnectorError, Outcome}
use mcp_data_gateway.Connector.Zoho.Redirect.{
  Url, host_str, Request, Reply, Hop, done, follow, hop, hops, attach, sent, is_trusted_zoho_host,
  download_with_trusted_auth,
}

-- A request with a token goes to a trusted host.
abbrev pub IsGuarded : Request → Type 0
IsGuarded r = (r.token ≡ none) ⊎ (is_trusted_zoho_host (host_str r.url) ≡ true)

-- All requests but the first one are guarded, the first one goes to `u`, and they are `n` at most.
abbrev pub IsCareful : ℕ → Url → List Request → Type 0
IsCareful n u [] = Unit
IsCareful n u (r ∷ rs) = (r.url ≡ u) × All IsGuarded rs × (length (r ∷ rs) ≤ n)

Hop-cases : (h : Hop) → ((o : Outcome Bytes) × (h ≡ done o)) ⊎ ((u : Url) × (h ≡ follow u))
Hop-cases (done o) = inl (o, refl)
Hop-cases (follow u) = inr (u, refl)

module _ (send : Request → Reply) (refresh : ℕ → Outcome Bytes) where
  -- What the loop sends from `u` on.
  abbrev sends : ℕ → Url → Bool → List Request
  sends n u b = (hops send refresh n u b).0

  abbrev request : Url → Option Bytes → Request
  request u token = record { url = u; token = token }

  hops-err :
      (n : ℕ) (u : Url) (b : Bool) (e : ConnectorError)
      → attach send refresh b n ≡ err e
      → hops send refresh (suc n) u b ≡ ([], err e)
  unfolding hops
  hops-err n u b e a = rw (a, hops) refl

  hops-done :
      (n : ℕ) (u : Url) (b : Bool) (token : Option Bytes) (o : Outcome Bytes)
      → attach send refresh b n ≡ ok token
      → hop (send (request u token)) ≡ done o
      → hops send refresh (suc n) u b ≡ (request u token ∷ [], o)
  unfolding hops
  hops-done n u b token o a h = rw (a, hops, h) refl

  hops-follow :
      (n : ℕ) (u v : Url) (b : Bool) (token : Option Bytes)
      → attach send refresh b n ≡ ok token
      → hop (send (request u token)) ≡ follow v
      → hops send refresh (suc n) u b
        ≡ sent send refresh
            (request u token)
            (hops send refresh n v (is_trusted_zoho_host (host_str v)))
  unfolding hops
  hops-follow n u v b token a h = rw (a, hops, h) refl

  -- A round sends nothing, or one request, or one in front of those of the rounds behind it.
  round_cases :
      (n : ℕ) (u : Url) (b : Bool)
      → (sends (suc n) u b ≡ [])
        ⊎ ((token : Option Bytes) × (attach send refresh b n ≡ ok token)
            × ((sends (suc n) u b ≡ record { url = u; token = token } ∷ [])
                ⊎ ((v : Url) × (sends (suc n) u b
                      ≡ record { url = u; token = token }
                        ∷ sends n v (is_trusted_zoho_host (host_str v))))))
  unfolding sent
  round_cases n u b = elim (Result-cases (attach send refresh b n)) [
    | inr (e, a) ↦ inl (ap (λ p. p.0) (hops-err n u b e a))
    | inl (token, a) ↦ elim (Hop-cases (hop (send (request u token)))) [
      | inl (o, h) ↦ inr (token, a, inl (ap (λ p. p.0) (hops-done n u b token o a h)))
      | inr (v, h) ↦ inr (token, a, inr (v, ap (λ p. p.0) (hops-follow n u v b token a h)))
    ]
  ]

  no_token : (n : ℕ) (token : Option Bytes) → attach send refresh false n ≡ ok token → token ≡ none
  unfolding attach
  no_token n token e = cc

  hops-IsGuarded :
      (n : ℕ) (u : Url)
      → All IsGuarded (sends n u (is_trusted_zoho_host (host_str u)))
        × (length (sends n u (is_trusted_zoho_host (host_str u))) ≤ n)
  unfolding hops
  hops-IsGuarded zero u = (tt, omega arith)
  hops-IsGuarded (suc n) u =
      let b = is_trusted_zoho_host (host_str u) in
      let guarded : (token : Option Bytes)
          → attach send refresh b n ≡ ok token
          → IsGuarded (record { url = u; token = token }) =
        λ token e. elim (Bool-cases b) [
          | inl t ↦ inr t
          | inr f ↦ inl (no_token n token (rw f at e))
        ] in
      elim (round_cases n u b) [
        | inl e ↦ rw e (tt, omega arith)
        | inr (token, a, inl e) ↦ rw e ((guarded token a, tt), omega arith)
        | inr (token, a, inr (v, e)) ↦
            let (gs, l) = hops-IsGuarded n v in rw e ((guarded token a, gs), omega arith)
      ]

  -- A download sends at most five requests. The first goes to the URL asked for, and each other one
  -- that carries the token goes to a trusted host.
  pub download-IsCareful : (u : Url) → IsCareful 5 u (download_with_trusted_auth send refresh u).0
  unfolding download_with_trusted_auth
  download-IsCareful u = elim (round_cases 4 u true) [
    | inl e ↦ rw e tt
    | inr (token, a, inl e) ↦ rw e (refl, tt, omega arith)
    | inr (token, a, inr (v, e)) ↦ let (gs, l) = hops-IsGuarded 4 v in rw e (refl, gs, omega arith)
  ]

reverse_onto-append : (s t u : Bytes) → reverse_onto (s ++ t) u ≡ reverse_onto t (reverse_onto s u)
reverse_onto-append [] t u = refl
reverse_onto-append (b ∷ s) t u = reverse_onto-append s t (b ∷ u)

bytes_eq-length : (s t : Bytes) → bytes_eq s t ≡ true → length s ≡ length t
bytes_eq-length [] [] h = refl
bytes_eq-length [] (b ∷ t) h = cc
bytes_eq-length (a ∷ s) [] h = cc
bytes_eq-length (a ∷ s) (b ∷ t) h = elim (Bool-cases (a == b)) [
  | inl e ↦ omega (arith, bytes_eq-length s t (rw e at h))
  | inr e ↦ cc (rw e at h)
]

-- No host under the American `.zoho.com` is trusted, whatever stands in front of it.
pub is_trusted_zoho_host-us :
    (name : Bytes) → is_trusted_zoho_host (name ++ codes ".zoho.com") ≡ false
unfolding is_trusted_zoho_host
is_trusted_zoho_host-us name =
    rw (reverse_onto-append name (codes ".zoho.com") [])
      (elim (Bool-cases (bytes_eq (name ++ codes ".zoho.com") (codes "zoho.eu"))) [
        | inr f ↦ f
        | inl t ↦ absurd (
            omega (
              arith,
              bytes_eq-length (name ++ codes ".zoho.com") (codes "zoho.eu") t,
              length-append name (codes ".zoho.com"),
            ))
      ])
