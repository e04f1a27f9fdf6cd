-- ===== src/Sanitize/Vault/Live/Seen.antt =====
-- What the abstract vault has answered, it answers from then on.
use mcp_data_gateway.Prelude.{
  ◌+◌, ◌≡◌, refl, ap₂, ◌&&◌, inl, inr, List, ◌∷◌, some, Bool-cases, Option-cases, if◌then◌else◌,
}
use mcp_data_gateway.Prelude.Bytes.{Bytes, bytes_eq, and_true, eq_of_bytes_eq, bytes_eq_refl}
use mcp_data_gateway.Prelude.Text.{Text}
use mcp_data_gateway.Sanitize.Vault.{new_token}
use mcp_data_gateway.Sanitize.Vault.Ranks.{Seen, count, token_of, ask}
use mcp_data_gateway.Sanitize.Vault.Refines.{ask-some, ask-none}

-- A value that was seen keeps its token.
abbrev pub Extends : List Seen → List Seen → Type 0
Extends seen later =
    (kind : Text) (hash : Bytes) (t : Text)
    → token_of seen kind hash ≡ some t
    → token_of later kind hash ≡ some t

token_of_first :
    (kind l : Text) (hash g : Bytes) (seen : List Seen)
    → token_of ((kind, hash) ∷ seen) l g ≡ (
        if bytes_eq kind l && bytes_eq hash g
        then some (new_token kind (count kind seen + 1))
        else token_of seen l g)
unfolding token_of
token_of_first kind l hash g seen = refl

-- The answer of the abstract vault is the token of the value from then on.
pub ask-token :
    (seen : List Seen) (kind : Text) (hash : Bytes)
    → token_of (ask seen kind hash).1 kind hash ≡ some (ask seen kind hash).0
ask-token seen kind hash = elim (Option-cases (token_of seen kind hash)) [
  | inr (t, e) ↦ rw (ask-some seen kind hash t e) e
  | inl e ↦
      rw
        (
          ask-none seen kind hash e,
          token_of_first kind kind hash hash seen,
          bytes_eq_refl kind,
          bytes_eq_refl hash,
        )
        refl
]

pub ask-Extends :
    (seen : List Seen) (kind : Text) (hash : Bytes) → Extends seen (ask seen kind hash).1
ask-Extends seen kind hash l g t h = elim (Option-cases (token_of seen kind hash)) [
  | inr (u, e) ↦ rw (ask-some seen kind hash u e) h
  | inl e ↦ elim (Bool-cases (bytes_eq kind l && bytes_eq hash g)) [
    | inr f ↦ rw (ask-none seen kind hash e, token_of_first kind l hash g seen, f) h
    | inl b ↦
        let (p, q) = and_true (bytes_eq kind l) (bytes_eq hash g) b in
        let same = ap₂ (token_of seen) (eq_of_bytes_eq kind l p) (eq_of_bytes_eq hash g q) in
        cc (same, e, h)
  ]
]
