-- ===== src/Sanitize/Vault/Unique.antt =====
-- A value of pii_token_map that is found has its token stored.
use mcp_data_gateway.Prelude.{
  ◌≡◌, refl, ap, sym, ◌∙◌, true, inl, inr, List, [], ◌∷◌, some, some-injective, Bool-cases,
}
use mcp_data_gateway.Prelude.Bytes.{bytes_eq, bytes_eq_refl}
use mcp_data_gateway.Prelude.Text.{Text}
use mcp_data_gateway.Sanitize.Vault.{RowKey, TokenRow, key_eq, lookup_existing, has_token}

pub has_token_of_lookup :
    (rows : List TokenRow) (k : RowKey) (t : Text)
    → lookup_existing rows k ≡ some t
    → has_token rows t ≡ true
unfolding lookup_existing has_token
has_token_of_lookup [] k t h = cc
has_token_of_lookup (r ∷ rows) k t h = elim (Bool-cases (key_eq r.key k)) [
  | inl e ↦
      rw (ap (bytes_eq r.token) (sym (some-injective _ _ (rw e at h))) ∙ bytes_eq_refl r.token) refl
  | inr f ↦ elim (Bool-cases (bytes_eq r.token t)) [
    | inl b ↦ rw b refl
    | inr b ↦ rw b (has_token_of_lookup rows k t (rw f at h))
  ]
]
