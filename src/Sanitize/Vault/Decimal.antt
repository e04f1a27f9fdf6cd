-- ===== src/Sanitize/Vault/Decimal.antt =====
-- The text of a token tells its kind and its number.
use mathlib.Core.List.{append_cancel_left}
use mcp_data_gateway.Prelude.{
  ℕ, suc, ◌≡◌, refl, ap, sym, ◌∙◌, true, not, [], ◌∷◌, ◌++◌, arith, ◌==◌, if◌then◌else◌, drop,
}
use mcp_data_gateway.Prelude.Bytes.{all, digits_value}
use mcp_data_gateway.Prelude.Text.{Text, codes}
use mcp_data_gateway.Sanitize.{
  EntityKind, nir, iban, phone, email, uuid, person, org, loc, as_label,
}
use mcp_data_gateway.Sanitize.Vault.{new_token}
use mcp_data_gateway.Prelude.Decimal.{decimal, digits_value-decimal}

decimal-injective : (m n : ℕ) → decimal m ≡ decimal n → m ≡ n
decimal-injective m n e =
    sym (digits_value-decimal (suc m) m (omega arith))
    ∙ ap (digits_value 0) e
    ∙ digits_value-decimal (suc n) n (omega arith)

-- The labels have no underscore.
abbrev pub IsLabel : Text → Type 0
IsLabel kind = all (λ c. not (c == b'_')) kind ≡ true

pub as_label-IsLabel : (kind : EntityKind) → IsLabel (as_label kind)
unfolding as_label
as_label-IsLabel nir = refl
as_label-IsLabel iban = refl
as_label-IsLabel phone = refl
as_label-IsLabel email = refl
as_label-IsLabel uuid = refl
as_label-IsLabel person = refl
as_label-IsLabel org = refl
as_label-IsLabel loc = refl

until_underscore : Text → Text
until_underscore [] = []
until_underscore (c ∷ s) = let rest = c ∷ until_underscore s in if c == b'_' then [] else rest

until_underscore-label :
    (kind rest : Text) → IsLabel kind → until_underscore (kind ++ (b'_' ∷ rest)) ≡ kind
unfolding until_underscore
until_underscore-label [] rest h = refl
until_underscore-label (c ∷ kind) rest h = ground (arith, until_underscore-label kind rest)

-- Two tokens of labels without underscores agree in the label and in the number.
pub new_token-injective :
    (k l : Text) (m n : ℕ)
    → IsLabel k
    → IsLabel l
    → new_token k m ≡ new_token l n
    → (k ≡ l) × (m ≡ n)
new_token-injective k l m n hk hl e =
    let e' = append_cancel_left (codes "PII_") _ _ e in
    let same : k ≡ l =
      sym (until_underscore-label k (decimal m) hk)
      ∙ ap until_underscore e'
      ∙ until_underscore-label l (decimal n) hl in
    (
      same,
      decimal-injective m n (
          ap (drop 1)
            (append_cancel_left k _ _ (e' ∙ ap (λ u. u ++ (b'_' ∷ decimal n)) (sym same)))),
    )
