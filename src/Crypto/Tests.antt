-- ===== src/Crypto/Tests.antt =====
-- A cipher that tags the text with the first byte of the key, and the wire format at it.
use mcp_data_gateway.Prelude.{
  ℕ, refl, [], ◌∷◌, ◌++◌, Option, none, some, arith, ◌==◌, ==-of_eq, if◌then◌else◌, length, drop,
  some-injective, ap, sym, ◌∙◌,
}
use mcp_data_gateway.Prelude.Bytes.{Bytes}
use mcp_data_gateway.Prelude.Text.{codes}
use mcp_data_gateway.Crypto.{Aead, IsAead}

abbrev pub first : Bytes → ℕ
first [] = 0
first (b ∷ s) = b

abbrev pub fifteen : Bytes
fifteen = 0 ∷ 0 ∷ 0 ∷ 0 ∷ 0 ∷ 0 ∷ 0 ∷ 0 ∷ 0 ∷ 0 ∷ 0 ∷ 0 ∷ 0 ∷ 0 ∷ 0 ∷ []

abbrev open_tagged : Bytes → Bytes → Option Bytes
open_tagged key [] = none
open_tagged key (t ∷ sealed) = if t == first key then some (drop 15 sealed) else none

abbrev pub toy : Aead
toy = record {
  seal = λ key iv plain. some (first key ∷ (fifteen ++ plain));
  open_sealed = λ key iv sealed. open_tagged key sealed;
}

pub toy-IsAead : IsAead toy
toy-IsAead = record {
  opens = λ key iv plain sealed e.
      ap (open_tagged key) (sym (some-injective _ _ e))
      ∙ rw (==-of_eq (first key) (first key) refl) refl;
  tagged = λ key iv plain sealed e. ap length (sym (some-injective _ _ e)) ∙ omega arith;
}

abbrev pub zero_iv : Bytes
zero_iv = 0 ∷ 0 ∷ 0 ∷ 0 ∷ 0 ∷ 0 ∷ 0 ∷ 0 ∷ 0 ∷ 0 ∷ 0 ∷ 0 ∷ []

abbrev wire : Bytes
wire = zero_iv ++ (7 ∷ (fifteen ++ codes "hello"))
