-- ===== src/Ingest/Cipher/Tests.antt =====
-- A decoder that takes a text for its own bytes, and the cipher that tags.
use mcp_data_gateway.Prelude.{◌≡◌, refl, [], ◌∷◌, ◌++◌, Option, none, some}
use mcp_data_gateway.Prelude.Bytes.{Bytes, utf8}
use mcp_data_gateway.Prelude.Text.{Text, codes, trim}
use mcp_data_gateway.Prelude.Result.{err}
use mcp_data_gateway.Crypto.Tests.{toy, zero_iv, fifteen}
use mcp_data_gateway.Ingest.Cipher.{
  wrong_length, parse_key, encrypt, new_one_shot, advance, sized_key, seal_in_place,
}

abbrev as_is : Text → Option Bytes
as_is s = some s

short_key : parse_key as_is (codes " 0123 ") ≡ err (wrong_length 3)
unfolding parse_key sized_key trim utf8
short_key = refl

sealed_wire :
    encrypt toy (some zero_iv) (7 ∷ []) (codes "hi")
    ≡ some (zero_iv ++ (7 ∷ (fifteen ++ codes "hi")))
unfolding encrypt seal_in_place advance
sealed_wire = refl

spent : (advance (advance (new_one_shot zero_iv)).1).0 ≡ none
unfolding advance
spent = refl
