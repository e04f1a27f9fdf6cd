-- ===== src/Crypto.antt =====
-- crypto.rs of ingestion/src and of tools/key-rotation/src, which agree on `parse_key` and `encrypt`. The
-- cipher of ring, its random bytes and the decoder of hexadecimal text are parameters; `none` is an error.
pub mod Laws
pub mod Tests
use mcp_data_gateway.Prelude.{
  ℕ, ◌+◌, ◌≡◌, List, ◌++◌, Option, none, some, ltb, ◌==◌, if◌then◌else◌, length, take, drop,
}
use mcp_data_gateway.Prelude.Bytes.{Bytes}
use mcp_data_gateway.Prelude.Text.{Text, trim}

abbrev pub iv_len : ℕ
iv_len = 12

-- AES-256-GCM under a key and an IV: sealing with the tag behind the text, and opening.
pub record Aead : Type 0 where
  pub seal : Bytes → Bytes → Bytes → Option Bytes
  pub open_sealed : Bytes → Bytes → Bytes → Option Bytes

-- What the crate documents: what was sealed opens, and is 16 bytes longer than the text.
pub record IsAead (aead : Aead) : Type 0 where
  pub opens :
      (key iv plain sealed : Bytes)
      → aead.seal key iv plain ≡ some sealed
      → aead.open_sealed key iv sealed ≡ some plain
  pub tagged :
      (key iv plain sealed : Bytes)
      → aead.seal key iv plain ≡ some sealed
      → length sealed ≡ length plain + 16

-- `try_into` of an array of 32 bytes
unfoldable pub sized_key : Option Bytes → Option Bytes
sized_key none = none
sized_key (some bytes) = if length bytes == 32 then some bytes else none

unfoldable pub parse_key : (Text → Option Bytes) → Text → Option Bytes
unfolding sized_key
parse_key decode hex_str = sized_key (decode (trim hex_str))

-- `iv` is what the random number generator fills in, `none` if it fails.
unfoldable pub encrypt : Aead → Option Bytes → Bytes → Bytes → Option Bytes
encrypt aead none key plaintext = none
encrypt aead (some iv) key plaintext = elim (aead.seal key iv plaintext) [
  | none ↦ none
  | some buf ↦ some (iv ++ buf)
]

unfoldable pub decrypt : Aead → Bytes → Bytes → Option Bytes
decrypt aead key wire =
    if ltb (length wire) (iv_len + 16)
    then none
    else aead.open_sealed key (take iv_len wire) (drop iv_len wire)
