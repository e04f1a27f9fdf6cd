-- ===== src/Ingest/Cipher.antt =====
-- ingestion/src/crypto.rs, which is to agree with crypto.rs of the key rotation. The cipher of ring, its
-- random bytes and the decoder of hexadecimal text are parameters; sealing takes one nonce from its sequence.
pub mod Laws
mod Tests
use mcp_data_gateway.Prelude.{
  ℕ, ◌/◌, ◌≡◌, refl, Bool, true, false, List, ◌++◌, Option, none, some, if◌then◌else◌, ◌==◌, length,
}
use mcp_data_gateway.Prelude.Bytes.{Bytes, utf8}
use mcp_data_gateway.Prelude.Text.{Text, trim}
use mcp_data_gateway.Prelude.Result.{Result, ok, err}
use mcp_data_gateway.Crypto.{Aead}

pub data KeyError : Type 0 where
  not_hex : KeyError
  wrong_length : (got_bytes : ℕ) → KeyError

-- The message counts the bytes of the text as it was given.
unfoldable pub sized_key : Text → Option Bytes → Result KeyError Bytes
sized_key hex_str none = err not_hex
sized_key hex_str (some bytes) =
    if length bytes == 32 then ok bytes else err (wrong_length (length (utf8 hex_str) / 2))

unfoldable pub parse_key : (Text → Option Bytes) → Text → Result KeyError Bytes
unfolding sized_key
parse_key decode hex_str = sized_key hex_str (decode (trim hex_str))

pub record OneShot : Type 0 where
  pub used : Bool
  pub iv : Bytes

abbrev pub new_one_shot : Bytes → OneShot
new_one_shot iv = record { used = false; iv = iv }

-- a nonce the first time, an error from then on
unfoldable pub advance : OneShot → Option Bytes × OneShot
advance sequence =
    if sequence.used then (none, sequence) else (some sequence.iv, record sequence { used = true })

-- `seal_in_place_append_tag`
unfoldable pub seal_in_place : Aead → Bytes → OneShot → Bytes → Option Bytes × OneShot
unfolding advance
seal_in_place aead key sequence plain =
    let (nonce, spent) = advance sequence in
    (elim nonce [ none ↦ none | some iv ↦ aead.seal key iv plain ], spent)

unfoldable pub encrypt : Aead → Option Bytes → Bytes → Bytes → Option Bytes
unfolding seal_in_place
encrypt aead none key plaintext = none
encrypt aead (some iv) key plaintext = elim (seal_in_place aead key (new_one_shot iv) plaintext).0 [
  | none ↦ none
  | some buf ↦ some (iv ++ buf)
]
