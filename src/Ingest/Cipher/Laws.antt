-- ===== src/Ingest/Cipher/Laws.antt =====
-- The daemon and the key rotation read the same keys and write the same bytes.
use mcp_data_gateway.Prelude.{
  ◌≡◌, refl, ap, sym, ◌∙◌, inl, inr, Option, none, some, ◌==◌, ==_iff, length, Bool-cases,
}
use mcp_data_gateway.Prelude.Bytes.{Bytes}
use mcp_data_gateway.Prelude.Text.{Text, trim}
use mcp_data_gateway.Prelude.Result.{Result, ok, err, ok_same}
use mcp_data_gateway.Crypto.{
  Aead, IsAead, iv_len, decrypt, sized_key as rotation_sized, parse_key as rotation_key,
  encrypt as rotation_encrypt,
}
use mcp_data_gateway.Crypto.Laws.{decrypt-encrypt}
use mcp_data_gateway.Ingest.Cipher.{KeyError, sized_key, parse_key, advance, seal_in_place, encrypt}

abbrev pub ok_of : Result KeyError Bytes → Option Bytes
ok_of (ok key) = some key
ok_of (err e) = none

pub encrypt_same :
    (aead : Aead) (draw : Option Bytes) (key plaintext : Bytes)
    → encrypt aead draw key plaintext ≡ rotation_encrypt aead draw key plaintext
unfolding encrypt seal_in_place advance rotation_encrypt
encrypt_same aead none key plaintext = refl
encrypt_same aead (some iv) key plaintext = refl

sized_same : (hex_str : Text) (o : Option Bytes) → ok_of (sized_key hex_str o) ≡ rotation_sized o
unfolding sized_key rotation_sized
sized_same hex_str none = refl
sized_same hex_str (some bytes) = elim (Bool-cases (length bytes == 32)) [
  | inl e ↦ rw e refl
  | inr f ↦ rw f refl
]

-- The daemon and the key rotation take the same texts for the same keys, and with the same random bytes
-- they encrypt to the same bytes, or both fail.
pub programs_agree :
    (decode : Text → Option Bytes) (hex_str : Text) (aead : Aead) (draw : Option Bytes)
    (key plaintext : Bytes)
    → (ok_of (parse_key decode hex_str) ≡ rotation_key decode hex_str)
      × (encrypt aead draw key plaintext ≡ rotation_encrypt aead draw key plaintext)
unfolding parse_key rotation_key
programs_agree decode hex_str aead draw key plaintext =
    (sized_same hex_str (decode (trim hex_str)), encrypt_same aead draw key plaintext)

-- What the daemon encrypts, the key rotation decrypts.
pub decrypt-encrypt_same :
    (aead : Aead) (iv key plaintext wire : Bytes)
    → IsAead aead
    → length iv ≡ iv_len
    → encrypt aead (some iv) key plaintext ≡ some wire
    → decrypt aead key wire ≡ some plaintext
decrypt-encrypt_same aead iv key plaintext wire a l e =
    (decrypt-encrypt aead iv key plaintext wire a l
      (sym (encrypt_same aead (some iv) key plaintext) ∙ e)).0

sized_key-length :
    (hex_str : Text) (o : Option Bytes) (key : Bytes)
    → sized_key hex_str o ≡ ok key
    → length key ≡ 32
unfolding sized_key
sized_key-length hex_str none key h = cc
sized_key-length hex_str (some bytes) key h = elim (Bool-cases (length bytes == 32)) [
  | inl e ↦ ap length (ok_same key bytes h (rw e refl)) ∙ (==_iff (length bytes) 32).0 e
  | inr f ↦ cc (rw f at h)
]

-- A key has 32 bytes.
pub parse_key-length :
    (decode : Text → Option Bytes) (hex_str : Text) (key : Bytes)
    → parse_key decode hex_str ≡ ok key
    → length key ≡ 32
unfolding parse_key
parse_key-length decode hex_str key h = sized_key-length hex_str (decode (trim hex_str)) key h
