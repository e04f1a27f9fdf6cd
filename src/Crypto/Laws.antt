-- ===== src/Crypto/Laws.antt =====
-- The wire format of `encrypt` and `decrypt`.
use mcp_data_gateway.Prelude.{
  ℕ, ◌+◌, ◌≡◌, refl, ap, sym, ◌∙◌, [], ◌∷◌, ◌++◌, none, some, some-injective, arith, length,
  length-append, take, drop, zero, suc, ltb, ltb→lt, lt→ltb, ◌≤◌, ◌<◌, inl, inr, Bool-cases,
  Option-cases,
}
use mcp_data_gateway.Prelude.Bytes.{Bytes}
use mcp_data_gateway.Crypto.{Aead, IsAead, iv_len, encrypt, decrypt}

take_front : (n : ℕ) (xs ys : Bytes) → length xs ≡ n → take n (xs ++ ys) ≡ xs
take_front zero [] ys l = refl
take_front zero (x ∷ xs) ys l = absurd (omega arith)
take_front (suc n) [] ys l = absurd (omega arith)
take_front (suc n) (x ∷ xs) ys l = ap (◌∷◌ x) (take_front n xs ys (omega arith))

drop_front : (n : ℕ) (xs ys : Bytes) → length xs ≡ n → drop n (xs ++ ys) ≡ ys
drop_front zero [] ys l = refl
drop_front zero (x ∷ xs) ys l = absurd (omega arith)
drop_front (suc n) [] ys l = absurd (omega arith)
drop_front (suc n) (x ∷ xs) ys l = drop_front n xs ys (omega arith)

-- The text on the wire is the IV and what was sealed.
encrypt-parts :
    (aead : Aead) (iv key plaintext wire : Bytes)
    → encrypt aead (some iv) key plaintext ≡ some wire
    → (sealed : Bytes) × (aead.seal key iv plaintext ≡ some sealed) × (wire ≡ iv ++ sealed)
unfolding encrypt
encrypt-parts aead iv key plaintext wire e = elim (Option-cases (aead.seal key iv plaintext)) [
  | inl n ↦ cc (rw (n, encrypt) at e)
  | inr (sealed, h) ↦ (sealed, h, some-injective _ _ (sym (rw (h, encrypt) at e)))
]

decrypt-wire :
    (aead : Aead) (iv key sealed : Bytes)
    → length iv ≡ iv_len
    → 16 ≤ length sealed
    → decrypt aead key (iv ++ sealed) ≡ aead.open_sealed key iv sealed
unfolding decrypt
decrypt-wire aead iv key sealed l m = elim (Bool-cases (ltb (length (iv ++ sealed)) 28)) [
  | inl b ↦ absurd (omega (arith, ltb→lt _ _ b, length-append iv sealed))
  | inr b ↦ rw (b, take_front 12 iv sealed l, drop_front 12 iv sealed l) refl
]

-- What is encrypted under a key and a fresh IV of 12 bytes decrypts under the same key to the same
-- bytes, and is 28 bytes longer than they are.
pub decrypt-encrypt :
    (aead : Aead) (iv key plaintext wire : Bytes)
    → IsAead aead
    → length iv ≡ iv_len
    → encrypt aead (some iv) key plaintext ≡ some wire
    → (decrypt aead key wire ≡ some plaintext) × (length wire ≡ length plaintext + 28)
decrypt-encrypt aead iv key plaintext wire a l e =
    let (sealed, s, w) = encrypt-parts aead iv key plaintext wire e in
    let t = a.tagged key iv plaintext sealed s in
    (
      ap (decrypt aead key) w
          ∙ decrypt-wire aead iv key sealed l (omega (arith, t))
          ∙ a.opens key iv plaintext sealed s,
      ap length w ∙ omega (arith, t, l, length-append iv sealed),
    )

pub encrypt-none : (aead : Aead) (key plaintext : Bytes) → encrypt aead none key plaintext ≡ none
unfolding encrypt
encrypt-none aead key plaintext = refl

-- With random bytes and a cipher that seals, encryption gives a result.
pub encrypt_total :
    (aead : Aead) (iv key plaintext sealed : Bytes)
    → aead.seal key iv plaintext ≡ some sealed
    → encrypt aead (some iv) key plaintext ≡ some (iv ++ sealed)
unfolding encrypt
encrypt_total aead iv key plaintext sealed e = rw (e, encrypt) refl

-- A wire text of fewer than 28 bytes is refused, whatever the cipher says.
pub decrypt-short :
    (aead : Aead) (key wire : Bytes) → length wire < 28 → decrypt aead key wire ≡ none
unfolding decrypt
decrypt-short aead key wire l = rw (lt→ltb (length wire) 28 l) refl
