-- ===== src/Sanitize/Checks/Iban.antt =====
-- `is_valid_iban`: the remainder taken digit by digit is that of the whole number, and the check
-- detects a wrong digit.
use mcp_data_gateway.Prelude.{
  ℕ, ◌%◌, ◌≤◌, ◌≡◌, ◌≢◌, refl, ap, sym, ◌∙◌, true, false, ◌↔◌, inl, inr, [], ◌∷◌, ◌++◌,
  append_assoc, arith, Bool-cases, length,
}
use mcp_data_gateway.Prelude.Bytes.{Bytes, all, is_ascii_digit, digits_value}
use mcp_data_gateway.Sanitize.Checks.{
  compact, is_valid_iban, letters_to_digits, substitute_letter, rotated,
}
use mcp_data_gateway.Sanitize.Checks.Digits.{
  is_iban_char, compact-clean, remainder_from-digits_value, digits_value_detects,
}

-- The whole number that ISO 13616 takes modulo 97.
abbrev pub iban_number : Bytes → ℕ
iban_number c = digits_value 0 (letters_to_digits (rotated c))

-- A text is accepted exactly if, without its whitespace, it has from 15 to 34 characters, all of them
-- capitals or digits, and its number, the first four characters moved to the end and each letter
-- read as two digits, is 1 modulo 97.
pub is_valid_iban_iff :
    (raw : Bytes)
    → (is_valid_iban raw ≡ true) ↔ (
        (15 ≤ length (compact raw))
        × (length (compact raw) ≤ 34)
        × (all is_iban_char (compact raw) ≡ true)
        × (iban_number (compact raw) % 97 ≡ 1))
unfolding is_valid_iban
is_valid_iban_iff raw =
    let e = remainder_from-digits_value 0 (letters_to_digits (rotated (compact raw))) in
    (λ h. ground arith, λ (l, u, c, n). ground arith)

letters_to_digits-append :
    (s t : Bytes) → letters_to_digits (s ++ t) ≡ letters_to_digits s ++ letters_to_digits t
unfolding letters_to_digits
letters_to_digits-append [] t = refl
letters_to_digits-append (c ∷ s) t =
    ap (◌++◌ (substitute_letter c)) (letters_to_digits-append s t)
    ∙ sym (append_assoc (substitute_letter c) (letters_to_digits s) (letters_to_digits t))

letters_to_digits-digit :
    (x : ℕ) (s : Bytes)
    → is_ascii_digit x ≡ true
    → letters_to_digits (x ∷ s) ≡ x ∷ letters_to_digits s
unfolding letters_to_digits substitute_letter
letters_to_digits-digit x s h = rw h

abbrev country : ℕ → ℕ → ℕ → ℕ → Bytes
country a b c d = a ∷ b ∷ c ∷ d ∷ []

-- the digits with one of them singled out
iban_number-split :
    (a b c d x : ℕ) (pre post : Bytes)
    → is_ascii_digit x ≡ true
    → iban_number (country a b c d ++ (pre ++ x ∷ post))
      ≡ digits_value 0 (letters_to_digits pre ++ x ∷ letters_to_digits (post ++ country a b c d))
iban_number-split a b c d x pre post h = ap (digits_value 0) (
    ap letters_to_digits (append_assoc pre (x ∷ post) (country a b c d))
    ∙ letters_to_digits-append pre (x ∷ (post ++ country a b c d))
    ∙ ap (◌++◌ (letters_to_digits pre)) (letters_to_digits-digit x (post ++ country a b c d) h))

-- replacing a digit by a digit keeps the text one of letters and digits
all-replace :
    (x y : ℕ) (pre post : Bytes)
    → is_ascii_digit y ≡ true
    → all is_iban_char (pre ++ x ∷ post) ≡ true
    → all is_iban_char (pre ++ y ∷ post) ≡ true
all-replace x y [] post d h = ground arith
all-replace x y (c ∷ pre) post d h = ground (arith, all-replace x y pre post d)

-- One wrong digit behind the first four characters of an accepted IBAN is always detected.
pub is_valid_iban_detects :
    (a b c d x y : ℕ) (pre post : Bytes)
    → is_ascii_digit x ≡ true
    → is_ascii_digit y ≡ true
    → x ≢ y
    → all is_iban_char (country a b c d ++ (pre ++ x ∷ post)) ≡ true
    → is_valid_iban (country a b c d ++ (pre ++ x ∷ post)) ≡ true
    → is_valid_iban (country a b c d ++ (pre ++ y ∷ post)) ≡ false
is_valid_iban_detects a b c d x y pre post dx dy ne clean v =
    elim (Bool-cases (is_valid_iban other)) [
      | inr f ↦ f
      | inl t ↦ absurd (
          ne (
            digits_value_detects 0 x y (letters_to_digits pre)
              (letters_to_digits (post ++ country a b c d)) dx dy
              (sym (ap (λ n. n % 97) (iban_number-split a b c d x pre post dx))
                ∙ one (country a b c d ++ (pre ++ x ∷ post)) clean v
                ∙ sym (one other (all-replace x y (country a b c d ++ pre) post dy clean) t)
                ∙ ap (λ n. n % 97) (iban_number-split a b c d y pre post dy))))
    ]
  where
    other : Bytes
    other = country a b c d ++ (pre ++ y ∷ post)

    one : (s : Bytes) → all is_iban_char s ≡ true → is_valid_iban s ≡ true → iban_number s % 97 ≡ 1
    one s h t =
        let (_, _, _, n) = (is_valid_iban_iff s).0 t in
        ap (λ t. iban_number t % 97) (sym (compact-clean s h)) ∙ n
