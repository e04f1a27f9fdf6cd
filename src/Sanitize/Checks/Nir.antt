-- ===== src/Sanitize/Checks/Nir.antt =====
-- `is_valid_nir`: it never panics on ASCII, it decides the key, and it detects a wrong digit.
use mcp_data_gateway.Prelude.{
  ℕ, ◌+◌, ◌-◌, ◌%◌, ◌≤◌, ◌≡◌, ◌≢◌, refl, ap, sym, subst, ◌∙◌, Bool, true, false, ◌↔◌, inl, inr, [],
  ◌∷◌, ◌++◌, some, some-injective, ℕ_discrete, take_of_le, ==-of_eq, ==-of_ne, arith, Option-cases,
  ◌==◌, length, length-append, length-take, length-drop, take, drop, take-append-drop, drop-drop,
}
use mcp_data_gateway.Prelude.Text.{Text}
use mcp_data_gateway.Prelude.Bytes.{
  Bytes, utf8, utf8_char, utf8-ascii, chars, AllAscii, str_slice-ascii, all, is_ascii_digit,
  digits_value,
}
use mcp_data_gateway.Sanitize.Checks.{
  strip, compact, check_key, key_matches, nir_parts, departement, is_valid_nir,
}
use mcp_data_gateway.Sanitize.Checks.Digits.{
  compact-clean, all_digits_iban, all_parts, parse_thirteen, parse_two, all-AllAscii,
  compact-AllAscii,
}

abbrev pub number : Bytes → ℕ
number d = digits_value 0 (take 13 d)

abbrev pub key : Bytes → ℕ
key d = digits_value 0 (drop 13 d)

check_key-digits :
    (d : Bytes)
    → length d ≡ 15
    → all is_ascii_digit d ≡ true
    → check_key d ≡ (97 - number d % 97 == key d)
unfolding check_key key_matches
check_key-digits d l h =
    let (h₁, h₂) = all_parts is_ascii_digit 13 d h in
    rw h (
      rw (parse_thirteen (take 13 d) (omega (arith, length-take 13 d)) h₁)
        (rw (parse_two (drop 13 d) (omega (arith, length-drop 13 d)) h₂)))

-- the two digits of the département stay
departement-digits :
    (s : Bytes) → length s ≡ 2 → all is_ascii_digit s ≡ true → departement s ≡ some s
unfolding departement
departement-digits (b ∷ c ∷ []) l h = ground arith
departement-digits s l h = absurd (omega arith)

regroup : (d : Bytes) → take 5 d ++ (take 2 (drop 5 d) ++ drop 7 d) ≡ d
regroup d =
    ap (λ t. take 5 d ++ (take 2 (drop 5 d) ++ t)) (sym (drop-drop 2 5 7 d refl))
    ∙ ap (λ t. take 5 d ++ t) (take-append-drop 2 (drop 5 d))
    ∙ take-append-drop 5 d

is_valid_nir_short : (raw : Bytes) → length (compact raw) ≢ 15 → is_valid_nir raw ≡ some false
unfolding is_valid_nir
is_valid_nir_short raw ne = rw (==-of_ne (length (compact raw)) 15 ne)

-- On ASCII the three slices are taken where the source takes them, and none panics.
is_valid_nir-parts :
    (raw : Bytes)
    → AllAscii (compact raw)
    → length (compact raw) ≡ 15
    → is_valid_nir raw
      ≡ nir_parts
          (some (take 5 (compact raw)))
          (some (take 2 (drop 5 (compact raw))))
          (some (drop 7 (compact raw)))
unfolding is_valid_nir
is_valid_nir-parts raw h l =
    let c = compact raw in
    rw (==-of_eq (length c) 15 l) (
      rw (str_slice-ascii c 0 5 h (omega arith) (omega arith)) (
        rw (str_slice-ascii c 5 7 h (omega arith) (omega arith)) (
          rw (str_slice-ascii c 7 (length c) h (omega arith) (omega arith))
            (rw (take_of_le (length c - 7) (drop 7 c) (omega (arith, length-drop 7 c)))))))

nir_parts_total :
    (head dep tail : Bytes) → (b : Bool) × (nir_parts (some head) (some dep) (some tail) ≡ some b)
unfolding nir_parts
nir_parts_total head dep tail = elim (Option-cases (departement dep)) [
  | inl e ↦ (false, rw (e, nir_parts))
  | inr (d, e) ↦ (check_key (head ++ (d ++ tail)), rw (e, nir_parts))
]

-- On an ASCII text the check returns an answer: no slice panics.
pub is_valid_nir_total : (raw : Bytes) → AllAscii raw → (b : Bool) × (is_valid_nir raw ≡ some b)
is_valid_nir_total raw h = elim (ℕ_discrete (length (compact raw)) 15) [
  | yes l ↦
      let (b, e) =
        nir_parts_total (take 5 (compact raw)) (take 2 (drop 5 (compact raw)))
          (drop 7 (compact raw)) in
      (b, is_valid_nir-parts raw (compact-AllAscii raw h) l ∙ e)
  | no ne ↦ (false, is_valid_nir_short raw ne)
]

-- A character takes at least one byte, and one byte only if it is ASCII.
utf8-long : (s : Text) → length s ≤ length (utf8 s)
unfolding utf8
utf8-long [] = omega arith
utf8-long (c ∷ s) = ground (arith, utf8-long s, length-append (utf8_char c) (utf8 s))

utf8-short : (s : Text) → length (utf8 s) ≡ length s → AllAscii s
unfolding utf8
utf8-short [] h = tt
utf8-short (c ∷ s) h =
    ground (arith, utf8-long s, utf8-short s, length-append (utf8_char c) (utf8 s))

-- A text of 15 characters beside whitespace, which is what the expression for the NIR matches, never
-- makes a slice panic, whatever its characters are.
pub is_valid_nir_fifteen :
    (raw : Bytes) → length (strip (chars raw)) ≡ 15 → (b : Bool) × (is_valid_nir raw ≡ some b)
is_valid_nir_fifteen raw n = elim (ℕ_discrete (length (compact raw)) 15) [
  | yes l ↦
      let a = utf8-short (strip (chars raw)) (l ∙ sym n) in
      let (b, e) =
        nir_parts_total (take 5 (compact raw)) (take 2 (drop 5 (compact raw)))
          (drop 7 (compact raw)) in
      (b, is_valid_nir-parts raw (subst AllAscii (sym (utf8-ascii (strip (chars raw)) a)) a) l ∙ e)
  | no ne ↦ (false, is_valid_nir_short raw ne)
]

-- 15 digits are accepted exactly where the last two make the number of the first 13 a multiple of 97.
pub is_valid_nir-digits :
    (d : Bytes)
    → length d ≡ 15
    → all is_ascii_digit d ≡ true
    → is_valid_nir d ≡ some (97 - number d % 97 == key d)
unfolding nir_parts
is_valid_nir-digits d l h =
    let e = compact-clean d (all_digits_iban d h) in
    is_valid_nir-parts d (subst AllAscii (sym e) (all-AllAscii d (all_digits_iban d h)))
      (ap length e ∙ l)
    ∙ rw e (
        rw
          (
            departement-digits (take 2 (drop 5 d))
                (omega (arith, length-take 2 (drop 5 d), length-drop 5 d))
                (all_parts is_ascii_digit 2 (drop 5 d) (all_parts is_ascii_digit 5 d h).1).0,
            nir_parts,
          )
          (rw (regroup d) (ap some (check_key-digits d l h))))

-- A number of 15 digits is accepted exactly if its key, from 1 to 97, and the number of the 13
-- digits in front of it add up to a multiple of 97.
pub is_valid_nir_iff :
    (d : Bytes)
    → length d ≡ 15
    → all is_ascii_digit d ≡ true
    → (is_valid_nir d ≡ some true) ↔ ((1 ≤ key d) × (key d ≤ 97) × ((number d + key d) % 97 ≡ 0))
is_valid_nir_iff d l h = (
  λ v.
      let e : (97 - number d % 97 == key d) ≡ true =
        some-injective _ _ (sym (is_valid_nir-digits d l h) ∙ v) in
      ground arith,
  λ k. is_valid_nir-digits d l h ∙ ap some (==-of_eq _ _ (omega arith)),
)
