-- ===== src/Sanitize/Checks.antt =====
-- The validators of ingestion/src/sanitize/regex_scan.rs. A text is its UTF-8 bytes; `none` is a slice
-- that panics.
mod Digits
pub mod Nir
pub mod Iban
mod Tests
use mcp_data_gateway.Prelude.{
  ℕ, ◌+◌, ◌-◌, ◌*◌, ◌/◌, ◌%◌, Bool, true, false, not, ◌&&◌, ◌||◌, List, [], ◌∷◌, ◌++◌, Option, none,
  some, ltb, leb, ◌==◌, if◌then◌else◌, length, take, drop,
}
use mcp_data_gateway.Prelude.Text.{Text, is_whitespace}
use mcp_data_gateway.Prelude.Bytes.{
  Bytes, utf8, chars, str_slice, all, is_ascii_digit, is_ascii_uppercase, parse_u64, digits_value,
}

-- `filter(|c| !c.is_whitespace())`
pub strip : Text → Text
strip [] = []
strip (c ∷ s) = let rest = strip s in if is_whitespace c then rest else c ∷ rest

abbrev pub compact : Bytes → Bytes
compact raw = utf8 (strip (chars raw))

-- the département with Corsica's letters replaced; `none` if it is not two digits
unfoldable pub departement : Bytes → Option Bytes
departement (b ∷ c ∷ []) =
    if b == b'2' && c == b'A'
    then some (b'1' ∷ b'9' ∷ [])
    else if b == b'2' && c == b'B'
    then some (b'1' ∷ b'8' ∷ [])
    else if is_ascii_digit b && is_ascii_digit c
    then some (b ∷ c ∷ [])
    else none
departement dep = if all is_ascii_digit dep then some dep else none

-- the comparison of the key, once both numbers are parsed
key_matches : Option ℕ → Option ℕ → Bool
key_matches (some n) (some key) = 97 - n % 97 == key
key_matches _ _ = false

-- the check of the 15 characters with the département replaced
pub check_key : Bytes → Bool
unfolding key_matches
check_key normalized =
    if not (all is_ascii_digit normalized)
    then false
    else key_matches (parse_u64 (take 13 normalized)) (parse_u64 (drop 13 normalized))

-- the slices of the compacted number: S YY MM, the département, and the rest
nir_parts : Option Bytes → Option Bytes → Option Bytes → Option Bool
unfolding check_key departement
nir_parts (some head) (some dep) (some tail) = elim (departement dep) [
  | none ↦ some false
  | some d ↦ some (check_key (head ++ (d ++ tail)))
]
nir_parts _ _ _ = none

unfoldable pub is_valid_nir : Bytes → Option Bool
unfolding nir_parts strip
is_valid_nir raw =
    let c = compact raw in
    if not (length c == 15)
    then some false
    else nir_parts (str_slice c 0 5) (str_slice c 5 7) (str_slice c 7 (length c))

-- the digits of a letter or a digit: A is 10, B is 11, …
pub substitute_letter : ℕ → Bytes
substitute_letter c =
    if is_ascii_digit c then c ∷ [] else (let v = c - 65 + 10 in (48 + v / 10) ∷ (48 + v % 10) ∷ [])

pub letters_to_digits : Bytes → Bytes
letters_to_digits [] = []
letters_to_digits (c ∷ s) = substitute_letter c ++ letters_to_digits s

-- the remainder, digit by digit
pub remainder_from : ℕ → Bytes → ℕ
remainder_from rem [] = rem
remainder_from rem (d ∷ s) = remainder_from ((rem * 10 + (d - 48)) % 97) s

abbrev pub rotated : Bytes → Bytes
rotated c = drop 4 c ++ take 4 c

unfoldable pub is_valid_iban : Bytes → Bool
unfolding strip letters_to_digits substitute_letter remainder_from
is_valid_iban raw =
    let c = compact raw in
    if ltb (length c) 15 || ltb 34 (length c)
    then false
    else if not (all (λ b. is_ascii_uppercase b || is_ascii_digit b) c)
    then false
    else remainder_from 0 (letters_to_digits (rotated c)) == 1
