-- ===== src/Sanitize/Checks/Tests.antt =====
-- The validators on the test vectors of regex_scan.rs, and the theorems at concrete texts.
use mcp_data_gateway.Prelude.{◌+◌, ◌%◌, ◌≤◌, ◌≡◌, refl, true, false, ◌↔◌, some, arith, length}
use mcp_data_gateway.Prelude.Text.{codes, is_whitespace}
use mcp_data_gateway.Prelude.Bytes.{Bytes, utf8, chars, str_slice, is_char_boundary, parse_u64, all}
use mcp_data_gateway.Sanitize.Checks.{compact, departement, is_valid_nir, is_valid_iban}
use mcp_data_gateway.Sanitize.Checks.Nir.{number, key, is_valid_nir_iff}
use mcp_data_gateway.Sanitize.Checks.Iban.{iban_number, is_valid_iban_iff, is_valid_iban_detects}
use mcp_data_gateway.Sanitize.Checks.Digits.{is_iban_char}

abbrev paris : Bytes
paris = codes "185127510811134"

iban_fr : is_valid_iban (codes "FR1420041010050500013M02606") ≡ true
unfolding is_valid_iban is_whitespace utf8 chars
iban_fr = refl

iban_bad : is_valid_iban (codes "FR0000041010050500013M02606") ≡ false
unfolding is_valid_iban is_whitespace utf8 chars
iban_bad = refl

-- Corsica: 2 90 05 2A 042 123
corsica : is_valid_nir (codes "2 90 05 2A 042 123 76") ≡ some true
unfolding is_valid_nir is_whitespace utf8 chars str_slice is_char_boundary parse_u64 departement
corsica = refl

is_valid_nir_iff_example :
    (is_valid_nir paris ≡ some true)
    ↔ ((1 ≤ key paris) × (key paris ≤ 97) × ((number paris + key paris) % 97 ≡ 0))
is_valid_nir_iff_example = is_valid_nir_iff paris refl refl

is_valid_iban_iff_example : (is_valid_iban (codes "FR1420") ≡ true) ↔ (
    (15 ≤ length (compact (codes "FR1420")))
    × (length (compact (codes "FR1420")) ≤ 34)
    × (all is_iban_char (compact (codes "FR1420")) ≡ true)
    × (iban_number (compact (codes "FR1420")) % 97 ≡ 1))
is_valid_iban_iff_example = is_valid_iban_iff (codes "FR1420")

is_valid_iban_detects_example : is_valid_iban (codes "FR1420041010050500014M02606") ≡ false
is_valid_iban_detects_example =
    is_valid_iban_detects b'F' b'R' b'1' b'4' b'3' b'4' (codes "2004101005050001") (codes "M02606")
      refl refl (λ e. absurd (omega arith)) refl iban_fr
