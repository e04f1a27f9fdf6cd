-- ===== src/Sanitize/Pipeline.antt =====
-- `scan` of ingestion/src/sanitize/regex_scan.rs and `sanitize` of ingestion/src/sanitize/mod.rs, in its
-- three compile-time shapes. The regex engine and the NER pass are parameters: what each expression
-- matches in a text, and what the model detects. `none` is a panic.
pub mod Laws
pub mod Tests
use mcp_data_gateway.Prelude.{
  ℕ, ◌-◌, ◌≤◌, ◌≡◌, Bool, true, false, List, [], ◌∷◌, ◌++◌, map, Option, none, some, if◌then◌else◌,
  take, drop, length, All,
}
use mcp_data_gateway.Prelude.Bytes.{Bytes, chars, is_char_boundary}
use mcp_data_gateway.Prelude.Result.{Result, ok, err}
use mcp_data_gateway.Sanitize.{EntityKind, nir, iban, phone, email, uuid, Span}
use mcp_data_gateway.Sanitize.Merge.{merge_and_dedup}
use mcp_data_gateway.Sanitize.Substitute.{SanitizeCtx, substitute}
use mcp_data_gateway.Sanitize.Checks.{strip, is_valid_nir, is_valid_iban}

-- A match of the regex crate: two byte offsets.
pub record Match : Type 0 where
  pub start : ℕ
  pub end : ℕ

-- `find_iter` (for the NIR, the group `nir` of `captures_iter`) of the five expressions.
pub record Regexes : Type 0 where
  pub re_fr_nir : Bytes → List Match
  pub re_iban : Bytes → List Match
  pub re_e164 : Bytes → List Match
  pub re_email : Bytes → List Match
  pub re_uuid : Bytes → List Match

-- `as_str`
abbrev pub as_str : Bytes → Match → Bytes
as_str text m = take (m.end - m.start) (drop m.start text)

-- What the crate documents of a match: an ordered range of the haystack on character boundaries.
abbrev pub IsMatch : Bytes → Match → Type 0
IsMatch text m =
    (m.start ≤ m.end)
    × (m.end ≤ length text)
    × (is_char_boundary text m.start ≡ true)
    × (is_char_boundary text m.end ≡ true)

-- The expression for the NIR matches 15 digits or letters, with or without whitespace between.
abbrev pub IsNirMatch : Bytes → Match → Type 0
IsNirMatch text m = length (strip (chars (as_str text m))) ≡ 15

pub record IsEngine (re : Regexes) : Type 0 where
  pub of_nir : (text : Bytes) → All (IsMatch text) (re.re_fr_nir text)
  pub fifteen : (text : Bytes) → All (IsNirMatch text) (re.re_fr_nir text)
  pub of_iban : (text : Bytes) → All (IsMatch text) (re.re_iban text)
  pub of_e164 : (text : Bytes) → All (IsMatch text) (re.re_e164 text)
  pub of_email : (text : Bytes) → All (IsMatch text) (re.re_email text)
  pub of_uuid : (text : Bytes) → All (IsMatch text) (re.re_uuid text)

abbrev pub span_of : EntityKind → Match → Span
span_of kind m = record { start = m.start; end = m.end; kind = kind }

-- a hit that its validator accepts is pushed in front of the hits that follow
push_valid : Option Bool → Span → Option (List Span) → Option (List Span)
push_valid (some true) s (some hits) = some (s ∷ hits)
push_valid (some false) s hits = hits
push_valid _ _ _ = none

pub nir_hits : Bytes → List Match → Option (List Span)
unfolding push_valid
nir_hits text [] = some []
nir_hits text (m ∷ ms) =
    push_valid (is_valid_nir (as_str text m)) (span_of nir m) (nir_hits text ms)

pub iban_hits : Bytes → List Match → List Span
iban_hits text [] = []
iban_hits text (m ∷ ms) =
    let rest = iban_hits text ms in
    if is_valid_iban (as_str text m) then span_of iban m ∷ rest else rest

unfoldable pub scan : Regexes → Bytes → Option (List Span)
unfolding nir_hits iban_hits
scan re text = elim (nir_hits text (re.re_fr_nir text)) [
  | none ↦ none
  | some hits ↦ some (
      hits
      ++ (iban_hits text (re.re_iban text)
          ++ (map (span_of phone) (re.re_e164 text)
              ++ (map (span_of email) (re.re_email text) ++ map (span_of uuid) (re.re_uuid text)))))
]

-- `Cow<str>`
pub data Cow : Type 0 where
  borrowed : Bytes → Cow
  owned : Bytes → Cow

abbrev pub into_text : Cow → Bytes
into_text (borrowed t) = t
into_text (owned t) = t

-- The text itself if nothing was detected, else the text with the spans replaced.
pub rebuild : Bytes → SanitizeCtx → List Span → Option Cow
rebuild text ctx [] = some (borrowed text)
rebuild text ctx (s ∷ ss) = elim (substitute text (s ∷ ss) ctx) [
  | none ↦ none
  | some t ↦ some (owned t)
]

-- (a) no scanner
pub sanitize_disabled : Bytes → SanitizeCtx → Cow
sanitize_disabled text ctx = borrowed text

-- (b) the regex scanner alone
unfoldable pub sanitize_regex : Regexes → Bytes → SanitizeCtx → Option Cow
unfolding rebuild
sanitize_regex re text ctx = elim (scan re text) [
  | none ↦ none
  | some spans ↦ rebuild text ctx (merge_and_dedup spans)
]

-- the hits of the model; an error of the model counts as no hit
abbrev pub ner_hits : Result (Unit {0}) (List Span) → List Span
ner_hits (ok spans) = spans
ner_hits (err e) = []

-- (c) both scanners
unfoldable pub sanitize_full :
    Regexes → (Bytes → Result (Unit {0}) (List Span)) → Bytes → SanitizeCtx → Option Cow
unfolding rebuild
sanitize_full re ner text ctx = elim (scan re text) [
  | none ↦ none
  | some spans ↦ rebuild text ctx (merge_and_dedup (spans ++ ner_hits (ner text)))
]
