-- ===== src/Sanitize/Pipeline/Tests.antt =====
-- The merge, the substitution and the pipeline on small texts, and the theorems at them.
use mcp_data_gateway.Prelude.{
  ◌≤◌, ◌<◌, ◌≡◌, refl, inl, List, [], ◌∷◌, ◌++◌, some, arith, length, drop, Elem,
}
use mcp_data_gateway.Prelude.Text.{codes}
use mcp_data_gateway.Prelude.Bytes.{Bytes, is_char_boundary, str_slice}
use mcp_data_gateway.Sanitize.{Span, email, uuid, iban}
use mcp_data_gateway.Sanitize.Merge.{merge_and_dedup}
use mcp_data_gateway.Sanitize.Merge.Order.{
  Disjoint, IsNested, merge_and_dedup-Disjoint, merge_and_dedup_covers_bytes,
}
use mcp_data_gateway.Sanitize.Substitute.{placeholder_only, substitute, render_token}
use mcp_data_gateway.Sanitize.Substitute.Segments.{cut, boundary_end}
use mcp_data_gateway.Sanitize.Pipeline.{Regexes, IsEngine, Cow, scan, sanitize_regex}
use mcp_data_gateway.Sanitize.Pipeline.Laws.{IsRebuilt, sanitize_regex_lem, substitute_leaks_tail}

abbrev whole : Span
whole = record { start = 0; end = 10; kind = email }

abbrev inner : Span
inner = record { start = 2; end = 4; kind = uuid }

abbrev crossing : Span
crossing = record { start = 8; end = 14; kind = iban }

abbrev spans : List Span
spans = inner ∷ whole ∷ crossing ∷ []

merges : merge_and_dedup spans ≡ whole ∷ []
unfolding merge_and_dedup
merges = refl

merge_and_dedup-Disjoint_example : Disjoint 0 (merge_and_dedup (whole ∷ inner ∷ crossing ∷ []))
merge_and_dedup-Disjoint_example = merge_and_dedup-Disjoint (whole ∷ inner ∷ crossing ∷ [])

pair-IsNested : IsNested (inner ∷ whole ∷ [])
pair-IsNested a b ea eb l u = ground (arith, ea, eb)

merge_and_dedup_covers_bytes_example :
    (k : Span) × Elem k (merge_and_dedup (inner ∷ whole ∷ [])) × (k.start ≤ 3) × (3 < k.end)
merge_and_dedup_covers_bytes_example =
    merge_and_dedup_covers_bytes (inner ∷ whole ∷ []) inner 3 pair-IsNested (inl refl) (omega arith)
      (omega arith)

abbrev pub note : Bytes
note = codes "a@b.example, ok"

substitutes : substitute note (whole ∷ []) (placeholder_only 1) ≡ some (codes "[PII:EMAIL]e, ok")
unfolding substitute is_char_boundary str_slice
substitutes = refl

substitute_leaks_tail_example :
    substitute note (merge_and_dedup (whole ∷ crossing ∷ [])) (placeholder_only 1)
    ≡ some (
        cut note 0 0
        ++ (render_token (cut note 0 10) email (placeholder_only 1)
            ++ (cut note 10 14 ++ drop 14 note)))
unfolding is_char_boundary
substitute_leaks_tail_example =
    substitute_leaks_tail note (placeholder_only 1) whole crossing (omega arith) (omega arith)
      (omega arith) refl refl

-- An engine whose expression for phone numbers matches every whole text.
abbrev pub greedy : Regexes
greedy = record {
  re_fr_nir = λ _. [];
  re_iban = λ _. [];
  re_e164 = λ text. record { start = 0; end = length text } ∷ [];
  re_email = λ _. [];
  re_uuid = λ _. [];
}

pub greedy-IsEngine : IsEngine greedy
unfolding is_char_boundary
greedy-IsEngine = record {
  of_nir = λ _. tt;
  fifteen = λ _. tt;
  of_iban = λ _. tt;
  of_e164 = λ text. ((omega arith, omega arith, refl, boundary_end text), tt);
  of_email = λ _. tt;
  of_uuid = λ _. tt;
}

sanitize_regex_example :
    (spans : List Span) × (c : Cow) × (scan greedy note ≡ some spans)
    × (sanitize_regex greedy note (placeholder_only 1) ≡ some c)
    × IsRebuilt note (placeholder_only 1) (merge_and_dedup spans) c
sanitize_regex_example = sanitize_regex_lem greedy greedy-IsEngine note (placeholder_only 1)
