-- ===== src/Sanitize/Ner.antt =====
-- `map_label` and `bio_merge` of ingestion/src/sanitize/ner.rs. The tokenizer and the model, which give
-- the offsets and the labels, are not modelled.
mod Steps
mod Cover
pub mod Tokens
pub mod Model
mod Tests
use text.Mathlib.Text.{◌==◌ as str_eq, starts_with}
use mcp_data_gateway.Prelude.{
  ℕ, zero, suc, String, Bool, true, false, ◌&&◌, ◌||◌, List, [], ◌∷◌, ◌++◌, Option, none, some,
  ◌==◌, if◌then◌else◌, get_elem?,
}
use mcp_data_gateway.Sanitize.{EntityKind, person, org, loc, Span, kind_eq}

unfoldable pub map_label : String → Option EntityKind
map_label lbl =
    if str_eq lbl "B-PER" || str_eq lbl "I-PER"
    then some person
    else if str_eq lbl "B-ORG" || str_eq lbl "I-ORG"
    then some org
    else if str_eq lbl "B-LOC" || str_eq lbl "I-LOC"
    then some loc
    else none

-- `labels.get(lid)`, `O` out of range
abbrev pub label_of : List String → ℕ → String
label_of labels lid = elim (get_elem? labels lid) [ none ↦ "O" | some l ↦ l ]

-- `offsets.get(i).copied().unwrap_or((0, 0))` at the head, and the offsets behind it
abbrev pub next_offset : List (ℕ × ℕ) → ℕ × ℕ
next_offset [] = (0, 0)
next_offset (o ∷ os) = o

abbrev pub later_offsets : List (ℕ × ℕ) → List (ℕ × ℕ)
later_offsets [] = []
later_offsets (o ∷ os) = os

-- close the open span
abbrev pub flush : Option Span → List Span
flush none = []
flush (some s) = s ∷ []

-- What one token does: the spans that it closes, and the span that is open behind it.
extend_or_start : Bool → Option Span → Span → List Span × Option Span
extend_or_start true (some o) t =
    if kind_eq o.kind t.kind then ([], some (record o { end = t.end })) else (o ∷ [], some t)
extend_or_start true none t = ([], some t)
extend_or_start false prev t = (flush prev, some t)

-- the `match` on the kind and on the tag's prefix
pub tag_step : Option EntityKind → Bool → Bool → ℕ × ℕ → Option Span → List Span × Option Span
unfolding extend_or_start
tag_step (some k) true inside (s, e) prev =
    extend_or_start false prev (record { start = s; end = e; kind = k })
tag_step (some k) false true (s, e) prev =
    extend_or_start true prev (record { start = s; end = e; kind = k })
tag_step _ _ _ o prev = (flush prev, none)

pub token_step : List String → ℕ × ℕ → ℕ → Option Span → List Span × Option Span
unfolding map_label tag_step
token_step labels (s, e) lid open_span =
    let lbl = label_of labels lid in
    if s == 0 && e == 0
    then (flush open_span, none)
    else tag_step (map_label lbl) (starts_with lbl "B-") (starts_with lbl "I-") (s, e) open_span

-- The loop over the labels, with the offsets beside them.
pub bio_from : List (ℕ × ℕ) → List ℕ → List String → Option Span → List Span
bio_from offsets [] labels open_span = flush open_span
bio_from offsets (lid ∷ lids) labels open_span =
    let (closed, next) = token_step labels (next_offset offsets) lid open_span in
    closed ++ bio_from (later_offsets offsets) lids labels next

unfoldable pub bio_merge : List (ℕ × ℕ) → List ℕ → List String → List Span
unfolding bio_from token_step
bio_merge offsets label_ids labels = bio_from offsets label_ids labels none
