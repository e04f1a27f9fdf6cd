-- ===== src/Sanitize/Substitute.antt =====
-- `substitute`, `render_token` and `SanitizeCtx` of ingestion/src/sanitize/mod.rs. A text is its UTF-8
-- bytes; `none` is a slice that panics. What the vault answers is a parameter, part of the context.
pub mod Segments
use mcp_data_gateway.Prelude.{
  ℕ, Bool, not, ◌||◌, List, [], ◌∷◌, ◌++◌, Option, none, some, ltb, if◌then◌else◌, length,
}
use mcp_data_gateway.Prelude.Bytes.{Bytes, is_char_boundary, str_slice}
use mcp_data_gateway.Prelude.Result.{Result, ok, err}
use mcp_data_gateway.Prelude.Text.{codes}
use mcp_data_gateway.Sanitize.{EntityKind, Span, as_label}

pub data VaultError : Type 0 where
  db crypto : VaultError
  other : Bytes → VaultError

-- `vault` is `tokenize_blocking`, if there is a vault.
pub record SanitizeCtx : Type 0 where
  pub workspace_id : ℕ
  pub vault : Option (ℕ → EntityKind → Bytes → Result VaultError Bytes)

abbrev pub placeholder_only : ℕ → SanitizeCtx
placeholder_only w = record { workspace_id = w; vault = none }

-- `format!("[PII:{}]", kind.as_label())`
unfoldable pub placeholder : EntityKind → Bytes
unfolding as_label
placeholder kind = codes "[PII:" ++ (as_label kind ++ codes "]")

-- the token of the vault, the placeholder where the vault fails
unfoldable pub token_or : EntityKind → Result VaultError Bytes → Bytes
token_or kind (ok token) = token
token_or kind (err e) = placeholder kind

unfoldable pub render_token : Bytes → EntityKind → SanitizeCtx → Bytes
unfolding placeholder token_or
render_token raw kind ctx = elim ctx.vault [
  | none ↦ placeholder kind
  | some v ↦ token_or kind (v ctx.workspace_id kind raw)
]

-- one replaced span in front of the rest
unfoldable pub emit : Option Bytes → Option Bytes → Option Bytes → (Bytes → Bytes) → Option Bytes
emit (some verbatim) (some raw) (some rest) render = some (verbatim ++ (render raw ++ rest))
emit _ _ _ _ = none

-- The loop over the spans, from `cursor` on: what it appends to `out`.
unfoldable pub substitute_from : Bytes → SanitizeCtx → List Span → ℕ → Option Bytes
unfolding emit
substitute_from text ctx [] cursor = str_slice text cursor (length text)
substitute_from text ctx (s ∷ ss) cursor =
    let skipped = substitute_from text ctx ss cursor in
    let replaced =
      emit (str_slice text cursor s.start) (str_slice text s.start s.end)
        (substitute_from text ctx ss s.end) (λ raw. render_token raw s.kind ctx) in
    if ltb (length text) s.start || ltb (length text) s.end
    then skipped
    else if not (is_char_boundary text s.start) || not (is_char_boundary text s.end)
    then skipped
    else replaced

unfoldable pub substitute : Bytes → List Span → SanitizeCtx → Option Bytes
unfolding substitute_from render_token
substitute text spans ctx = substitute_from text ctx spans 0
