-- ===== src/Sanitize/Vault/Live.antt =====
-- `substitute` of ingestion/src/sanitize/mod.rs with a vault: the loop over the spans with the tables that
-- its calls of `tokenize_blocking` read and write.
mod Seen
pub mod Same
use mcp_data_gateway.Prelude.{
  ℕ, ◌+◌, Bool, not, ◌||◌, List, [], ◌∷◌, ◌++◌, Option, none, some, ltb, if◌then◌else◌, length,
}
use mcp_data_gateway.Prelude.Bytes.{Bytes, chars, utf8, is_char_boundary, str_slice}
use mcp_data_gateway.Prelude.Result.{Result, ok, err}
use mcp_data_gateway.Prelude.Text.{Text}
use mcp_data_gateway.Sanitize.{EntityKind, Span}
use mcp_data_gateway.Sanitize.Substitute.{VaultError, token_or}
use mcp_data_gateway.Sanitize.Vault.{VaultDb, PiiVault, tokenize}

-- the token as bytes
abbrev pub bytes_of : Result VaultError Text → Result VaultError Bytes
bytes_of (ok token) = ok (utf8 token)
bytes_of (err e) = err e

-- one replaced span in front of the rest
abbrev pub spliced : Bytes → Bytes → Option Bytes × VaultDb → Option Bytes × VaultDb
spliced verbatim token (none, v) = (none, v)
spliced verbatim token (some rest, v) = (some (verbatim ++ (token ++ rest)), v)

-- `fill i` is the IV that the i-th call draws.
module _ (vault : PiiVault) (fill : ℕ → Bytes) (w : ℕ) where
  -- `render_token` with a vault
  unfoldable pub render_live : ℕ → VaultDb → EntityKind → Bytes → Bytes × VaultDb
  render_live n v kind raw =
      let (r, v') = tokenize vault (fill n) v w kind (chars raw) in (token_or kind (bytes_of r), v')

  unfoldable pub live_from : Bytes → List Span → ℕ → ℕ → VaultDb → Option Bytes × VaultDb
  unfolding render_live
  live_from text [] cursor n v = (str_slice text cursor (length text), v)
  live_from text (s ∷ ss) cursor n v =
      let skipped = live_from text ss cursor n v in
      let replaced : Option Bytes × VaultDb = elim (str_slice text cursor s.start) [
        | none ↦ (none, v)
        | some verbatim ↦ elim (str_slice text s.start s.end) [
          | none ↦ (none, v)
          | some raw ↦
              let (token, v') = render_live n v s.kind raw in
              spliced verbatim token (live_from text ss s.end (n + 1) v')
        ]
      ] in
      if ltb (length text) s.start || ltb (length text) s.end
      then skipped
      else if not (is_char_boundary text s.start) || not (is_char_boundary text s.end)
      then skipped
      else replaced

  unfoldable pub substitute_live : Bytes → List Span → VaultDb → Option Bytes × VaultDb
  unfolding live_from
  substitute_live text spans v = live_from text spans 0 0 v
