-- ===== src/Sanitize/Vault/Live/Same.antt =====
-- A text that is sanitized with a vault has the tokens that the tables hold behind it.
use mcp_data_gateway.Prelude.{
  ℕ, ◌+◌, ◌≡◌, refl, ap, sym, subst, ◌∙◌, not, ◌||◌, inl, inr, List, [], ◌∷◌, ◌++◌, Option, none,
  some, Bool-cases, Option-cases, ltb, length,
}
use mcp_data_gateway.Prelude.Bytes.{Bytes, chars, utf8, is_char_boundary, str_slice}
use mcp_data_gateway.Prelude.Result.{Result, ok}
use mcp_data_gateway.Prelude.Text.{Text}
use mcp_data_gateway.Sanitize.{EntityKind, Span, as_label}
use mcp_data_gateway.Sanitize.Substitute.{
  VaultError, SanitizeCtx, token_or, render_token, emit, substitute_from, substitute,
}
use mcp_data_gateway.Sanitize.Vault.{
  VaultDb, PiiVault, lookup_existing, normalize, hash_of, row_key, tokenize,
}
use mcp_data_gateway.Sanitize.Vault.Decimal.{as_label-IsLabel}
use mcp_data_gateway.Sanitize.Vault.Ranks.{Seen, token_of, ask, Holds, lookup-AreRows}
use mcp_data_gateway.Sanitize.Vault.Refines.{upsert-Holds, tokenize-upsert, seals_ok}
use mcp_data_gateway.Sanitize.Vault.Live.Seen.{Extends, ask-token, ask-Extends}
use mcp_data_gateway.Sanitize.Vault.Live.{
  bytes_of, spliced, render_live, live_from, substitute_live,
}

-- The cipher seals whatever it is given.
abbrev pub Seals : PiiVault → Type 0
Seals vault =
    (iv plain : Bytes)
    → (sealed : Bytes) × (vault.env.aead.seal vault.content_key iv plain ≡ some sealed)

module _ (vault : PiiVault) (fill : ℕ → Bytes) (w : ℕ) where
  -- the hash of a text that was detected
  abbrev hash_raw : EntityKind → Bytes → Bytes
  hash_raw kind raw = hash_of vault w kind (normalize vault.env kind (chars raw))

  tokenize-Holds :
      (iv : Bytes) (v : VaultDb) (seen : List Seen) (kind : EntityKind) (raw : Text)
      → Seals vault
      → Holds w v seen
      → let hash = hash_of vault w kind (normalize vault.env kind raw) in
        ((tokenize vault iv v w kind raw).0 ≡ ok (ask seen (as_label kind) hash).0)
        × Holds w (tokenize vault iv v w kind raw).1 (ask seen (as_label kind) hash).1
  tokenize-Holds iv v seen kind raw seals h =
      let normal = normalize vault.env kind raw in
      let (sealed, s) = seals iv (utf8 normal) in
      let t =
        tokenize-upsert vault w iv (iv ++ sealed) v kind raw
          (seals_ok vault w iv (utf8 normal) sealed s) in
      let (o, h') =
        upsert-Holds w v seen (as_label kind) (hash_of vault w kind normal) (iv ++ sealed)
          (as_label-IsLabel kind) h in
      (
        ap (λ p. p.0) t ∙ o,
        subst (λ p. Holds w p.1 (ask seen (as_label kind) (hash_of vault w kind normal)).1) (sym t)
            h',
      )

  -- `f` answers for each value that was seen with its token.
  abbrev Agrees : (ℕ → EntityKind → Bytes → Result VaultError Bytes) → List Seen → Type 0
  Agrees f seen =
      (kind : EntityKind) (raw : Bytes) (t : Text)
      → token_of seen (as_label kind) (hash_raw kind raw) ≡ some t
      → f w kind raw ≡ ok (utf8 t)

  abbrev with_vault : (ℕ → EntityKind → Bytes → Result VaultError Bytes) → SanitizeCtx
  with_vault f = record { workspace_id = w; vault = some f }

  -- What a run of the loop leaves: the values seen, and the text that `pure` gives at any such `f`.
  record Ran (seen : List Seen) (r : Option Bytes × VaultDb) (pure : SanitizeCtx → Option Bytes)
      : Type 0 where
    later : List Seen
    holds : Holds w r.1 later
    extends : Extends seen later
    same :
        (f : ℕ → EntityKind → Bytes → Result VaultError Bytes)
        → Agrees f later
        → r.0 ≡ pure (with_vault f)

  stopped :
      (v : VaultDb) (seen : List Seen) (o : Option Bytes)
      → Holds w v seen
      → Ran seen (o, v) (λ ctx. o)
  stopped v seen o h = record {
    later = seen;
    holds = h;
    extends = λ kind hash t e. e;
    same = λ f a. refl;
  }

  spliced-Ran :
      (seen : List Seen) (kind : EntityKind) (verbatim raw : Bytes) (r : Option Bytes × VaultDb)
      (pure : SanitizeCtx → Option Bytes)
      → Ran (ask seen (as_label kind) (hash_raw kind raw)).1 r pure
      → Ran seen
          (spliced verbatim (utf8 (ask seen (as_label kind) (hash_raw kind raw)).0) r)
          (λ ctx. emit (some verbatim) (some raw) (pure ctx) (λ t. render_token t kind ctx))
  unfolding emit render_token token_or
  spliced-Ran seen kind verbatim raw (none, v) pure ran =
      let hash = hash_raw kind raw in
      record {
        later = ran.later;
        holds = ran.holds;
        extends = λ l g t e. ran.extends l g t (ask-Extends seen (as_label kind) hash l g t e);
        same = λ f a.
            ap (λ p. emit (some verbatim) (some raw) p (λ t. render_token t kind (with_vault f)))
              (ran.same f a);
      }
  spliced-Ran seen kind verbatim raw (some rest, v) pure ran =
      let hash = hash_raw kind raw in
      let token = (ask seen (as_label kind) hash).0 in
      let held = ran.extends (as_label kind) hash token (ask-token seen (as_label kind) hash) in
      record {
        later = ran.later;
        holds = ran.holds;
        extends = λ l g t e. ran.extends l g t (ask-Extends seen (as_label kind) hash l g t e);
        same = λ f a.
            ap (λ r. some (verbatim ++ (token_or kind r ++ rest))) (sym (a kind raw token held))
            ∙ ap (λ p. emit (some verbatim) (some raw) p (λ t. render_token t kind (with_vault f)))
                (ran.same f a);
      }

  live_from-Ran :
      (text : Bytes) (ss : List Span) (cursor n : ℕ) (v : VaultDb) (seen : List Seen)
      → Seals vault
      → Holds w v seen
      → Ran seen
          (live_from vault fill w text ss cursor n v)
          (λ ctx. substitute_from text ctx ss cursor)
  unfolding live_from substitute_from render_live emit token_or
  live_from-Ran text [] cursor n v seen seals h =
      stopped v seen (str_slice text cursor (length text)) h
  live_from-Ran text (s ∷ ss) cursor n v seen seals h =
      elim (Bool-cases (ltb (length text) s.start || ltb (length text) s.end)) [
        | inl e ↦ rw e (live_from-Ran text ss cursor n v seen seals h)
        | inr f ↦
            elim (Bool-cases
              (not (is_char_boundary text s.start) || not (is_char_boundary text s.end))) [
                | inl e ↦ rw (f, e) (live_from-Ran text ss cursor n v seen seals h)
                | inr g ↦ elim (Option-cases (str_slice text cursor s.start)) [
                  | inl z ↦ rw (f, g, z) (stopped v seen none h)
                  | inr (verbatim, p) ↦ elim (Option-cases (str_slice text s.start s.end)) [
                    | inl z ↦ rw (f, g, p, z) (stopped v seen none h)
                    | inr (raw, q) ↦
                        let called = tokenize vault (fill n) v w s.kind (chars raw) in
                        let (o, h') = tokenize-Holds (fill n) v seen s.kind (chars raw) seals h in
                        let rest = live_from-Ran text ss s.end (n + 1) called.1 _ seals h' in
                        rw (f, g, p, q)
                          (subst
                            (λ r.
                              Ran seen
                                (spliced verbatim (token_or s.kind (bytes_of r))
                                  (live_from vault fill w text ss s.end (n + 1) called.1))
                                (λ ctx.
                                  emit (some verbatim) (some raw)
                                    (substitute_from text ctx ss s.end)
                                    (λ t. render_token t s.kind ctx)))
                            (sym o)
                            (spliced-Ran seen s.kind verbatim raw _
                              (λ ctx. substitute_from text ctx ss s.end) rest))
                  ]
                ]
              ]
      ]

  -- `f` answers for each text whose value has a token in the tables with this token.
  abbrev pub Reads : (ℕ → EntityKind → Bytes → Result VaultError Bytes) → VaultDb → Type 0
  Reads f v =
      (kind : EntityKind) (raw : Bytes) (t : Text)
      → lookup_existing v.rows (row_key vault w kind (normalize vault.env kind (chars raw)))
        ≡ some t
      → f w kind raw ≡ ok (utf8 t)

  Reads-Agrees :
      (f : ℕ → EntityKind → Bytes → Result VaultError Bytes) (v : VaultDb) (seen : List Seen)
      → Holds w v seen
      → Reads f v
      → Agrees f seen
  Reads-Agrees f v seen h reads kind raw t e =
      reads kind raw t (lookup-AreRows w v.rows seen (as_label kind) (hash_raw kind raw) h.rows ∙ e)

  -- With a cipher that seals and tables that hold what the workspace has seen, sanitizing a text with the
  -- vault gives what substitute gives with any function that answers with the tokens that the tables hold
  -- when the call ends, whatever it answers to a value that has none.
  pub substitute_live-Reads :
      (text : Bytes) (spans : List Span) (v : VaultDb) (seen : List Seen)
      (f : ℕ → EntityKind → Bytes → Result VaultError Bytes)
      → Seals vault
      → Holds w v seen
      → Reads f (substitute_live vault fill w text spans v).1
      → (substitute_live vault fill w text spans v).0
        ≡ substitute text spans (record { workspace_id = w; vault = some f })
  unfolding substitute_live substitute
  substitute_live-Reads text spans v seen f seals h reads =
      let ran = live_from-Ran text spans 0 0 v seen seals h in
      ran.same f
        (Reads-Agrees f (live_from vault fill w text spans 0 0 v).1 ran.later ran.holds reads)
