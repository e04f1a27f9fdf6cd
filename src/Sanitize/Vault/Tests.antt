-- ===== src/Sanitize/Vault/Tests.antt =====
-- Two people and a firm in two workspaces, with an HMAC that joins the key and the text.
use mcp_data_gateway.Prelude.{ℕ, ◌≡◌, ◌↔◌, refl, List, [], ◌∷◌, ◌++◌, map, none, some}
use mcp_data_gateway.Prelude.Bytes.{Bytes, utf8, chars, is_char_boundary, str_slice}
use mcp_data_gateway.Prelude.Text.{codes, is_whitespace, trim}
use mcp_data_gateway.Prelude.Result.{Result, ok, err}
use mcp_data_gateway.Crypto.Tests.{toy, fifteen, zero_iv}
use mcp_data_gateway.Sanitize.{EntityKind, Span, person, org, as_label}
use mcp_data_gateway.Sanitize.Substitute.{VaultError, db, substitute, token_or}
use mcp_data_gateway.Sanitize.Vault.Live.{render_live, live_from, substitute_live}
use mcp_data_gateway.Sanitize.Vault.Live.Same.{substitute_live-Reads}
use mcp_data_gateway.Sanitize.Vault.{
  RowKey, VaultDb, VaultEnv, PiiVault, lookup_existing, has_token, current_id, bump, read_back,
  upsert_statement, upsert, encrypt_value, hash_of, derive_workspace_key, tokenize, collapse,
  normalize_name, normalize_strict, normalize, row_key,
}
use mcp_data_gateway.Prelude.Decimal.{decimal_digits}
use mcp_data_gateway.Sanitize.Vault.Safety.{stays, tokens_converge}
use mcp_data_gateway.Sanitize.Vault.Races.{upsert_race, upsert-other_workspace}
use mcp_data_gateway.Sanitize.Vault.Ranks.{count}
use mcp_data_gateway.Sanitize.Vault.Words.{words, cut}
use mcp_data_gateway.Sanitize.Vault.Names.{normalize_name-words}
use mcp_data_gateway.Sanitize.Vault.Refines.{Call, answers, replay, answers_refine}

abbrev ann_of : ℕ → RowKey
ann_of w = record { workspace_id = w; entity_kind = codes "PERSON"; lookup_hash = 1 ∷ 2 ∷ [] }

abbrev sealed : Bytes
sealed = 9 ∷ []

abbrev empty_vault : VaultDb
empty_vault = record { counters = []; rows = [] }

abbrev one_row : VaultDb
unfolding upsert_statement lookup_existing has_token current_id bump decimal_digits
one_row = (upsert_statement [] empty_vault (ann_of 5) sealed).1

person_1 : current_id one_row.counters 5 (codes "PERSON") ≡ 2
unfolding upsert_statement lookup_existing has_token current_id bump decimal_digits
person_1 = refl

tokens_converge_example : codes "PII_PERSON_1" ≡ codes "PII_PERSON_1"
unfolding upsert_statement lookup_existing has_token current_id bump decimal_digits read_back
tokens_converge_example =
    tokens_converge empty_vault empty_vault one_row one_row (ann_of 5) sealed (8 ∷ [])
      (codes "PII_PERSON_1") (codes "PII_PERSON_1") stays refl stays stays refl

upsert_race_example :
    ((upsert_statement [] empty_vault (ann_of 5) sealed).0 ≡ ok (codes "PII_PERSON_1"))
    × ((upsert_statement []
          (upsert_statement [] empty_vault (ann_of 5) sealed).1
          (ann_of 5)
          (8 ∷ [])).0
        ≡ err db)
unfolding lookup_existing has_token current_id decimal_digits
upsert_race_example = upsert_race empty_vault (ann_of 5) sealed (8 ∷ []) refl refl

upsert-other_workspace_example : upsert one_row (ann_of 6) (8 ∷ []) ≡ (err db, one_row)
unfolding upsert_statement lookup_existing has_token current_id bump decimal_digits read_back
upsert-other_workspace_example =
    upsert-other_workspace one_row (ann_of 6) (ann_of 5) (8 ∷ []) refl refl refl

abbrev env : VaultEnv
env = record {
  mac = λ key text. key ++ text;
  as_bytes = λ w. w ∷ [];
  aead = toy;
  nfkc = λ s. s;
  to_lowercase = λ s. s;
}

abbrev vault : PiiVault
vault = record { env = env; hmac_root = zero_iv; content_key = 7 ∷ [] }

abbrev calls : List Call
calls =
    record { iv = zero_iv; kind = person; raw = codes "ann  lee" }
    ∷ record { iv = zero_iv; kind = org; raw = codes "acme" }
    ∷ record { iv = zero_iv; kind = person; raw = codes " ann lee " }
    ∷ record { iv = zero_iv; kind = person; raw = codes "bob" }
    ∷ []

answers_refine_example : answers vault 5 calls empty_vault ≡ map ok (replay vault 5 calls [])
unfolding current_id count
answers_refine_example =
    answers_refine vault 5 calls empty_vault [] (λ iv plain. (7 ∷ (fifteen ++ plain), refl))
      (record { rows = tt; counted = λ k. refl })

calls-replay :
    answers vault 5 calls empty_vault
    ≡ map ok (
        codes "PII_PERSON_1" ∷ codes "PII_ORG_1" ∷ codes "PII_PERSON_1" ∷ codes "PII_PERSON_2" ∷ [])
unfolding answers tokenize upsert upsert_statement lookup_existing has_token current_id bump
    decimal_digits normalize normalize_name normalize_strict collapse is_whitespace trim
    encrypt_value hash_of derive_workspace_key as_label utf8
calls-replay = refl

-- A text with one person at two places, and another one.
abbrev letter : Bytes
letter = codes "ann met bob; ann left"

abbrev people : List Span
people =
    record { start = 0; end = 3; kind = person }
    ∷ record { start = 8; end = 11; kind = person }
    ∷ record { start = 13; end = 16; kind = person }
    ∷ []

abbrev same_iv : ℕ → Bytes
same_iv n = zero_iv

letter-live :
    (substitute_live vault same_iv 5 letter people empty_vault).0
    ≡ some (codes "PII_PERSON_1 met PII_PERSON_2; PII_PERSON_1 left")
unfolding substitute_live live_from render_live token_or tokenize upsert upsert_statement
    lookup_existing has_token current_id bump decimal_digits normalize normalize_name
    normalize_strict collapse is_whitespace trim encrypt_value hash_of derive_workspace_key as_label
    utf8 chars is_char_boundary str_slice
letter-live = refl

-- what the tables hold behind the call
abbrev held : ℕ → EntityKind → Bytes → Result VaultError Bytes
held u kind raw =
    elim (lookup_existing (substitute_live vault same_iv 5 letter people empty_vault).1.rows
      (row_key vault 5 kind (normalize env kind (chars raw)))) [
        | none ↦ err db
        | some t ↦ ok (utf8 t)
      ]

substitute_live-Reads_example :
    (substitute_live vault same_iv 5 letter people empty_vault).0
    ≡ substitute letter people (record { workspace_id = 5; vault = some held })
unfolding current_id count
substitute_live-Reads_example =
    substitute_live-Reads vault same_iv 5 letter people empty_vault [] held
      (λ iv plain. (7 ∷ (fifteen ++ plain), refl)) (record { rows = tt; counted = λ k. refl })
      (λ kind raw t e. rw (e, held) refl)

normalize_name-words_example :
    (normalize_name env (codes " Ann  Lee") ≡ env.to_lowercase (codes "Ann Lee"))
    × ((codes "Ann Lee" ≡ codes "Ann Lee")
        ↔ (words (codes " Ann  Lee") ≡ words (codes "Ann Lee  ")))
unfolding words cut is_whitespace
normalize_name-words_example = normalize_name-words env (codes " Ann  Lee") (codes "Ann Lee  ")
