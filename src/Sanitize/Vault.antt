-- ===== src/Sanitize/Vault.antt =====
-- ingestion/src/sanitize/vault.rs: the vault that gives a token to each detected value. The tables
-- pii_token_counter and pii_token_map of V18__pii_token_tables.sql are lists of rows, and the statement of
-- `upsert` is a function of the table that it changes and of the snapshot that it reads. HMAC-SHA256, the
-- cipher, the random IV, NFKC and `to_lowercase` are parameters.
mod Decimal
pub mod Tables
pub mod Safety
pub mod Unique
pub mod Races
pub mod Ranks
mod Words
mod Names
pub mod Refines
pub mod Live
mod Tests
use mcp_data_gateway.Prelude.{
  ℕ, zero, suc, ◌+◌, ◌-◌, ◌/◌, ◌%◌, Bool, true, false, ◌&&◌, List, [], ◌∷◌, ◌++◌, Option, none,
  some, if◌then◌else◌, ltb, ◌==◌, length,
}
use mcp_data_gateway.Prelude.Bytes.{Bytes, bytes_eq, utf8}
use mcp_data_gateway.Prelude.Decimal.{decimal}
use mcp_data_gateway.Prelude.Text.{Text, codes, is_whitespace, trim}
use mcp_data_gateway.Prelude.Result.{Result, ok, err}
use mcp_data_gateway.Crypto.{Aead}
use mcp_data_gateway.Sanitize.{
  EntityKind, nir, iban, phone, email, uuid, person, org, loc, as_label,
}
use mcp_data_gateway.Sanitize.Checks.{strip}
use mcp_data_gateway.Sanitize.Substitute.{VaultError, db, crypto, other}

-- The columns of the UNIQUE constraint of pii_token_map.
pub record RowKey : Type 0 where
  pub workspace_id : ℕ
  pub entity_kind : Text
  pub lookup_hash : Bytes

pub record TokenRow : Type 0 where
  pub token : Text
  pub key : RowKey
  pub original_value_ct : Bytes

pub record CounterRow : Type 0 where
  pub workspace_id : ℕ
  pub entity_kind : Text
  pub next_id : ℕ

pub record VaultDb : Type 0 where
  pub counters : List CounterRow
  pub rows : List TokenRow

abbrev pub key_eq : RowKey → RowKey → Bool
key_eq a b =
    a.workspace_id == b.workspace_id
    && (bytes_eq a.entity_kind b.entity_kind && bytes_eq a.lookup_hash b.lookup_hash)

-- SELECT token … WHERE workspace_id = $1 AND entity_kind = $2 AND lookup_hash = $3 LIMIT 1
unfoldable pub lookup_existing : List TokenRow → RowKey → Option Text
lookup_existing [] k = none
lookup_existing (r ∷ rows) k =
    let rest = lookup_existing rows k in if key_eq r.key k then some r.token else rest

-- whether the primary key is taken
unfoldable pub has_token : List TokenRow → Text → Bool
has_token [] t = false
has_token (r ∷ rows) t = let rest = has_token rows t in if bytes_eq r.token t then true else rest

abbrev pub counts_for : ℕ → Text → CounterRow → Bool
counts_for w kind c = c.workspace_id == w && bytes_eq c.entity_kind kind

-- `bump`, its value: the id before the increment, 1 where there is no row
unfoldable pub current_id : List CounterRow → ℕ → Text → ℕ
current_id [] w kind = 1
current_id (c ∷ counters) w kind =
    let rest = current_id counters w kind in if counts_for w kind c then c.next_id else rest

-- `bump`, its effect: INSERT … VALUES (…, 2) ON CONFLICT … DO UPDATE SET next_id = next_id + 1
unfoldable pub bump : List CounterRow → ℕ → Text → List CounterRow
bump [] w kind = record { workspace_id = w; entity_kind = kind; next_id = 2 } ∷ []
bump (c ∷ counters) w kind =
    let rest = bump counters w kind in
    if counts_for w kind c then record c { next_id = c.next_id + 1 } ∷ counters else c ∷ rest

-- 'PII_' || $2 || '_' || current_id
abbrev pub new_token : Text → ℕ → Text
new_token kind id = codes "PII_" ++ (kind ++ (b'_' ∷ decimal id))

-- The last SELECT reads the snapshot, where `ins` gave no row.
pub read_back : Option Text → Result VaultError Text
read_back none = err db
read_back (some token) = ok token

-- The statement at the moment where it writes. `snapshot` is the table as it was when the statement began,
-- `v` the tables with what others have committed since. A conflict on the key inserts nothing; a conflict
-- on the primary key fails the statement, and nothing is written.
pub upsert_statement : List TokenRow → VaultDb → RowKey → Bytes → Result VaultError Text × VaultDb
unfolding read_back
upsert_statement snapshot v k ct =
    let token = new_token k.entity_kind (current_id v.counters k.workspace_id k.entity_kind) in
    let bumped = bump v.counters k.workspace_id k.entity_kind in
    elim (lookup_existing v.rows k) [
      | some held ↦ (read_back (lookup_existing snapshot k), record v { counters = bumped })
      | none ↦ if has_token v.rows token then (err db, v) else (
        ok token,
        record {
          counters = bumped;
          rows = record { token = token; key = k; original_value_ct = ct } ∷ v.rows;
        },
      )
    ]

-- `upsert` with nobody else writing: the short-circuit on an existing row, then the statement.
pub upsert : VaultDb → RowKey → Bytes → Result VaultError Text × VaultDb
upsert v k ct = elim (lookup_existing v.rows k) [
  | some token ↦ (ok token, v)
  | none ↦ upsert_statement v.rows v k ct
]

-- The loop of `normalize_name`, with `prev_space`.
unfoldable pub collapse : Bool → Text → Text
unfolding is_whitespace
collapse prev_space [] = []
collapse prev_space (c ∷ s) =
    let spaced = collapse true s in
    let plain = c ∷ collapse false s in
    if is_whitespace c then (if prev_space then spaced else 32 ∷ spaced) else plain

-- What the vault calls: HMAC-SHA256 of a key and a text, the bytes of a workspace id, the cipher, and the
-- forms of Unicode.
pub record VaultEnv : Type 0 where
  pub mac : Bytes → Bytes → Bytes
  pub as_bytes : ℕ → Bytes
  pub aead : Aead
  pub nfkc : Text → Text
  pub to_lowercase : Text → Text

pub record PiiVault : Type 0 where
  pub env : VaultEnv
  pub hmac_root : Bytes
  pub content_key : Bytes

-- `PiiVault::new`
unfoldable pub new_vault : VaultEnv → Bytes → Bytes → Result VaultError PiiVault
new_vault env hmac_root content_key =
    if ltb (length hmac_root) 32
    then err (other (codes "hmac_root too short (need ≥32 bytes)"))
    else ok (record { env = env; hmac_root = hmac_root; content_key = content_key })

unfoldable pub normalize_name : VaultEnv → Text → Text
normalize_name env raw = env.to_lowercase (collapse false (trim (env.nfkc raw)))

unfoldable pub normalize_strict : VaultEnv → Text → Text
normalize_strict env raw = env.to_lowercase (strip raw)

unfoldable pub normalize : VaultEnv → EntityKind → Text → Text
unfolding normalize_name normalize_strict
normalize env person raw = normalize_name env raw
normalize env org raw = normalize_name env raw
normalize env nir raw = normalize_strict env raw
normalize env iban raw = normalize_strict env raw
normalize env phone raw = normalize_strict env raw
normalize env email raw = normalize_strict env raw
normalize env uuid raw = normalize_strict env raw
normalize env loc raw = normalize_strict env raw

unfoldable pub derive_workspace_key : PiiVault → ℕ → Bytes
derive_workspace_key vault w = vault.env.mac vault.hmac_root (vault.env.as_bytes w)

unfoldable pub hash_of : PiiVault → ℕ → EntityKind → Text → Bytes
unfolding derive_workspace_key
hash_of vault w kind normalized =
    vault.env.mac (derive_workspace_key vault w) (utf8 (as_label kind) ++ (b':' ∷ utf8 normalized))

-- `encrypt`; `iv` is what `thread_rng` fills in
unfoldable pub encrypt_value : PiiVault → Bytes → Bytes → Result VaultError Bytes
encrypt_value vault iv plaintext = elim (vault.env.aead.seal vault.content_key iv plaintext) [
  | none ↦ err crypto
  | some ct ↦ ok (iv ++ ct)
]

abbrev pub row_key : PiiVault → ℕ → EntityKind → Text → RowKey
row_key vault w kind normalized = record {
  workspace_id = w;
  entity_kind = as_label kind;
  lookup_hash = hash_of vault w kind normalized;
}

-- `tokenize_async`, and `tokenize_blocking`, which waits for the same calls
pub tokenize : PiiVault → Bytes → VaultDb → ℕ → EntityKind → Text → Result VaultError Text × VaultDb
unfolding normalize
tokenize vault iv v w kind raw =
    elim (encrypt_value vault iv (utf8 (normalize vault.env kind raw))) [
      | err e ↦ (err e, v)
      | ok ct ↦ upsert v (row_key vault w kind (normalize vault.env kind raw)) ct
    ]
