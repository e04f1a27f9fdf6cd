-- ===== src/Sanitize/Vault/Races.antt =====
-- Two ways in which the statement fails: a race for a new value, and a token of another workspace.
use mcp_data_gateway.Prelude.{◌≡◌, refl, ap, ◌∙◌, true, false, List, none, some}
use mcp_data_gateway.Prelude.Bytes.{Bytes}
use mcp_data_gateway.Prelude.Text.{Text}
use mcp_data_gateway.Prelude.Result.{ok, err}
use mcp_data_gateway.Sanitize.Substitute.{db}
use mcp_data_gateway.Sanitize.Vault.{
  RowKey, TokenRow, VaultDb, lookup_existing, has_token, current_id, new_token, read_back,
  upsert_statement, upsert,
}
use mcp_data_gateway.Sanitize.Vault.Tables.{lookup-insert_self}
use mcp_data_gateway.Sanitize.Vault.Safety.{minted, with_row}
use mcp_data_gateway.Sanitize.Vault.Unique.{has_token_of_lookup}

statement_mints :
    (snapshot : List TokenRow) (v : VaultDb) (k : RowKey) (ct : Bytes)
    → lookup_existing v.rows k ≡ none
    → has_token v.rows (minted v k) ≡ false
    → upsert_statement snapshot v k ct ≡ (ok (minted v k), with_row v k ct)
unfolding upsert_statement
statement_mints snapshot v k ct e b = rw (e, upsert_statement, b) refl

statement_loses :
    (snapshot : List TokenRow) (v : VaultDb) (k : RowKey) (ct : Bytes) (t : Text)
    → lookup_existing snapshot k ≡ none
    → lookup_existing v.rows k ≡ some t
    → (upsert_statement snapshot v k ct).0 ≡ err db
unfolding upsert_statement read_back
statement_loses snapshot v k ct t n e = rw (e, upsert_statement, n) refl

-- Two statements that begin on the same tables for one value that has no token: the one that writes first
-- mints the token, and the other fails, since its snapshot does not show the row.
pub upsert_race :
    (v : VaultDb) (k : RowKey) (ct₁ ct₂ : Bytes)
    → lookup_existing v.rows k ≡ none
    → has_token v.rows (minted v k) ≡ false
    → ((upsert_statement v.rows v k ct₁).0 ≡ ok (minted v k))
      × ((upsert_statement v.rows (upsert_statement v.rows v k ct₁).1 k ct₂).0 ≡ err db)
upsert_race v k ct₁ ct₂ e b =
    let first = statement_mints v.rows v k ct₁ e b in
    (
      ap (λ p. p.0) first,
      ap (λ p. (upsert_statement v.rows p.1 k ct₂).0) first
          ∙ statement_loses v.rows (with_row v k ct₁) k ct₂ (minted v k) e (
              lookup-insert_self (record { token = minted v k; key = k; original_value_ct = ct₁ })
                v.rows),
    )

-- A workspace that has no token of a kind gets none while another value has the first token of that
-- kind: the call fails, and leaves the tables as they were, so that it fails again.
pub upsert-other_workspace :
    (v : VaultDb) (k j : RowKey) (ct : Bytes)
    → lookup_existing v.rows k ≡ none
    → current_id v.counters k.workspace_id k.entity_kind ≡ 1
    → lookup_existing v.rows j ≡ some (new_token k.entity_kind 1)
    → upsert v k ct ≡ (err db, v)
unfolding upsert upsert_statement
upsert-other_workspace v k j ct n one held =
    let taken : has_token v.rows (minted v k) ≡ true =
      ap (λ i. has_token v.rows (new_token k.entity_kind i)) one
      ∙ has_token_of_lookup v.rows j (new_token k.entity_kind 1) held in
    rw (n, upsert, n, upsert_statement, taken) refl
