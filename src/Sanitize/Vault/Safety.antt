-- ===== src/Sanitize/Vault/Safety.antt =====
-- What no interleaving of writers breaks: a value keeps its token, and both constraints of pii_token_map hold.
use mcp_data_gateway.Prelude.{
  ◌≡◌, refl, ap, sym, subst, ◌∙◌, true, false, inl, inr, List, [], ◌∷◌, Option, none, some,
  some-injective, Bool-cases, Option-cases,
}
use mcp_data_gateway.Prelude.Bytes.{Bytes}
use mcp_data_gateway.Prelude.Text.{Text}
use mcp_data_gateway.Prelude.Result.{Result, ok, err, ok_same}
use mcp_data_gateway.Sanitize.Substitute.{VaultError, db}
use mcp_data_gateway.Sanitize.Vault.{
  RowKey, TokenRow, CounterRow, VaultDb, lookup_existing, has_token, current_id, bump, new_token,
  read_back, upsert_statement,
}
use mcp_data_gateway.Sanitize.Vault.Tables.{lookup-insert_self, lookup-insert_held}

abbrev pub bumped : VaultDb → RowKey → List CounterRow
bumped v k = bump v.counters k.workspace_id k.entity_kind

-- The token that the statement would mint.
abbrev pub minted : VaultDb → RowKey → Text
minted v k = new_token k.entity_kind (current_id v.counters k.workspace_id k.entity_kind)

abbrev pub with_row : VaultDb → RowKey → Bytes → VaultDb
with_row v k ct = record {
  counters = bumped v k;
  rows = record { token = minted v k; key = k; original_value_ct = ct } ∷ v.rows;
}

-- The three ends of the statement.
pub data Ends (snapshot : List TokenRow) (v : VaultDb) (k : RowKey) (ct : Bytes)
    (r : Result VaultError Text × VaultDb) : Type 0 where
  is_held :
      (t : Text)
      → lookup_existing v.rows k ≡ some t
      → r ≡ (read_back (lookup_existing snapshot k), record v { counters = bumped v k })
      → Ends snapshot v k ct r
  is_taken :
      lookup_existing v.rows k ≡ none
      → has_token v.rows (minted v k) ≡ true
      → r ≡ (err db, v)
      → Ends snapshot v k ct r
  is_minted :
      lookup_existing v.rows k ≡ none
      → has_token v.rows (minted v k) ≡ false
      → r ≡ (ok (minted v k), with_row v k ct)
      → Ends snapshot v k ct r

pub upsert_statement-Ends :
    (snapshot : List TokenRow) (v : VaultDb) (k : RowKey) (ct : Bytes)
    → Ends snapshot v k ct (upsert_statement snapshot v k ct)
unfolding upsert_statement
upsert_statement-Ends snapshot v k ct = elim (Option-cases (lookup_existing v.rows k)) [
  | inr (t, e) ↦ is_held t e (rw (e, upsert_statement) refl)
  | inl e ↦ elim (Bool-cases (has_token v.rows (minted v k))) [
    | inl b ↦ is_taken e b (rw (e, upsert_statement, b) refl)
    | inr b ↦ is_minted e b (rw (e, upsert_statement, b) refl)
  ]
]

-- What others may do to the tables in the meantime: statements, each with whatever snapshot it began with.
pub data Evolves (v : VaultDb) : VaultDb → Type 0 where
  stays : Evolves v v
  writes :
      {u w : VaultDb} (snapshot : List TokenRow) (k : RowKey) (ct : Bytes)
      → Evolves v u
      → (upsert_statement snapshot u k ct).1 ≡ w
      → Evolves v w

-- Neither constraint of pii_token_map is broken.
pub data IsConsistent : List TokenRow → Type 0 where
  no_rows : IsConsistent []
  one_more :
      (row : TokenRow) (rows : List TokenRow)
      → lookup_existing rows row.key ≡ none
      → has_token rows row.token ≡ false
      → IsConsistent rows
      → IsConsistent (row ∷ rows)

keeps_held :
    (snapshot : List TokenRow) (u : VaultDb) (k : RowKey) (ct : Bytes)
    (r : Result VaultError Text × VaultDb) (l : RowKey) (t : Text)
    → Ends snapshot u k ct r
    → lookup_existing u.rows l ≡ some t
    → lookup_existing r.1.rows l ≡ some t
keeps_held snapshot u k ct r l t (is_held s e q) h =
    subst (λ p. lookup_existing p.1.rows l ≡ some t) (sym q) h
keeps_held snapshot u k ct r l t (is_taken e b q) h =
    subst (λ p. lookup_existing p.1.rows l ≡ some t) (sym q) h
keeps_held snapshot u k ct r l t (is_minted e b q) h =
    subst (λ p. lookup_existing p.1.rows l ≡ some t) (sym q)
      (lookup-insert_held (record { token = minted u k; key = k; original_value_ct = ct }) u.rows l
        t e h)

ends_consistent :
    (snapshot : List TokenRow) (u : VaultDb) (k : RowKey) (ct : Bytes)
    (r : Result VaultError Text × VaultDb)
    → Ends snapshot u k ct r
    → IsConsistent u.rows
    → IsConsistent r.1.rows
ends_consistent snapshot u k ct r (is_held s e q) c = subst (λ p. IsConsistent p.1.rows) (sym q) c
ends_consistent snapshot u k ct r (is_taken e b q) c = subst (λ p. IsConsistent p.1.rows) (sym q) c
ends_consistent snapshot u k ct r (is_minted e b q) c =
    subst (λ p. IsConsistent p.1.rows) (sym q)
      (one_more (record { token = minted u k; key = k; original_value_ct = ct }) u.rows e b c)

-- A value that has a token keeps it.
pub Evolves-held :
    (v u : VaultDb) (k : RowKey) (t : Text)
    → Evolves v u
    → lookup_existing v.rows k ≡ some t
    → lookup_existing u.rows k ≡ some t
Evolves-held v u k t stays h = h
Evolves-held v u k t (writes {u = m} snapshot l ct e q) h =
    subst (λ p. lookup_existing p.rows k ≡ some t) q
      (keeps_held snapshot m l ct (upsert_statement snapshot m l ct) k t
        (upsert_statement-Ends snapshot m l ct) (Evolves-held v m k t e h))

pub Evolves-IsConsistent : (v u : VaultDb) → Evolves v u → IsConsistent v.rows → IsConsistent u.rows
Evolves-IsConsistent v u stays c = c
Evolves-IsConsistent v u (writes {u = m} snapshot l ct e q) c =
    subst (λ p. IsConsistent p.rows) q
      (ends_consistent snapshot m l ct (upsert_statement snapshot m l ct)
        (upsert_statement-Ends snapshot m l ct) (Evolves-IsConsistent v m e c))

read_back_ok : (o : Option Text) (t : Text) → read_back o ≡ ok t → o ≡ some t
unfolding read_back
read_back_ok none t h = cc
read_back_ok (some s) t h = ap some (ok_same s t refl h)

-- A statement that returns a token leaves it as the token of its value.
ending_token :
    (s v : VaultDb) (k : RowKey) (ct : Bytes) (r : Result VaultError Text × VaultDb) (t : Text)
    → Evolves s v
    → Ends s.rows v k ct r
    → r.0 ≡ ok t
    → lookup_existing r.1.rows k ≡ some t
ending_token s v k ct r t ev (is_held held e q) o =
    let seen : lookup_existing s.rows k ≡ some t = read_back_ok _ t (sym (ap (λ p. p.0) q) ∙ o) in
    subst (λ p. lookup_existing p.1.rows k ≡ some t) (sym q) (Evolves-held s v k t ev seen)
ending_token s v k ct r t ev (is_taken e b q) o = cc (ap (λ p. p.0) q, o)
ending_token s v k ct r t ev (is_minted e b q) o =
    subst (λ p. lookup_existing p.1.rows k ≡ some t) (sym q)
      (lookup-insert_self (record { token = minted v k; key = k; original_value_ct = ct }) v.rows
        ∙ ap some (ok_same (minted v k) t (ap (λ p. p.0) q) o))

pub statement_ok :
    (s v : VaultDb) (k : RowKey) (ct : Bytes) (t : Text)
    → Evolves s v
    → (upsert_statement s.rows v k ct).0 ≡ ok t
    → lookup_existing (upsert_statement s.rows v k ct).1.rows k ≡ some t
statement_ok s v k ct t ev o =
    ending_token s v k ct (upsert_statement s.rows v k ct) t ev
      (upsert_statement-Ends s.rows v k ct) o

-- Two statements for one value that both return a token return the same one, whatever others wrote before
-- either of them, between the snapshots and the writes, and between the two.
pub tokens_converge :
    (s₁ v₁ s₂ v₂ : VaultDb) (k : RowKey) (ct₁ ct₂ : Bytes) (t₁ t₂ : Text)
    → Evolves s₁ v₁
    → (upsert_statement s₁.rows v₁ k ct₁).0 ≡ ok t₁
    → Evolves (upsert_statement s₁.rows v₁ k ct₁).1 v₂
    → Evolves s₂ v₂
    → (upsert_statement s₂.rows v₂ k ct₂).0 ≡ ok t₂
    → t₁ ≡ t₂
tokens_converge s₁ v₁ s₂ v₂ k ct₁ ct₂ t₁ t₂ a o₁ between b o₂ =
    let first =
      Evolves-held (upsert_statement s₁.rows v₁ k ct₁).1 v₂ k t₁ between
        (statement_ok s₁ v₁ k ct₁ t₁ a o₁) in
    let behind =
      Evolves-held v₂ (upsert_statement s₂.rows v₂ k ct₂).1 k t₁ (writes s₂.rows k ct₂ stays refl)
        first in
    some-injective _ _ (sym behind ∙ statement_ok s₂ v₂ k ct₂ t₂ b o₂)
