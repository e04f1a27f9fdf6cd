-- ===== src/Sanitize/Vault/Refines.antt =====
-- One workspace alone on the tables: the vault answers as the list of the values seen, and never fails.
use mcp_data_gateway.Prelude.{
  ℕ, ◌+◌, ◌≡◌, refl, ap, ap₂, sym, subst, ◌∙◌, false, inl, inr, List, [], ◌∷◌, ◌++◌, map, none,
  some, Bool-cases, Option-cases, ==_iff, if◌then◌else◌, arith,
}
use mcp_data_gateway.Prelude.Bytes.{Bytes, bytes_eq, utf8}
use mcp_data_gateway.Prelude.Text.{Text}
use mcp_data_gateway.Prelude.Result.{Result, ok}
use mcp_data_gateway.Sanitize.{EntityKind, as_label}
use mcp_data_gateway.Sanitize.Substitute.{VaultError}
use mcp_data_gateway.Sanitize.Vault.{
  RowKey, CounterRow, VaultDb, PiiVault, lookup_existing, has_token, current_id, bump, new_token,
  upsert_statement, upsert, normalize, hash_of, row_key, encrypt_value, tokenize,
}
use mcp_data_gateway.Sanitize.Vault.Decimal.{IsLabel, as_label-IsLabel}
use mcp_data_gateway.Sanitize.Vault.Tables.{current_id-bump}
use mcp_data_gateway.Sanitize.Vault.Ranks.{
  Seen, count, token_of, ask, key_in, Holds, lookup-AreRows, has_token-AreRows,
}

pub ask-some :
    (seen : List Seen) (kind : Text) (hash : Bytes) (t : Text)
    → token_of seen kind hash ≡ some t
    → ask seen kind hash ≡ (t, seen)
unfolding ask
ask-some seen kind hash t e = rw (e, ask) refl

pub ask-none :
    (seen : List Seen) (kind : Text) (hash : Bytes)
    → token_of seen kind hash ≡ none
    → ask seen kind hash ≡ (new_token kind (count kind seen + 1), (kind, hash) ∷ seen)
unfolding ask
ask-none seen kind hash e = rw (e, ask) refl

upsert-some :
    (v : VaultDb) (k : RowKey) (ct : Bytes) (t : Text)
    → lookup_existing v.rows k ≡ some t
    → upsert v k ct ≡ (ok t, v)
unfolding upsert
upsert-some v k ct t e = rw (e, upsert) refl

abbrev held_by : VaultDb → RowKey → Bytes → Text → VaultDb
held_by v k ct t = record {
  counters = bump v.counters k.workspace_id k.entity_kind;
  rows = record { token = t; key = k; original_value_ct = ct } ∷ v.rows;
}

upsert-none :
    (v : VaultDb) (k : RowKey) (ct : Bytes) (id : ℕ)
    → lookup_existing v.rows k ≡ none
    → current_id v.counters k.workspace_id k.entity_kind ≡ id
    → has_token v.rows (new_token k.entity_kind id) ≡ false
    → upsert v k ct ≡ (ok (new_token k.entity_kind id), held_by v k ct (new_token k.entity_kind id))
unfolding upsert upsert_statement
upsert-none v k ct id e c b = rw (e, upsert, e, upsert_statement, c, b) refl

count_more :
    (kind l : Text) (hash : Bytes) (seen : List Seen)
    → count l ((kind, hash) ∷ seen) ≡ (if bytes_eq kind l then count l seen + 1 else count l seen)
unfolding count
count_more kind l hash seen = refl

bumped-counted :
    (w : ℕ) (counters : List CounterRow) (seen : List Seen) (kind l : Text) (hash : Bytes)
    → ((k : Text) → current_id counters w k ≡ count k seen + 1)
    → current_id (bump counters w kind) w l ≡ count l ((kind, hash) ∷ seen) + 1
bumped-counted w counters seen kind l hash h =
    current_id-bump counters w kind w l ∙ elim (Bool-cases (bytes_eq kind l)) [
      | inl b ↦ rw ((==_iff w w).1 refl, b, count_more kind l hash seen, b, h l) refl
      | inr b ↦ rw ((==_iff w w).1 refl, b, count_more kind l hash seen, b, h l) refl
    ]

-- An upsert answers as the abstract vault does, and the tables hold what that has seen.
pub upsert-Holds :
    (w : ℕ) (v : VaultDb) (seen : List Seen) (kind : Text) (hash ct : Bytes)
    → IsLabel kind
    → Holds w v seen
    → ((upsert v (key_in w kind hash) ct).0 ≡ ok (ask seen kind hash).0)
      × Holds w (upsert v (key_in w kind hash) ct).1 (ask seen kind hash).1
upsert-Holds w v seen kind hash ct i h =
    let found = lookup-AreRows w v.rows seen kind hash h.rows in
    elim (Option-cases (token_of seen kind hash)) [
      | inr (t, e) ↦
          let u = upsert-some v (key_in w kind hash) ct t (found ∙ e) in
          let a = ask-some seen kind hash t e in
          (
            ap (λ p. p.0) u ∙ ap (λ p. ok p.0) (sym a),
            subst (λ p. Holds w p (ask seen kind hash).1) (ap (λ p. p.1) (sym u))
                (subst (λ p. Holds w v p) (ap (λ p. p.1) (sym a)) h),
          )
      | inl e ↦
          let id = count kind seen + 1 in
          let free = has_token-AreRows w v.rows seen kind id h.rows i (omega arith) in
          let u = upsert-none v (key_in w kind hash) ct id (found ∙ e) (h.counted kind) free in
          let a = ask-none seen kind hash e in
          let holds : Holds w (held_by v (key_in w kind hash) ct (new_token kind id))
              ((kind, hash) ∷ seen) =
            record {
              rows = (refl, refl, i, h.rows);
              counted = λ l. bumped-counted w v.counters seen kind l hash h.counted;
            } in
          (
            ap (λ p. p.0) u ∙ ap (λ p. ok p.0) (sym a),
            subst (λ p. Holds w p (ask seen kind hash).1) (ap (λ p. p.1) (sym u))
                (subst (λ p. Holds w (held_by v (key_in w kind hash) ct (new_token kind id)) p)
                  (ap (λ p. p.1) (sym a)) holds),
          )
    ]

-- A call of the vault: the IV that it draws, and the value.
pub record Call : Type 0 where
  pub iv : Bytes
  pub kind : EntityKind
  pub raw : Text

module _ (vault : PiiVault) (w : ℕ) where
  -- the calls of a workspace one behind the other
  unfoldable pub answers : List Call → VaultDb → List (Result VaultError Text)
  answers [] v = []
  answers (c ∷ calls) v = let (r, v') = tokenize vault c.iv v w c.kind c.raw in r ∷ answers calls v'

  -- the same calls on the list of the values seen
  pub replay : List Call → List Seen → List Text
  replay [] seen = []
  replay (c ∷ calls) seen =
      let (t, seen') =
        ask seen (as_label c.kind) (hash_of vault w c.kind (normalize vault.env c.kind c.raw)) in
      t ∷ replay calls seen'

  pub tokenize-upsert :
      (iv ct : Bytes) (v : VaultDb) (kind : EntityKind) (raw : Text)
      → encrypt_value vault iv (utf8 (normalize vault.env kind raw)) ≡ ok ct
      → tokenize vault iv v w kind raw
        ≡ upsert v (row_key vault w kind (normalize vault.env kind raw)) ct
  unfolding tokenize
  tokenize-upsert iv ct v kind raw e = rw (e, tokenize) refl

  pub seals_ok :
      (iv plain sealed : Bytes)
      → vault.env.aead.seal vault.content_key iv plain ≡ some sealed
      → encrypt_value vault iv plain ≡ ok (iv ++ sealed)
  unfolding encrypt_value
  seals_ok iv plain sealed e = rw (e, encrypt_value) refl

  -- With a cipher that seals, and with tables that hold what the workspace has seen, any sequence of calls
  -- is answered as the abstract vault answers it: none fails, a value that was seen has its token again,
  -- and a new value has the next number of its kind.
  pub answers_refine :
      (calls : List Call) (v : VaultDb) (seen : List Seen)
      → ((iv plain : Bytes)
          → (sealed : Bytes) × (vault.env.aead.seal vault.content_key iv plain ≡ some sealed))
      → Holds w v seen
      → answers calls v ≡ map ok (replay calls seen)
  unfolding answers replay
  answers_refine [] v seen seals h = refl
  answers_refine (c ∷ calls) v seen seals h =
      let normal = normalize vault.env c.kind c.raw in
      let (sealed, s) = seals c.iv (utf8 normal) in
      let t =
        tokenize-upsert c.iv (c.iv ++ sealed) v c.kind c.raw
          (seals_ok c.iv (utf8 normal) sealed s) in
      let (o, h') =
        upsert-Holds w v seen (as_label c.kind) (hash_of vault w c.kind normal) (c.iv ++ sealed)
          (as_label-IsLabel c.kind) h in
      ap₂ (◌∷◌) (ap (λ p. p.0) t ∙ o)
        (ap (λ p. answers calls p.1) t ∙ answers_refine calls _ _ seals h')
