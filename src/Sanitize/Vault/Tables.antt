-- ===== src/Sanitize/Vault/Tables.antt =====
-- The two tables of the vault: the lookups behind an insert and behind a bump.
use mcp_data_gateway.Prelude.{
  ℕ, ◌+◌, ◌≡◌, ◌≢◌, refl, ap, ap₂, sym, ◌∙◌, Bool, true, false, ◌&&◌, inl, inr, List, [], ◌∷◌, none,
  some, Bool-cases, ◌==◌, ==_iff, if◌then◌else◌,
}
use mcp_data_gateway.Prelude.Bytes.{Bytes, bytes_eq, and_true, bytes_eq_refl, eq_of_bytes_eq}
use mcp_data_gateway.Prelude.Text.{Text}
use mcp_data_gateway.Sanitize.Vault.{
  RowKey, TokenRow, CounterRow, key_eq, lookup_existing, current_id, bump,
}

pub bytes_ne : (s t : Bytes) → s ≢ t → bytes_eq s t ≡ false
bytes_ne s t ne = elim (Bool-cases (bytes_eq s t)) [
  | inl e ↦ absurd (ne (eq_of_bytes_eq s t e))
  | inr f ↦ f
]

-- A workspace and a kind: the primary key of the counters.
abbrev pub pair_eq : ℕ → Text → ℕ → Text → Bool
pair_eq w k w' k' = w == w' && bytes_eq k k'

pub pair_eq_refl : (w : ℕ) (k : Text) → pair_eq w k w k ≡ true
pair_eq_refl w k = rw ((==_iff w w).1 refl, bytes_eq_refl k) refl

pair_eq-parts :
    (w : ℕ) (k : Text) (w' : ℕ) (k' : Text) → pair_eq w k w' k' ≡ true → (w ≡ w') × (k ≡ k')
pair_eq-parts w k w' k' h =
    let (e, f) = and_true (w == w') (bytes_eq k k') h in ((==_iff w w').0 e, eq_of_bytes_eq k k' f)

-- equal pairs compare alike to a third
pair_eq-same :
    (w : ℕ) (k : Text) (w' : ℕ) (k' : Text) (v : ℕ) (l : Text)
    → pair_eq w k w' k' ≡ true
    → pair_eq w k v l ≡ pair_eq w' k' v l
pair_eq-same w k w' k' v l h =
    let (e, f) = pair_eq-parts w k w' k' h in ap₂ (λ a b. pair_eq a b v l) e f

pair_eq_swap :
    (w : ℕ) (k : Text) (w' : ℕ) (k' : Text) → pair_eq w k w' k' ≡ true → pair_eq w' k' w k ≡ true
pair_eq_swap w k w' k' h = sym (pair_eq-same w k w' k' w k h) ∙ pair_eq_refl w k

pub key_eq_refl : (k : RowKey) → key_eq k k ≡ true
key_eq_refl k =
    rw
      (
        (==_iff k.workspace_id k.workspace_id).1 refl,
        bytes_eq_refl k.entity_kind,
        bytes_eq_refl k.lookup_hash,
      )
      refl

pub eq_of_key_eq : (a b : RowKey) → key_eq a b ≡ true → a ≡ b
eq_of_key_eq a b h =
    let (e, h') = and_true (a.workspace_id == b.workspace_id) _ h in
    let (f, g) = and_true (bytes_eq a.entity_kind b.entity_kind) _ h' in
    let same : record {
      workspace_id = a.workspace_id;
      entity_kind = a.entity_kind;
      lookup_hash = a.lookup_hash;
    }
        ≡ b =
      cc (
        (==_iff a.workspace_id b.workspace_id).0 e,
        eq_of_bytes_eq a.entity_kind b.entity_kind f,
        eq_of_bytes_eq a.lookup_hash b.lookup_hash g,
      ) in
    same

-- What an inserted row and the rows behind it answer to a lookup.
pub lookup-insert_self :
    (row : TokenRow) (rows : List TokenRow) → lookup_existing (row ∷ rows) row.key ≡ some row.token
unfolding lookup_existing
lookup-insert_self row rows = rw (key_eq_refl row.key) refl

pub lookup-insert_held :
    (row : TokenRow) (rows : List TokenRow) (k : RowKey) (t : Text)
    → lookup_existing rows row.key ≡ none
    → lookup_existing rows k ≡ some t
    → lookup_existing (row ∷ rows) k ≡ some t
unfolding lookup_existing
lookup-insert_held row rows k t fresh held = elim (Bool-cases (key_eq row.key k)) [
  | inr f ↦ rw f held
  | inl e ↦ cc (ap (lookup_existing rows) (eq_of_key_eq row.key k e), fresh, held)
]

apart :
    (v : ℕ) (l : Text) (w : ℕ) (k : Text) (w' : ℕ) (k' : Text)
    → pair_eq v l w k ≡ false
    → pair_eq v l w' k' ≡ true
    → pair_eq w k w' k' ≡ false
apart v l w k w' k' a b = elim (Bool-cases (pair_eq w k w' k')) [
  | inr f ↦ f
  | inl e ↦ cc (sym (pair_eq-same v l w' k' w k b) ∙ a, pair_eq_swap w k w' k' e)
]

-- the next id behind a bump
pub current_id-bump :
    (counters : List CounterRow) (w : ℕ) (k : Text) (w' : ℕ) (k' : Text)
    → current_id (bump counters w k) w' k'
      ≡ (if pair_eq w k w' k' then current_id counters w' k' + 1 else current_id counters w' k')
unfolding current_id bump
current_id-bump [] w k w' k' = refl
current_id-bump (c ∷ counters) w k w' k' =
    elim (Bool-cases (pair_eq c.workspace_id c.entity_kind w k)) [
      | inl a ↦
          let same = pair_eq-same c.workspace_id c.entity_kind w k w' k' a in
          elim (Bool-cases (pair_eq c.workspace_id c.entity_kind w' k')) [
            | inl b ↦ rw (a, sym same, b) refl
            | inr b ↦ rw (a, sym same, b) refl
          ]
      | inr a ↦ elim (Bool-cases (pair_eq c.workspace_id c.entity_kind w' k')) [
        | inl b ↦ rw (a, b, apart c.workspace_id c.entity_kind w k w' k' a b) refl
        | inr b ↦ rw (a, b) (current_id-bump counters w k w' k')
      ]
    ]
