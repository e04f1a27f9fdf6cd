-- ===== src/Sanitize/Vault/Ranks.antt =====
-- What the vault promises to one workspace: a list of the values seen, newest first, in which the token of a
-- value is its kind and its rank among the values of its kind.
use mcp_data_gateway.Prelude.{
  ℕ, ◌+◌, ◌≤◌, ◌<◌, ◌≡◌, refl, ap, ap₂, sym, ◌∙◌, true, false, ◌&&◌, inl, inr, List, [], ◌∷◌,
  Option, none, some, Bool-cases, ==_iff, if◌then◌else◌, arith,
}
use mcp_data_gateway.Prelude.Bytes.{Bytes, bytes_eq, bytes_eq_refl, eq_of_bytes_eq}
use mcp_data_gateway.Prelude.Text.{Text}
use mcp_data_gateway.Sanitize.Vault.{
  RowKey, TokenRow, VaultDb, key_eq, lookup_existing, has_token, current_id, new_token,
}
use mcp_data_gateway.Sanitize.Vault.Decimal.{IsLabel, new_token-injective}

-- A value: its label and its hash.
abbrev pub Seen : Type 0
Seen = Text × Bytes

-- how many values of a kind
unfoldable pub count : Text → List Seen → ℕ
count kind [] = 0
count kind (s ∷ seen) = let rest = count kind seen in if bytes_eq s.0 kind then rest + 1 else rest

-- the token of a value, if it was seen
unfoldable pub token_of : List Seen → Text → Bytes → Option Text
token_of [] kind hash = none
token_of (s ∷ seen) kind hash =
    let rest = token_of seen kind hash in
    if bytes_eq s.0 kind && bytes_eq s.1 hash
    then some (new_token s.0 (count s.0 seen + 1))
    else rest

-- The token of a value, which is now seen.
unfoldable pub ask : List Seen → Text → Bytes → Text × List Seen
ask seen kind hash = elim (token_of seen kind hash) [
  | some t ↦ (t, seen)
  | none ↦ (new_token kind (count kind seen + 1), (kind, hash) ∷ seen)
]

abbrev pub key_in : ℕ → Text → Bytes → RowKey
key_in w kind hash = record { workspace_id = w; entity_kind = kind; lookup_hash = hash }

-- The rows of pii_token_map are those of the values seen, with their ranks.
abbrev pub AreRows : ℕ → List TokenRow → List Seen → Type 0
AreRows w [] [] = Unit
AreRows w (r ∷ rows) (s ∷ seen) =
    (r.key ≡ key_in w s.0 s.1)
    × (r.token ≡ new_token s.0 (count s.0 seen + 1))
    × IsLabel s.0
    × AreRows w rows seen
AreRows w _ _ = ⊥

-- The tables hold what a workspace has seen, and nothing else.
pub record Holds (w : ℕ) (v : VaultDb) (seen : List Seen) : Type 0 where
  pub rows : AreRows w v.rows seen
  pub counted : (kind : Text) → current_id v.counters w kind ≡ count kind seen + 1

key_eq-key_in :
    (w : ℕ) (k l : Text) (g h : Bytes)
    → key_eq (key_in w k g) (key_in w l h) ≡ (bytes_eq k l && bytes_eq g h)
key_eq-key_in w k l g h = rw ((==_iff w w).1 refl) refl

lookup_first :
    (r : TokenRow) (rows : List TokenRow) (k : RowKey)
    → lookup_existing (r ∷ rows) k
      ≡ (if key_eq r.key k then some r.token else lookup_existing rows k)
unfolding lookup_existing
lookup_first r rows k = refl

-- A lookup finds the token of the rank.
pub lookup-AreRows :
    (w : ℕ) (rows : List TokenRow) (seen : List Seen) (kind : Text) (hash : Bytes)
    → AreRows w rows seen
    → lookup_existing rows (key_in w kind hash) ≡ token_of seen kind hash
unfolding token_of lookup_existing
lookup-AreRows w [] [] kind hash h = refl
lookup-AreRows w [] (s ∷ seen) kind hash h = elim h [ ]
lookup-AreRows w (r ∷ rows) [] kind hash h = elim h [ ]
lookup-AreRows w (r ∷ rows) (s ∷ seen) kind hash (e, t, l, h) =
    ap₂
      (λ k u.
        if key_eq k (key_in w kind hash) then some u else lookup_existing rows (key_in w kind hash))
      e t
    ∙ ap₂ (λ b o. if b then some (new_token s.0 (count s.0 seen + 1)) else o)
        (key_eq-key_in w s.0 kind s.1 hash) (lookup-AreRows w rows seen kind hash h)

count_first :
    (kind : Text) (s : Seen) (seen : List Seen)
    → bytes_eq s.0 kind ≡ true
    → count kind (s ∷ seen) ≡ count kind seen + 1
unfolding count
count_first kind s seen e = rw e refl

count_later : (kind : Text) (s : Seen) (seen : List Seen) → count kind seen ≤ count kind (s ∷ seen)
unfolding count
count_later kind s seen = ground arith

-- No row has a token of a higher rank.
pub has_token-AreRows :
    (w : ℕ) (rows : List TokenRow) (seen : List Seen) (kind : Text) (n : ℕ)
    → AreRows w rows seen
    → IsLabel kind
    → count kind seen < n
    → has_token rows (new_token kind n) ≡ false
unfolding has_token
has_token-AreRows w [] [] kind n h i l = refl
has_token-AreRows w [] (s ∷ seen) kind n h i l = elim h [ ]
has_token-AreRows w (r ∷ rows) [] kind n h i l = elim h [ ]
has_token-AreRows w (r ∷ rows) (s ∷ seen) kind n (e, t, ls, h) i l =
    elim (Bool-cases (bytes_eq r.token (new_token kind n))) [
      | inr f ↦
          rw f (has_token-AreRows w rows seen kind n h i (omega (arith, count_later kind s seen)))
      | inl b ↦
          let (same, m) =
            new_token-injective s.0 kind (count s.0 seen + 1) n ls i
              (sym t ∙ eq_of_bytes_eq r.token (new_token kind n) b) in
          let here = count_first kind s seen (ap (bytes_eq s.0) (sym same) ∙ bytes_eq_refl s.0) in
          let there : count s.0 seen ≡ count kind seen = ap (λ u. count u seen) same in
          absurd (omega (arith, here, there, m, l))
    ]
