-- ===== src/Ingest/Opens.antt =====
-- Every row that the daemon writes is one that the content key opens.
use text.Mathlib.Text.{◌==◌ as str_eq}
use mcp_data_gateway.Prelude.{
  ℕ, ◌+◌, ◌≡◌, refl, ap, sym, subst, ◌∙◌, String, Bool, true, false, inl, inr, List, [], ◌∷◌,
  Option, none, some, some-injective, Option-cases, Bool-cases, All, All-append,
}
use mcp_data_gateway.Prelude.Text.{Text}
use mcp_data_gateway.Prelude.Bytes.{Bytes, utf8}
use mcp_data_gateway.Prelude.Result.{ok, err, Result-cases}
use mcp_data_gateway.Chunker.{chunk}
use mcp_data_gateway.Connector.{ChangeItem, DeltaResult, Outcome}
use mcp_data_gateway.Crypto.{Aead, IsAead, decrypt}
use mcp_data_gateway.Ingest.Cipher.{encrypt}
use mcp_data_gateway.Ingest.Cipher.Laws.{decrypt-encrypt_same}
use mcp_data_gateway.Ingest.{
  ChunkRow, Db, Env, delete_chunks, new_rows, upsert_chunks, encrypt_all, embedded, from_chunks,
  from_text, ingest, store, turn, process_item, process_items, save_cursor, changed, loaded,
  run_cycle,
}
use mcp_data_gateway.Ingest.Stored.{Draws}

-- The key opens the bytes.
abbrev pub IsOpen : Aead → Bytes → Bytes → Type 0
IsOpen aead key wire = (plain : Bytes) × (decrypt aead key wire ≡ some plain)

abbrev pub RowIsOpen : Aead → Bytes → ChunkRow → Type 0
RowIsOpen aead key r = IsOpen aead key r.encrypted_content

delete_chunks-All :
    (P : ChunkRow → Type 0) (id : String) (table : List ChunkRow)
    → All P table
    → All P (delete_chunks id table)
unfolding delete_chunks
delete_chunks-All P id [] h = tt
delete_chunks-All P id (r ∷ table) (p, h) = elim (Bool-cases (str_eq r.source_item_id id)) [
  | inl e ↦ rw e (delete_chunks-All P id table h)
  | inr n ↦ rw n (p, delete_chunks-All P id table h)
]

module _ (env : Env) (a : IsAead env.aead) (draws : Draws env) where
  abbrev Opened : Bytes → Type 0
  Opened = IsOpen env.aead env.content_key

  abbrev OpenRow : ChunkRow → Type 0
  OpenRow = RowIsOpen env.aead env.content_key

  encrypt_all-Opened :
      (id : String) (i : ℕ) (cs : List Text) (encs : List Bytes)
      → encrypt_all env id i cs ≡ some encs
      → All Opened encs
  unfolding encrypt_all
  encrypt_all-Opened id i [] encs e = subst (All Opened) (some-injective _ _ e) tt
  encrypt_all-Opened id i (c ∷ cs) encs e =
      elim (Option-cases (encrypt env.aead (env.fill id i) env.content_key (utf8 c))) [
        | inl n ↦ cc (rw (n, encrypt_all) at e)
        | inr (enc, h) ↦ elim (Option-cases (encrypt_all env id (i + 1) cs)) [
          | inl n ↦ cc (rw (h, encrypt_all, n) at e)
          | inr (rest, g) ↦
              let (iv, f, l) = draws id i in
              subst (All Opened) (some-injective _ _ (rw (h, encrypt_all, g) at e)) (
                (
                  utf8 c,
                  decrypt-encrypt_same env.aead iv env.content_key (utf8 c) enc a l
                      (ap (λ o. encrypt env.aead o env.content_key (utf8 c)) (sym f) ∙ h),
                ),
                encrypt_all-Opened id (i + 1) cs rest g,
              )
        ]
      ]

  new_rows-OpenRow :
      (uuid : ℕ → ℕ) (class : Text) (id name : String) (i : ℕ) (encs embs : List Bytes)
      → All Opened encs
      → All OpenRow (new_rows uuid class id name i encs embs)
  unfolding new_rows
  new_rows-OpenRow uuid class id name i [] embs h = tt
  new_rows-OpenRow uuid class id name i (enc ∷ encs) [] h = tt
  new_rows-OpenRow uuid class id name i (enc ∷ encs) (emb ∷ embs) (p, h) =
      (p, new_rows-OpenRow uuid class id name (i + 1) encs embs h)

  -- what an item has to store
  abbrev Sealed : Option (List Bytes × List Bytes) → Type 0
  Sealed none = Unit
  Sealed (some (encs, embs)) = All Opened encs

  embedded-Sealed :
      (cs : List Text) (o : Option (List Bytes))
      → ((encs : List Bytes) → o ≡ some encs → All Opened encs)
      → Sealed (embedded env cs o)
  unfolding embedded
  embedded-Sealed cs none h = tt
  embedded-Sealed cs (some encs) h = elim (Option-cases (env.embed_batch cs)) [
    | inl n ↦ rw (n, embedded) tt
    | inr (embs, e) ↦ rw (e, embedded) (h encs refl)
  ]

  from_chunks-Sealed :
      (item : ChangeItem) (o : Option (List Text)) → Sealed (from_chunks env item o)
  unfolding from_chunks
  from_chunks-Sealed item none = tt
  from_chunks-Sealed item (some []) = tt
  from_chunks-Sealed item (some (c ∷ cs)) =
      embedded-Sealed (c ∷ cs) (encrypt_all env item.remote_id 0 (c ∷ cs))
        (encrypt_all-Opened item.remote_id 0 (c ∷ cs))

  from_text-Sealed : (item : ChangeItem) (t : Text) → Sealed (from_text env item t)
  unfolding from_text
  from_text-Sealed item [] = tt
  from_text-Sealed item (c ∷ s) = from_chunks-Sealed item (chunk (c ∷ s))

  ingest-Sealed : (item : ChangeItem) → Sealed (ingest env item)
  unfolding ingest
  ingest-Sealed item = elim (Result-cases (env.connector.download item)) [
    | inl (content, e) ↦ rw (e, ingest) (from_text-Sealed item (env.extract content item.name))
    | inr (e, f) ↦ rw (f, ingest) tt
  ]

  store-OpenRow :
      (item : ChangeItem) (o : Option (List Bytes × List Bytes)) (table : List ChunkRow)
      → Sealed o
      → All OpenRow table
      → All OpenRow (store env item o table).0
  unfolding store upsert_chunks
  store-OpenRow item none table s h = h
  store-OpenRow item (some (encs, embs)) table s h =
      elim (Bool-cases (env.upserts item.remote_id)) [
        | inl u ↦ rw u (
            All-append OpenRow (delete_chunks item.remote_id table)
              (new_rows (env.uuid item.remote_id) env.classification item.remote_id item.name 0 encs
                embs)
              (delete_chunks-All OpenRow item.remote_id table h)
              (new_rows-OpenRow (env.uuid item.remote_id) env.classification item.remote_id
                item.name 0 encs embs s))
        | inr u ↦ rw u h
      ]

  turn-OpenRow :
      (item : ChangeItem) (deleted : Bool) (table : List ChunkRow)
      → All OpenRow table
      → All OpenRow (turn env item deleted table).0
  unfolding turn
  turn-OpenRow item false table h =
      store-OpenRow item (ingest env item) table (ingest-Sealed item) h
  turn-OpenRow item true table h = elim (Bool-cases (env.deletes item.remote_id)) [
    | inl e ↦ rw e (delete_chunks-All OpenRow item.remote_id table h)
    | inr e ↦ rw e h
  ]

  process_items-OpenRow :
      (items : List ChangeItem) (table : List ChunkRow)
      → All OpenRow table
      → All OpenRow (process_items env items table).0
  unfolding process_items process_item
  process_items-OpenRow [] table h = h
  process_items-OpenRow (item ∷ items) table h =
      process_items-OpenRow items (turn env item item.deleted table).0
        (turn-OpenRow item item.deleted table h)

  saved-OpenRow :
      (saves : Bool) (old : Option String) (p : List ChunkRow × ℕ) (next : Option String)
      → All OpenRow p.0
      → All OpenRow (save_cursor saves old p next).0.table
  unfolding save_cursor
  saved-OpenRow saves old (t, n) none h = h
  saved-OpenRow true old (t, n) (some c) h = h
  saved-OpenRow false old (t, n) (some c) h = h

  changed-OpenRow :
      (db : Db) (o : Outcome (DeltaResult String))
      → All OpenRow db.table
      → All OpenRow (changed env db o).0.table
  unfolding changed
  changed-OpenRow db (err e) h = h
  changed-OpenRow db (ok delta) h =
      saved-OpenRow env.saves db.cursor (process_items env delta.changes db.table) delta.next_cursor
        (process_items-OpenRow delta.changes db.table h)

  loaded-OpenRow :
      (db : Db) (loads : Bool) → All OpenRow db.table → All OpenRow (loaded env db loads).0.table
  unfolding loaded
  loaded-OpenRow db false h = h
  loaded-OpenRow db true h = changed-OpenRow db (env.connector.list_changes db.cursor) h

  -- With a cipher that opens what it sealed and draws of 12 bytes, a table of rows that the content key
  -- opens is such a table behind a cycle, whatever fails in it.
  pub run_cycle-OpenRow :
      (db : Db)
      → All (RowIsOpen env.aead env.content_key) db.table
      → All (RowIsOpen env.aead env.content_key) (run_cycle env db).0.table
  unfolding run_cycle
  run_cycle-OpenRow db h = loaded-OpenRow db env.loads h
