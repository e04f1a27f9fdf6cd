-- ===== src/Ingest/Drive.antt =====
-- Cycles over a Zoho drive: `run_cycle` of main.rs with the connector of zoho.rs, whose cursor is the text
-- that the cycle in front saved.
use mcp_data_gateway.Prelude.{
  ℕ, ◌+◌, ◌≡◌, refl, ap, ◌∙◌, inl, inr, String, Bool, true, false, List, [], ◌∷◌, Option, none,
  some, Option-cases,
}
use mcp_data_gateway.Prelude.Text.{Text}
use mcp_data_gateway.Prelude.Bytes.{Bytes, utf8}
use mcp_data_gateway.Prelude.Result.{ok, err, Result-cases}
use mcp_data_gateway.Chunker.{chunk}
use mcp_data_gateway.Connector.{ChangeItem, DeltaResult, Outcome}
use mcp_data_gateway.Ingest.Cipher.{encrypt}
use mcp_data_gateway.Ingest.{
  ChunkRow, Db, Env, encrypt_all, embedded, from_chunks, from_text, ingest, store, turn,
  process_item, process_items, save_cursor, changed, loaded, run_cycle,
}

-- The changes that a connector answers with at a time, for a cursor.
abbrev pub Lists : Type 0
Lists = ℕ → Option String → Outcome (DeltaResult String)

module _ (env : Env) (lists : Lists) where
  -- what a cycle at some time meets
  abbrev pub env_at : ℕ → Env
  env_at now = record env {
    connector = record { list_changes = lists now; download = env.connector.download };
  }

  -- Cycles at some times, each on the tables that the one in front of it left.
  unfoldable pub cycles : List ℕ → Db → Db
  cycles [] db = db
  cycles (now ∷ times) db = cycles times (run_cycle (env_at now) db).0

  -- What an item leads to does not depend on how the changes are listed.
  encrypt_all_at :
      (now : ℕ) (id : String) (i : ℕ) (cs : List Text)
      → encrypt_all (env_at now) id i cs ≡ encrypt_all env id i cs
  unfolding encrypt_all
  encrypt_all_at now id i [] = refl
  encrypt_all_at now id i (c ∷ cs) =
      elim (Option-cases (encrypt env.aead (env.fill id i) env.content_key (utf8 c))) [
        | inl e ↦ rw (e, encrypt_all) refl
        | inr (enc, e) ↦ rw (e, encrypt_all) (rw (encrypt_all_at now id (i + 1) cs) refl)
      ]

  embedded_at :
      (now : ℕ) (cs : List Text) (o : Option (List Bytes))
      → embedded (env_at now) cs o ≡ embedded env cs o
  unfolding embedded
  embedded_at now cs none = refl
  embedded_at now cs (some encs) = refl

  from_chunks_at :
      (now : ℕ) (item : ChangeItem) (o : Option (List Text))
      → from_chunks (env_at now) item o ≡ from_chunks env item o
  unfolding from_chunks
  from_chunks_at now item none = refl
  from_chunks_at now item (some []) = refl
  from_chunks_at now item (some (c ∷ cs)) =
      ap (embedded (env_at now) (c ∷ cs)) (encrypt_all_at now item.remote_id 0 (c ∷ cs))
      ∙ embedded_at now (c ∷ cs) (encrypt_all env item.remote_id 0 (c ∷ cs))

  from_text_at :
      (now : ℕ) (item : ChangeItem) (t : Text)
      → from_text (env_at now) item t ≡ from_text env item t
  unfolding from_text
  from_text_at now item [] = refl
  from_text_at now item (c ∷ s) = from_chunks_at now item (chunk (c ∷ s))

  ingest_at : (now : ℕ) (item : ChangeItem) → ingest (env_at now) item ≡ ingest env item
  unfolding ingest
  ingest_at now item = elim (Result-cases (env.connector.download item)) [
    | inl (content, e) ↦ rw (e, ingest) (from_text_at now item (env.extract content item.name))
    | inr (e, f) ↦ rw (f, ingest) refl
  ]

  store_at :
      (now : ℕ) (item : ChangeItem) (o : Option (List Bytes × List Bytes)) (table : List ChunkRow)
      → store (env_at now) item o table ≡ store env item o table
  unfolding store
  store_at now item none table = refl
  store_at now item (some (encs, embs)) table = refl

  turn_at :
      (now : ℕ) (item : ChangeItem) (deleted : Bool) (table : List ChunkRow)
      → turn (env_at now) item deleted table ≡ turn env item deleted table
  unfolding turn
  turn_at now item true table = refl
  turn_at now item false table =
      ap (λ o. store (env_at now) item o table) (ingest_at now item)
      ∙ store_at now item (ingest env item) table

  process_items_at :
      (now : ℕ) (items : List ChangeItem) (table : List ChunkRow)
      → process_items (env_at now) items table ≡ process_items env items table
  unfolding process_items process_item
  process_items_at now [] table = refl
  process_items_at now (item ∷ items) table =
      rw
        (
          turn_at now item item.deleted table,
          process_items_at now items (turn env item item.deleted table).0,
        )
        refl

  saved_lem :
      (old : Option String) (p : List ChunkRow × ℕ) (saves : Bool) (next : Option String)
      (c : String)
      → saves ≡ true
      → next ≡ some c
      → (save_cursor saves old p next).0 ≡ record { table = p.0; cursor = some c }
  unfolding save_cursor
  saved_lem old (t, n) saves next c s e = rw (s, e) refl

  -- a cycle that lists changes with a new cursor
  pub run_cycle_at :
      (now : ℕ) (db : Db) (r : DeltaResult String) (c : String)
      → env.loads ≡ true
      → env.saves ≡ true
      → lists now db.cursor ≡ ok r
      → r.next_cursor ≡ some c
      → (run_cycle (env_at now) db).0
        ≡ record { table = (process_items env r.changes db.table).0; cursor = some c }
  unfolding run_cycle loaded changed
  run_cycle_at now db r c l s h n =
      ap (λ b. (loaded (env_at now) db b).0) l
      ∙ ap (λ o. (changed (env_at now) db o).0) h
      ∙ saved_lem db.cursor (process_items (env_at now) r.changes db.table) env.saves r.next_cursor
          c s n
      ∙ ap (λ p. record { table = p.0; cursor = some c }) (process_items_at now r.changes db.table)

saved-none :
    (saves : Bool) (old : Option String) (p : List ChunkRow × ℕ) (next : Option String)
    → (save_cursor saves old p next).0.cursor ≡ none
    → old ≡ none
unfolding save_cursor
saved-none saves old (t, n) none h = h
saved-none true old (t, n) (some c) h = cc
saved-none false old (t, n) (some c) h = h

changed-none :
    (env : Env) (db : Db) (o : Outcome (DeltaResult String))
    → (changed env db o).0.cursor ≡ none
    → db.cursor ≡ none
unfolding changed
changed-none env db (err e) h = h
changed-none env db (ok delta) h =
    saved-none env.saves db.cursor (process_items env delta.changes db.table) delta.next_cursor h

loaded-none :
    (env : Env) (db : Db) (loads : Bool) → (loaded env db loads).0.cursor ≡ none → db.cursor ≡ none
unfolding loaded
loaded-none env db false h = h
loaded-none env db true h = changed-none env db (env.connector.list_changes db.cursor) h

-- A cycle takes no cursor away.
pub run_cycle-none : (env : Env) (db : Db) → (run_cycle env db).0.cursor ≡ none → db.cursor ≡ none
unfolding run_cycle
run_cycle-none env db h = loaded-none env db env.loads h
