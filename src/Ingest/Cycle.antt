-- ===== src/Ingest/Cycle.antt =====
-- A cycle of the daemon: what it leaves of each item, and where the cursor stands behind it.
use mcp_data_gateway.Prelude.{
  ◌≡◌, ◌≢◌, refl, ap, ap₂, ◌∙◌, String, Bool, true, false, inl, inr, List, [], ◌∷◌, ◌++◌, Option,
  none, some, Bool-cases, if◌then◌else◌, All,
}
use mcp_data_gateway.Prelude.Bytes.{Bytes}
use mcp_data_gateway.Prelude.Result.{ok, err}
use mcp_data_gateway.Connector.{ChangeItem, DeltaResult, ConnectorError}
use mcp_data_gateway.Ingest.{
  ChunkRow, Db, Env, new_rows, ingest, store, turn, process_item, process_items, save_cursor,
  changed, loaded, run_cycle,
}
use mcp_data_gateway.Ingest.Rows.{
  rows_of, rows_of-deleted, rows_of-delete_chunks, rows_of-upserted, rows_of-upsert_chunks,
}

module _ (env : Env) where
  unfoldable pub target_of :
      ChangeItem → Bool → Option (List Bytes × List Bytes) → List ChunkRow → List ChunkRow
  target_of item true o old = if env.deletes item.remote_id then [] else old
  target_of item false none old = old
  target_of item false (some (encs, embs)) old =
      if env.upserts item.remote_id
      then new_rows (env.uuid item.remote_id) env.classification item.remote_id item.name 0 encs
          embs
      else old

  -- What is to become of the rows of an item that had `old` ones: nothing, if it is deleted; those of
  -- the new chunks, if every call for it succeeds; and else the old ones.
  unfoldable pub target : ChangeItem → List ChunkRow → List ChunkRow
  unfolding target_of
  target item old = target_of item item.deleted (ingest env item) old

  store_other :
      (item : ChangeItem) (o : Option (List Bytes × List Bytes)) (x : String)
      (table : List ChunkRow)
      → x ≢ item.remote_id
      → rows_of x (store env item o table).0 ≡ rows_of x table
  unfolding store
  store_other item none x table ne = refl
  store_other item (some (encs, embs)) x table ne = elim (Bool-cases (env.upserts item.remote_id)) [
    | inl e ↦ rw e (
        rows_of-upsert_chunks (env.uuid item.remote_id) env.classification item.remote_id x
          item.name encs embs table ne)
    | inr f ↦ rw f refl
  ]

  turn_other :
      (item : ChangeItem) (deleted : Bool) (x : String) (table : List ChunkRow)
      → x ≢ item.remote_id
      → rows_of x (turn env item deleted table).0 ≡ rows_of x table
  unfolding turn
  turn_other item false x table ne = store_other item (ingest env item) x table ne
  turn_other item true x table ne = elim (Bool-cases (env.deletes item.remote_id)) [
    | inl e ↦ rw e (rows_of-delete_chunks item.remote_id x table ne)
    | inr f ↦ rw f refl
  ]

  pub process_item-other :
      (item : ChangeItem) (x : String) (table : List ChunkRow)
      → x ≢ item.remote_id
      → rows_of x (process_item env item table).0 ≡ rows_of x table
  unfolding process_item
  process_item-other item x table ne = turn_other item item.deleted x table ne

  pub process_items-other :
      (items : List ChangeItem) (x : String) (table : List ChunkRow)
      → All (λ i. x ≢ i.remote_id) items
      → rows_of x (process_items env items table).0 ≡ rows_of x table
  unfolding process_items
  process_items-other [] x table h = refl
  process_items-other (i ∷ items) x table (ne, h) =
      process_items-other items x (process_item env i table).0 h ∙ process_item-other i x table ne

  store_own :
      (item : ChangeItem) (o : Option (List Bytes × List Bytes)) (table : List ChunkRow)
      → rows_of item.remote_id (store env item o table).0
        ≡ target_of item false o (rows_of item.remote_id table)
  unfolding store target_of
  store_own item none table = refl
  store_own item (some (encs, embs)) table = elim (Bool-cases (env.upserts item.remote_id)) [
    | inl u ↦ rw u (
        rows_of-upserted (env.uuid item.remote_id) env.classification item.remote_id item.name encs
          embs table)
    | inr u ↦ rw u refl
  ]

  turn_own :
      (item : ChangeItem) (deleted : Bool) (table : List ChunkRow)
      → rows_of item.remote_id (turn env item deleted table).0
        ≡ target_of item deleted (ingest env item) (rows_of item.remote_id table)
  unfolding turn target_of
  turn_own item false table = store_own item (ingest env item) table
  turn_own item true table = elim (Bool-cases (env.deletes item.remote_id)) [
    | inl e ↦ rw e (rows_of-deleted item.remote_id table)
    | inr f ↦ rw f refl
  ]

  pub process_item-own :
      (item : ChangeItem) (table : List ChunkRow)
      → rows_of item.remote_id (process_item env item table).0
        ≡ target item (rows_of item.remote_id table)
  unfolding process_item target
  process_item-own item table = turn_own item item.deleted table

  pub process_items-append :
      (before after : List ChangeItem) (table : List ChunkRow)
      → (process_items env (before ++ after) table).0
        ≡ (process_items env after (process_items env before table).0).0
  unfolding process_items
  process_items-append [] after table = refl
  process_items-append (i ∷ before) after table =
      process_items-append before after (process_item env i table).0

  process_items-first :
      (item : ChangeItem) (after : List ChangeItem) (table : List ChunkRow)
      → (process_items env (item ∷ after) table).0
        ≡ (process_items env after (process_item env item table).0).0
  unfolding process_items
  process_items-first item after table = refl

  -- The last change of an item decides, and a failure stays with its item: behind the loop, the rows
  -- of an item are what its last change makes of those that the changes in front of it left.
  pub process_items-last :
      (before : List ChangeItem) (item : ChangeItem) (after : List ChangeItem)
      (table : List ChunkRow)
      → All (λ i. item.remote_id ≢ i.remote_id) after
      → rows_of item.remote_id (process_items env (before ++ item ∷ after) table).0
        ≡ target item (rows_of item.remote_id (process_items env before table).0)
  process_items-last before item after table h =
      ap (rows_of item.remote_id) (
        process_items-append before (item ∷ after) table
        ∙ process_items-first item after (process_items env before table).0)
      ∙ process_items-other after item.remote_id
          (process_item env item (process_items env before table).0).0 h
      ∙ process_item-own item (process_items env before table).0

  -- A file whose download fails.
  abbrev pub Failing : ChangeItem → Type 0
  Failing item =
      (item.deleted ≡ false) × (e : ConnectorError) × (env.connector.download item ≡ err e)

  ingest_failing :
      (item : ChangeItem) (e : ConnectorError)
      → env.connector.download item ≡ err e
      → ingest env item ≡ none
  unfolding ingest
  ingest_failing item e h = rw (h, ingest) refl

  turn_failing :
      (item : ChangeItem) (deleted : Bool) (e : ConnectorError) (table : List ChunkRow)
      → deleted ≡ false
      → env.connector.download item ≡ err e
      → turn env item deleted table ≡ (table, 0)
  unfolding turn store
  turn_failing item true e table d h = cc
  turn_failing item false e table d h = ap (λ o. store env item o table) (ingest_failing item e h)

  process_items-Failing :
      (items : List ChangeItem) (table : List ChunkRow)
      → All Failing items
      → process_items env items table ≡ (table, 0)
  unfolding process_items process_item
  process_items-Failing [] table h = refl
  process_items-Failing (i ∷ items) table ((d, e, f), h) =
      rw (turn_failing i i.deleted e table d f, process_items-Failing items table h) refl

  -- Where every download of a cycle fails, the cycle ends well and nothing is stored, and the new cursor
  -- is saved all the same.
  pub run_cycle-Failing :
      (db : Db) (delta : DeltaResult String) (c : String)
      → env.loads ≡ true
      → env.saves ≡ true
      → env.connector.list_changes db.cursor ≡ ok delta
      → delta.next_cursor ≡ some c
      → All Failing delta.changes
      → run_cycle env db ≡ (record { table = db.table; cursor = some c }, ok 0)
  unfolding run_cycle loaded changed save_cursor
  run_cycle-Failing db delta c l s h n f =
      ap (loaded env db) l
      ∙ ap (changed env db) h
      ∙ ap₂ (save_cursor env.saves db.cursor) (process_items-Failing delta.changes db.table f) n
      ∙ ap (λ b. save_cursor b db.cursor (db.table, 0) (some c)) s

  -- A cycle whose connector cannot list its changes leaves the tables alone.
  pub run_cycle-unlisted :
      (db : Db) (e : ConnectorError)
      → env.connector.list_changes db.cursor ≡ err e
      → (run_cycle env db).0 ≡ db
  unfolding run_cycle loaded changed
  run_cycle-unlisted db e h = elim (Bool-cases env.loads) [
    | inl l ↦ rw (l, h) refl
    | inr l ↦ rw l refl
  ]
