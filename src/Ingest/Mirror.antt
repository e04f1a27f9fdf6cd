-- ===== src/Ingest/Mirror.antt =====
-- The daemon over a Zoho drive that stays as it is, from the first cycle on: the cycles of one traversal
-- mirror the drive in document_chunks.
pub mod Small
mod Tests
use mcp_data_gateway.Prelude.{
  ℕ, zero, suc, ◌+◌, ◌-◌, ◌≤◌, ◌<◌, ◌≡◌, ◌↔◌, ◌⊎◌, inl, inr, refl, sym, ap, ap₂, subst, ◌∙◌, String,
  true, false, List, map, [], ◌∷◌, ◌++◌, Option, none, some, arith, length, take, All, All_of_elem,
  Elem,
}
use mcp_data_gateway.Prelude.Int.{ℤ}
use mcp_data_gateway.Prelude.Result.{ok}
use mcp_data_gateway.Connector.{ChangeItem}
use mcp_data_gateway.Connector.Zoho.{watermark_overlap_ms}
use mcp_data_gateway.Connector.Zoho.Bfs.{
  ZohoCursor, ZohoFileItem, PageReply, is_folder, is_deleted, unwrap_or, list_changes, list_from,
  bootstrap,
}
use mcp_data_gateway.Connector.Zoho.Bfs.Visits.{Distinct}
use mcp_data_gateway.Connector.Zoho.Bfs.Crawl.{Below, IsDrive, at, calls, yields_all}
use mcp_data_gateway.Connector.Zoho.Bfs.Drains.{Drained, crawl_drains}
use mcp_data_gateway.Connector.Zoho.Bfs.Yields.{change_of, IsOf, Elem-yields_all, yields_all-origin}
use mcp_data_gateway.Connector.Zoho.Source.{Json, IsJson, from_json}
use mcp_data_gateway.Ingest.{ChunkRow, Db, Env, ingest, process_items}
use mcp_data_gateway.Ingest.Embed.{IsEmbedder}
use mcp_data_gateway.Ingest.Stored.{Draws, target-readable}
use mcp_data_gateway.Chunker.{chunk}
use mcp_data_gateway.Crypto.{IsAead, decrypt}
use mcp_data_gateway.Prelude.Bytes.{Bytes, utf8}
use mcp_data_gateway.Prelude.Text.{Text}
use mcp_data_gateway.Ingest.Rows.{rows_of}
use mcp_data_gateway.Ingest.Cycle.{target}
use mcp_data_gateway.Ingest.Drive.{Lists, cycles}
use mcp_data_gateway.Ingest.Crawled.{AnswersAs, Followed, follow}
use mcp_data_gateway.Ingest.Agree.{Agrees, process_items-Agrees}

-- A file has one folder, and one description there.
abbrev pub HasOnePlace : (String → List ZohoFileItem) → Type 0
HasOnePlace listing =
    (f g : String) (i j : ZohoFileItem)
    → Elem i (listing f)
    → Elem j (listing g)
    → is_folder i ≡ false
    → is_folder j ≡ false
    → i.id ≡ j.id
    → (f ≡ g) × (i ≡ j)

-- The folder is the root or stands below it.
abbrev pub Within : (String → List ZohoFileItem) → String → String → Type 0
Within listing root folder = (folder ≡ root) ⊎ Below listing root folder

module _ (json : Json) (is_json : IsJson json) (format_epoch_ms : ℤ → List ℕ) (fuel : ℕ)
    (page : String → ℕ → ℕ → PageReply) (root : String) (lists : Lists)
    (answers : AnswersAs json format_epoch_ms fuel page root lists) (env : Env)
    (loads : env.loads ≡ true) (saves : env.saves ≡ true) (listing : String → List ZohoFileItem)
    (universe : List String)
    (drive : IsDrive format_epoch_ms fuel (λ x. page x 0) listing root universe) where
  -- What the cycles of one traversal have done.
  pub record Mirrors (times : List ℕ) (db : Db) (count : ℕ) : Type 0 where
    pub found : List String
    pub counts : count ≡ suc (length found)
    pub distinct : Distinct found
    pub exact : (x : String) → Elem x found ↔ Below listing root x
    pub files :
        (folder : String) (item : ZohoFileItem)
        → Within listing root folder
        → Elem item (listing folder)
        → is_folder item ≡ false
        → rows_of item.id (cycles env lists (take count times) db).table
          ≡ target env (change_of format_epoch_ms folder item) (rows_of item.id db.table)
    pub drained :
        (t : ZohoCursor) × (from_json json (cycles env lists (take count times) db).cursor
          ≡ some (some t))
        × (t.queue ≡ [])

  calls-bootstrap :
      (now : ℕ) (times : List ℕ) (changes : List ChangeItem)
      → calls format_epoch_ms fuel page root (now ∷ times) none changes
        ≡ calls format_epoch_ms fuel page root
            (now ∷ times)
            (some (some (bootstrap root now)))
            changes
  unfolding calls list_changes bootstrap
  calls-bootstrap now times changes = refl

  calls_first_run :
      (count now : ℕ) (later : List ℕ) (n : ℕ)
      → 0 + count ≡ suc n
      → calls format_epoch_ms fuel page root (take count (now ∷ later)) none []
        ≡ calls format_epoch_ms fuel page root
            (take count (now ∷ later))
            (some (some (at root 0 now [] (root ∷ []))))
            []
  unfolding bootstrap
  calls_first_run zero now later n e = absurd (omega arith)
  calls_first_run (suc count) now later n e = calls-bootstrap now (take count later) []

  one_place :
      HasOnePlace listing
      → (folder : String) (item : ZohoFileItem) (c : ChangeItem) → Elem item (listing folder)
      → is_folder item ≡ false
      → IsOf format_epoch_ms listing c
      → Agrees env (change_of format_epoch_ms folder item) c
  one_place h folder item c i f o e =
      let (d, s) =
        h o.folder folder o.item item o.listed i o.file f
          (sym (ap (λ u. u.remote_id) o.same) ∙ e) in
      o.same ∙ ap₂ (change_of format_epoch_ms) d s

  Within-found :
      (found : List String) (folder : String)
      → ((x : String) → Elem x found ↔ Below listing root x)
      → Within listing root folder
      → Elem folder (root ∷ found)
  Within-found found folder exact (inl e) = inl e
  Within-found found folder exact (inr b) = inr ((exact folder).1 b)

  cursor_none : (cursor : Option String) → cursor ≡ none → from_json json cursor ≡ none
  unfolding from_json
  cursor_none cursor e = rw e refl

  -- a file, once all changes of the folders that are found were processed
  file_mirrored :
      (found : List String) (folder : String) (item : ZohoFileItem) (table : List ChunkRow)
      → HasOnePlace listing
      → Elem folder (root ∷ found)
      → Elem item (listing folder)
      → is_folder item ≡ false
      → rows_of item.id
          (process_items env (yields_all format_epoch_ms listing (root ∷ found)) table).0
        ≡ target env (change_of format_epoch_ms folder item) (rows_of item.id table)
  file_mirrored found folder item table h e i n =
      let changes = yields_all format_epoch_ms listing (root ∷ found) in
      process_items-Agrees env (change_of format_epoch_ms folder item) changes table
        (All_of_elem (Agrees env (change_of format_epoch_ms folder item)) changes (λ c m.
          one_place h folder item c i n
            (yields_all-origin format_epoch_ms listing (root ∷ found) c m)))
        (Elem-yields_all format_epoch_ms listing (root ∷ found) folder item e i n)

  -- On a drive that stays as it is, whose folders answer and where each file has one place, the daemon
  -- starts without a cursor. Then within as many cycles as there are folders below the root, and one
  -- more, each of these folders was found once and read once, the rows of each file of the drive are what its
  -- change makes of its old ones, and the saved cursor is read back as one whose queue is drained.
  pub cycles-Mirrors :
      (now : ℕ) (later : List ℕ) (db : Db)
      → HasOnePlace listing
      → db.cursor ≡ none
      → length universe ≤ length later
      → (count : ℕ) × (count ≤ suc (length universe)) × Mirrors (now ∷ later) db count
  cycles-Mirrors now later db h e l =
      let enough : length universe < length (now ∷ later) = omega arith in
      let d =
        crawl_drains format_epoch_ms fuel page listing root root 0 now universe drive (now ∷ later)
          enough in
      let f =
        follow json is_json format_epoch_ms fuel page root lists answers env loads saves
          (take d.count (now ∷ later)) db [] _ _
          (ap (λ c. calls format_epoch_ms fuel page root (take d.count (now ∷ later)) c [])
              (cursor_none db.cursor e)
            ∙ calls_first_run d.count now later (length d.found) d.counts
            ∙ d.result) in
      let few : d.count ≤ suc (length universe) = omega (arith, d.counts, d.bounded) in
      let size : d.count ≡ suc (length d.found) = omega (arith, d.counts) in
      (
        d.count,
        few,
        record {
          found = d.found;
          counts = size;
          distinct = d.distinct;
          exact = d.exact;
          files = λ folder item w i n.
              ap (rows_of item.id)
                (f.table ∙ ap (λ m. (process_items env m db.table).0) (sym f.splits))
              ∙ file_mirrored d.found folder item db.table h (Within-found d.found folder d.exact w)
                  i n;
          drained = (_, f.cursor, refl);
        },
      )

  -- On a drive that stays as it is, whose folders answer and where each file has one place, the daemon starts
  -- without a cursor. With a cipher that opens what it sealed, draws of 12 bytes and one embedding for each
  -- text, and a live file whose download, chunks, embeddings and queries succeed: within as many cycles as
  -- there are folders below the root, and one more, the rows of the file are exactly its chunks, in order:
  -- the content key opens each row to the text of its chunk.
  pub cycles-readable :
      (now : ℕ) (later : List ℕ) (db : Db) (folder : String) (item : ZohoFileItem) (content : Bytes)
      (cs : List Text) (p : List Bytes × List Bytes)
      → HasOnePlace listing
      → db.cursor ≡ none
      → length universe ≤ length later
      → Within listing root folder
      → Elem item (listing folder)
      → is_folder item ≡ false
      → is_deleted item ≡ false
      → IsAead env.aead
      → Draws env
      → IsEmbedder env.embed_batch
      → env.connector.download (change_of format_epoch_ms folder item) ≡ ok content
      → chunk (env.extract content (unwrap_or "" item.name)) ≡ some cs
      → env.upserts item.id ≡ true
      → ingest env (change_of format_epoch_ms folder item) ≡ some p
      → (count : ℕ) × (count ≤ suc (length universe))
        × (map
              (λ r. decrypt env.aead env.content_key r.encrypted_content)
              (rows_of item.id (cycles env lists (take count (now ∷ later)) db).table)
            ≡ map (λ c. some (utf8 c)) cs)
  cycles-readable now later db folder item content cs p h none_ l w i n live a draws emb got cut u
        e =
      let (count, few, m) = cycles-Mirrors now later db h none_ l in
      (
        count,
        few,
        ap (map (λ r. decrypt env.aead env.content_key r.encrypted_content))
              (m.files folder item w i n)
            ∙ target-readable env (change_of format_epoch_ms folder item) content cs
                (rows_of item.id db.table) p a draws emb live got cut u e,
      )
