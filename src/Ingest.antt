-- ===== src/Ingest.antt =====
-- `run_cycle` and `extract_text` of ingestion/src/main.rs, with the queries of db.rs and state.rs. The database
-- is a record: the rows of document_chunks, and the saved cursor of the connector. The connector, the
-- embedding client and whether a query succeeds are parameters.
pub mod Rows
pub mod Cycle
pub mod Cipher
pub mod Stored
pub mod Opens
pub mod Embed
pub mod Drive
pub mod Crawled
mod Agree
pub mod Alike
pub mod Mirror
pub mod TwoFiles
mod Tests
use text.Mathlib.Text.{◌==◌ as str_eq}
use mcp_data_gateway.Prelude.{
  ℕ, zero, suc, ◌+◌, String, Bool, true, false, not, ◌||◌, List, [], ◌∷◌, ◌++◌, Option, none, some,
  if◌then◌else◌,
}
use mcp_data_gateway.Prelude.Text.{Text, codes}
use mcp_data_gateway.Prelude.Bytes.{Bytes, utf8, ends_with}
use mcp_data_gateway.Prelude.Result.{Result, ok, err}
use mcp_data_gateway.Chunker.{chunk}
use mcp_data_gateway.Connector.{ChangeItem, DeltaResult, Outcome}
use mcp_data_gateway.Crypto.{Aead}
use mcp_data_gateway.Ingest.Cipher.{encrypt}

-- A row of document_chunks; the embedding is its vector literal, and a `Uuid` is a number.
pub record ChunkRow : Type 0 where
  pub id : ℕ
  pub classification : Text
  pub source_item_id : String
  pub doc_name : String
  pub chunk_index : ℕ
  pub encrypted_content : Bytes
  pub embedding : Bytes

pub record Db : Type 0 where
  pub table : List ChunkRow
  pub cursor : Option String

-- DELETE FROM document_chunks WHERE source_item_id = $1
pub delete_chunks : String → List ChunkRow → List ChunkRow
delete_chunks id [] = []
delete_chunks id (r ∷ table) =
    let rest = delete_chunks id table in if str_eq r.source_item_id id then rest else r ∷ rest

-- The rows that are inserted: the zip of the encrypted chunks and their embeddings, numbered from `i`;
-- `uuid i` is what `Uuid::new_v4` draws for the i-th.
unfoldable pub new_rows :
    (ℕ → ℕ) → Text → String → String → ℕ → List Bytes → List Bytes → List ChunkRow
new_rows uuid class id name i (enc ∷ encs) (emb ∷ embs) =
    record {
      id = uuid i;
      classification = class;
      source_item_id = id;
      doc_name = name;
      chunk_index = i;
      encrypted_content = enc;
      embedding = emb;
    }
    ∷ new_rows uuid class id name (i + 1) encs embs
new_rows uuid class id name i _ _ = []

unfoldable pub upsert_chunks :
    (ℕ → ℕ) → Text → String → String → List Bytes → List Bytes → List ChunkRow → List ChunkRow
upsert_chunks uuid class id name encs embs table =
    delete_chunks id table ++ new_rows uuid class id name 0 encs embs

-- `str::from_utf8`, its lossy form and `to_lowercase` are parameters; times of no extension are read as UTF-8
unfoldable pub extract_text :
    (Bytes → Text) → (Bytes → Option Text) → (String → Bytes) → Bytes → String → Text
extract_text lossy strict lowercase content filename =
    let lower = lowercase filename in
    if ends_with lower (codes ".txt")
      || ends_with lower (codes ".md")
      || ends_with lower (codes ".rst")
    then lossy content
    else if ends_with lower (codes ".pdf")
        || ends_with lower (codes ".docx")
        || ends_with lower (codes ".doc")
        || ends_with lower (codes ".pptx")
    then []
    else elim (strict content) [ none ↦ [] | some s ↦ s ]

-- A connector (`SourceConnector`), with cursors as texts.
pub record SourceConnector : Type 0 where
  pub list_changes : Option String → Outcome (DeltaResult String)
  pub download : ChangeItem → Outcome Bytes

-- What else the cycle calls: `extract` is `extract_text`, `fill` what the encryption of a chunk of a file
-- draws, `uuid` the id that is drawn for its row, and the Booleans say which queries succeed.
pub record Env : Type 0 where
  pub connector : SourceConnector
  pub extract : Bytes → String → Text
  pub aead : Aead
  pub fill : String → ℕ → Option Bytes
  pub content_key : Bytes
  pub classification : Text
  pub uuid : String → ℕ → ℕ
  pub embed_batch : List Text → Option (List Bytes)
  pub loads : Bool
  pub saves : Bool
  pub deletes : String → Bool
  pub upserts : String → Bool

-- the chunks encrypted, if every call succeeds
pub encrypt_all : Env → String → ℕ → List Text → Option (List Bytes)
encrypt_all env id i [] = some []
encrypt_all env id i (c ∷ cs) = elim (encrypt env.aead (env.fill id i) env.content_key (utf8 c)) [
  | none ↦ none
  | some enc ↦ elim (encrypt_all env id (i + 1) cs) [ none ↦ none | some encs ↦ some (enc ∷ encs) ]
]

-- the encrypted chunks and their embeddings
embedded : Env → List Text → Option (List Bytes) → Option (List Bytes × List Bytes)
embedded env chunks none = none
embedded env chunks (some encs) = elim (env.embed_batch chunks) [
  | none ↦ none
  | some embs ↦ some (encs, embs)
]

-- no chunk: the item is passed over
from_chunks : Env → ChangeItem → Option (List Text) → Option (List Bytes × List Bytes)
unfolding embedded
from_chunks env item none = none
from_chunks env item (some []) = none
from_chunks env item (some (c ∷ cs)) =
    embedded env (c ∷ cs) (encrypt_all env item.remote_id 0 (c ∷ cs))

from_text : Env → ChangeItem → Text → Option (List Bytes × List Bytes)
unfolding from_chunks
from_text env item [] = none
from_text env item (c ∷ s) = from_chunks env item (chunk (c ∷ s))

-- What an item that is not deleted has to store; `none` where the loop goes on to the next item.
unfoldable pub ingest : Env → ChangeItem → Option (List Bytes × List Bytes)
unfolding from_text
ingest env item = elim (env.connector.download item) [
  | err e ↦ none
  | ok content ↦ from_text env item (env.extract content item.name)
]

store : Env → ChangeItem → Option (List Bytes × List Bytes) → List ChunkRow → List ChunkRow × ℕ
store env item none table = (table, 0)
store env item (some (encs, embs)) table =
    if env.upserts item.remote_id
    then (
      upsert_chunks (env.uuid item.remote_id) env.classification item.remote_id item.name encs embs
          table,
      1,
    )
    else (table, 0)

-- a turn, by whether the item is deleted
turn : Env → ChangeItem → Bool → List ChunkRow → List ChunkRow × ℕ
unfolding store
turn env item true table =
    ((if env.deletes item.remote_id then delete_chunks item.remote_id table else table), 0)
turn env item false table = store env item (ingest env item) table

-- One turn of the loop over the changes: the table, and 1 if the item was processed.
pub process_item : Env → ChangeItem → List ChunkRow → List ChunkRow × ℕ
unfolding turn
process_item env item table = turn env item item.deleted table

unfoldable pub process_items : Env → List ChangeItem → List ChunkRow → List ChunkRow × ℕ
process_items env [] table = (table, 0)
process_items env (item ∷ items) table =
    let (t, n) = process_item env item table in let (u, m) = process_items env items t in (u, n + m)

-- The new cursor is saved, if there is one.
save_cursor : Bool → Option String → List ChunkRow × ℕ → Option String → Db × Result (Unit {0}) ℕ
save_cursor saves old (table, n) none = (record { table = table; cursor = old }, ok n)
save_cursor true old (table, n) (some c) = (record { table = table; cursor = some c }, ok n)
save_cursor false old (table, n) (some c) = (record { table = table; cursor = old }, err tt)

-- the cycle behind the answer of the connector
changed : Env → Db → Outcome (DeltaResult String) → Db × Result (Unit {0}) ℕ
unfolding save_cursor
changed env db (err e) = (db, err tt)
changed env db (ok delta) =
    save_cursor env.saves db.cursor (process_items env delta.changes db.table) delta.next_cursor

-- the cycle, by whether the cursor is loaded
loaded : Env → Db → Bool → Db × Result (Unit {0}) ℕ
unfolding changed
loaded env db false = (db, err tt)
loaded env db true = changed env db (env.connector.list_changes db.cursor)

unfoldable pub run_cycle : Env → Db → Db × Result (Unit {0}) ℕ
unfolding loaded
run_cycle env db = loaded env db env.loads
