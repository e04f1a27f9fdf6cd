-- ===== src/Ingest/TwoFiles.antt =====
-- A daemon with a drive of two small files, and the rows that its first cycle leaves.
use text.Mathlib.Text.{◌==◌ as str_eq}
use mcp_data_gateway.Prelude.{
  ◌≡◌, refl, String, true, false, [], ◌∷◌, ◌++◌, none, some, if◌then◌else◌, ℕ,
}
use mcp_data_gateway.Prelude.Text.{codes, is_blank}
use mcp_data_gateway.Prelude.Bytes.{Bytes, utf8}
use mcp_data_gateway.Prelude.Result.{ok}
use mcp_data_gateway.Chunker.{chunk, chunk_by_chars, chunk_loop, chunk_round, slice, push_chunk}
use mcp_data_gateway.Connector.{ChangeItem}
use mcp_data_gateway.Crypto.Tests.{toy, zero_iv, fifteen, first}
use mcp_data_gateway.Ingest.Cipher.{encrypt, seal_in_place, advance}
use mcp_data_gateway.Ingest.{
  ChunkRow, Env, run_cycle, loaded, changed, save_cursor, process_items, process_item, turn, store,
  ingest, from_text, from_chunks, encrypt_all, embedded, upsert_chunks, delete_chunks, new_rows,
}

abbrev file : String → ChangeItem
file id = record {
  remote_id = id;
  parent_id = none;
  name = "note.txt";
  is_folder = false;
  modified_at = none;
  deleted = false;
  raw = none;
}

-- a daemon with a key and a drive of two files, of which the second one draws the smaller id
abbrev pub two_files : Bytes → Env
two_files key = record {
  connector = record {
    list_changes = λ cursor.
        ok (record { next_cursor = some "next"; changes = file "a" ∷ file "b" ∷ []; more = false });
    download = λ item. ok (codes "hi");
  };
  extract = λ bytes name. bytes;
  aead = toy;
  fill = λ id i. some zero_iv;
  content_key = key;
  classification = codes "INTERNAL";
  uuid = λ id i. if str_eq id "a" then 5 else 2;
  embed_batch = λ texts. some (codes "[0]" ∷ []);
  loads = true;
  saves = true;
  deletes = λ id. true;
  upserts = λ id. true;
}

abbrev stored : Bytes → String → ℕ → ChunkRow
stored key id uuid = record {
  id = uuid;
  classification = codes "INTERNAL";
  source_item_id = id;
  doc_name = "note.txt";
  chunk_index = 0;
  encrypted_content = zero_iv ++ (first key ∷ (fifteen ++ codes "hi"));
  embedding = codes "[0]";
}

pub two_files-stored :
    (key : Bytes)
    → (run_cycle (two_files key) (record { table = []; cursor = none })).0.table
      ≡ stored key "a" 5 ∷ stored key "b" 2 ∷ []
unfolding run_cycle loaded changed save_cursor process_items process_item turn store ingest
    from_text from_chunks encrypt_all embedded chunk chunk_by_chars chunk_loop chunk_round slice
    push_chunk is_blank encrypt seal_in_place advance upsert_chunks delete_chunks new_rows utf8
two_files-stored key = refl
