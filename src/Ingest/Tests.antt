-- ===== src/Ingest/Tests.antt =====
-- A cycle over a small drive, and the theorems at it.
use text.Mathlib.Text.{◌==◌ as str_eq}
use text.Mathlib.TextEquality.{eq_iff}
use mcp_data_gateway.Prelude.{
  ℕ, List, Option, ◌≡◌, ◌≢◌, refl, String, Bool, true, false, [], ◌∷◌, none, some,
}
use mcp_data_gateway.Prelude.Text.{Text, codes, is_blank}
use mcp_data_gateway.Prelude.Bytes.{Bytes}
use mcp_data_gateway.Prelude.Result.{ok, err}
use mcp_data_gateway.Connector.{ChangeItem, DeltaResult, Outcome, other}
use mcp_data_gateway.Crypto.Tests.{toy, zero_iv}
use mcp_data_gateway.Ingest.{
  SourceConnector, Env, encrypt_all, embedded, from_chunks, from_text, ingest, store, turn,
  process_item, process_items, run_cycle,
}
use mcp_data_gateway.Chunker.{chunk, chunk_by_chars, chunk_loop, chunk_round, slice, push_chunk}
use mcp_data_gateway.Ingest.Cipher.{encrypt, seal_in_place, advance}
use mcp_data_gateway.Ingest.Embed.{
  EmbedData, embedder, new_client, trim_slashes, literals, embed_batch, embed_chunks,
  embed_one_batch, collect, sort_by_index, insert, format_vector,
}
use mcp_data_gateway.Ingest.Embed.Sort.{numbered}
use mcp_data_gateway.Ingest.Rows.{rows_of}
use mcp_data_gateway.Ingest.Cycle.{target, process_items-last, run_cycle-Failing}

abbrev file : String → Bool → ChangeItem
file id gone = record {
  remote_id = id;
  parent_id = none;
  name = "note.txt";
  is_folder = false;
  modified_at = none;
  deleted = gone;
  raw = none;
}

abbrev delta : DeltaResult String
delta = record {
  next_cursor = some "next";
  changes = file "a" false ∷ file "b" false ∷ [];
  more = false;
}

-- A connector that lists two files, and downloads them or not.
abbrev drive : Outcome Bytes → SourceConnector
drive content = record { list_changes = λ cursor. ok delta; download = λ item. content }

abbrev env : Outcome Bytes → Env
env content = record {
  connector = drive content;
  extract = λ bytes name. bytes;
  aead = toy;
  fill = λ id i. some zero_iv;
  content_key = 7 ∷ [];
  classification = codes "INTERNAL";
  uuid = λ id i. i;
  embed_batch = λ texts. some (codes "[0]" ∷ []);
  loads = true;
  saves = true;
  deletes = λ id. true;
  upserts = λ id. true;
}

not_same : str_eq "a" "b" ≡ false
not_same = refl

differ : (file "a" false).remote_id ≢ (file "b" false).remote_id
differ e = cc ((eq_iff "a" "b").1 e, not_same)

process_items-last_example :
    rows_of "a"
      (process_items
        (env (ok (codes "hi")))
        (file "a" true ∷ file "a" false ∷ file "b" false ∷ [])
        []).0
    ≡ target
        (env (ok (codes "hi")))
        (file "a" false)
        (rows_of "a" (process_items (env (ok (codes "hi"))) (file "a" true ∷ []) []).0)
process_items-last_example =
    process_items-last (env (ok (codes "hi"))) (file "a" true ∷ []) (file "a" false)
      (file "b" false ∷ []) [] (differ, tt)

run_cycle-Failing_example :
    run_cycle (env (err other)) (record { table = []; cursor = none })
    ≡ (record { table = []; cursor = some "next" }, ok 0)
run_cycle-Failing_example =
    run_cycle-Failing (env (err other)) (record { table = []; cursor = none }) delta "next" refl
      refl refl refl ((refl, other, refl), ((refl, other, refl), tt))

abbrev numbers : ℕ → Text → List Text → Option (List (EmbedData (List ℕ)))
numbers i url batch = some (numbered (λ t. t) 0 batch)

abbrev with_client : Env
with_client = record (env (ok (codes "hi"))) {
  embed_batch = embedder (λ n. n ∷ []) numbers (new_client (codes "http://tei") 32);
}

one_chunk : chunk (codes "hi") ≡ some (codes "hi" ∷ [])
unfolding chunk chunk_by_chars chunk_loop chunk_round slice push_chunk is_blank
one_chunk = refl

processed : (process_item with_client (file "a" false) []).1 ≡ 1
unfolding process_item turn store ingest from_text from_chunks encrypt_all embedded chunk
    chunk_by_chars chunk_loop chunk_round slice push_chunk is_blank encrypt seal_in_place advance
    embedder literals embed_batch embed_chunks embed_one_batch collect sort_by_index insert
    new_client trim_slashes format_vector
processed = refl
