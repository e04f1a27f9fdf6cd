-- ===== src/Ingest/Mirror/Tests.antt =====
-- The daemon over a small drive.
use mcp_data_gateway.Prelude.{
  ◌≡◌, inl, inr, List, map, length, take, some-injective, ℕ, ◌≤◌, refl, sym, ap, ◌∙◌, [], ◌∷◌, none,
  some, arith,
}
use mcp_data_gateway.Prelude.Text.{codes, is_blank}
use mcp_data_gateway.Prelude.Bytes.{Bytes, utf8}
use mcp_data_gateway.Chunker.{chunk, chunk_by_chars, chunk_loop, chunk_round, slice, push_chunk}
use mcp_data_gateway.Connector.Zoho.Bfs.Yields.{change_of}
use mcp_data_gateway.Crypto.{decrypt}
use mcp_data_gateway.Ingest.Cipher.{encrypt, seal_in_place, advance}
use mcp_data_gateway.Ingest.Embed.{IsEmbedder}
use mcp_data_gateway.Ingest.Embed.Order.{length-map}
use mcp_data_gateway.Ingest.Rows.{rows_of}
use mcp_data_gateway.Connector.Zoho.Source.Codec.{as_text, as_text-IsJson}
use mcp_data_gateway.Crypto.Tests.{toy, toy-IsAead, zero_iv}
use mcp_data_gateway.Ingest.{Db, encrypt_all, embedded, from_chunks, from_text, ingest}
use mcp_data_gateway.Ingest.Drive.{cycles}
use mcp_data_gateway.Ingest.Mirror.{Mirrors, cycles-Mirrors, cycles-readable}
use mcp_data_gateway.Ingest.Mirror.Small.{one_place, lists, lists_answer, env}
use mcp_data_gateway.Connector.Zoho.Bfs.SmallDrive.{no_time, report, service, listing, drive}

abbrev db : Db
db = record { table = []; cursor = none }

cycles-Mirrors_example :
    (count : ℕ) × (count ≤ 2)
    × Mirrors as_text as_text-IsJson no_time 2 service "root" lists lists_answer env refl refl
        listing
        ("a" ∷ [])
        drive
        (7 ∷ 8 ∷ [])
        db
        count
cycles-Mirrors_example =
    cycles-Mirrors as_text as_text-IsJson no_time 2 service "root" lists lists_answer env refl refl
      listing ("a" ∷ []) drive 7 (8 ∷ []) db one_place refl (omega arith)

one_chunk : chunk (codes "hi") ≡ some (codes "hi" ∷ [])
unfolding chunk chunk_by_chars chunk_loop chunk_round slice push_chunk is_blank
one_chunk = refl

report_stored :
    (p : List Bytes × List Bytes) × (ingest env (change_of no_time "root" report) ≡ some p)
unfolding ingest from_text from_chunks encrypt_all embedded chunk chunk_by_chars chunk_loop
    chunk_round slice push_chunk is_blank encrypt seal_in_place advance
report_stored = (_, refl)

env-IsEmbedder : IsEmbedder env.embed_batch
env-IsEmbedder = record {
  counted =
      λ texts vs e. ap length (sym (some-injective _ _ e)) ∙ length-map (λ t. codes "[0]") texts;
}

cycles-readable_example :
    (count : ℕ) × (count ≤ 2)
    × (map
          (λ r. decrypt toy (7 ∷ []) r.encrypted_content)
          (rows_of "f" (cycles env lists (take count (7 ∷ 8 ∷ [])) db).table)
        ≡ map (λ c. some (utf8 c)) (codes "hi" ∷ []))
cycles-readable_example =
    cycles-readable as_text as_text-IsJson no_time 2 service "root" lists lists_answer env refl refl
      listing ("a" ∷ []) drive 7 (8 ∷ []) db "root" report (codes "hi") (codes "hi" ∷ [])
      report_stored.0 one_place refl (omega arith) (inl refl) (inr (inl refl)) refl refl toy-IsAead
      (λ id i. (zero_iv, refl, refl)) env-IsEmbedder refl one_chunk refl report_stored.1
