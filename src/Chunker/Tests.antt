-- ===== src/Chunker/Tests.antt =====
-- Runs of chunker.rs on small texts, and the theorems at concrete texts.
use mcp_data_gateway.Prelude.{
  ℕ, ◌*◌, ◌-◌, ◌≤◌, ◌≡◌, refl, List, [], ◌∷◌, some, length, get_elem?, Elem,
}
use mcp_data_gateway.Prelude.Text.{Text, codes, is_blank, is_whitespace}
use mcp_data_gateway.Chunker.{chunk, chunk_by_chars, chunk_loop, chunk_round, slice, push_chunk}
use mcp_data_gateway.Chunker.Windows.{window, windows, window_count}
use mcp_data_gateway.Chunker.Cover.{chunk-windows, chunk_covers}

abbrev hello : Text
hello = codes "Hello world"

chunk-hello : chunk hello ≡ some (hello ∷ [])
unfolding chunk chunk_by_chars chunk_loop chunk_round slice push_chunk is_blank
chunk-hello = refl

chunk_blank : chunk (codes "  ") ≡ some []
unfolding chunk is_blank
chunk_blank = refl

chunk_covers_example :
    (chunks : List Text) × (k : ℕ) × (chunk hello ≡ some chunks)
    × Elem (window hello k) chunks
    × (k * 1848 ≤ 6)
    × (get_elem? (window hello k) (6 - k * 1848) ≡ some b'w')
unfolding is_whitespace
chunk_covers_example = chunk_covers hello 6 b'w' refl refl

chunk-windows_example : chunk hello ≡ some (windows hello (window_count (length hello)) 0)
chunk-windows_example = chunk-windows hello
