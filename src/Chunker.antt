-- ===== src/Chunker.antt =====
-- ingestion/src/chunker.rs: overlapping character windows. The loop runs on fuel; `none` is a slice
-- that panics or fuel that runs out.
pub mod Windows
pub mod Cover
mod Tests
use Prim.Native.Nat.{min}
use mcp_data_gateway.Prelude.{
  ℕ, zero, suc, ◌+◌, ◌-◌, Bool, true, false, ◌&&◌, List, [], ◌∷◌, ◌++◌, Option, none, some, leb,
  ◌==◌, if◌then◌else◌, length, take, drop,
}
use mcp_data_gateway.Prelude.Text.{Text, trim, is_empty, is_blank}

abbrev pub chunk_chars : ℕ
chunk_chars = 2048

abbrev pub overlap_chars : ℕ
overlap_chars = 200

abbrev pub stride_chars : ℕ
stride_chars = chunk_chars - overlap_chars

-- `chars[start..end]`, which panics out of range
unfoldable pub slice : Text → ℕ → ℕ → Option Text
slice chars start end =
    if leb start end && leb end (length chars)
    then some (take (end - start) (drop start chars))
    else none

-- `if !s.trim().is_empty() { chunks.push(s); }`
unfoldable pub push_chunk : Text → List Text → List Text
push_chunk s chunks = if is_blank s then chunks else chunks ++ s ∷ []

-- the rest of a round, once the slice is made
unfoldable pub chunk_round :
    Bool → List Text → (List Text → Option (List Text)) → Option (List Text)
chunk_round true chunks rest = some chunks
chunk_round false chunks rest = rest chunks

unfoldable pub chunk_loop : ℕ → Text → ℕ → List Text → Option (List Text)
chunk_loop zero chars start chunks = none
chunk_loop (suc fuel) chars start chunks =
    let end = min (start + chunk_chars) (length chars) in
    elim (slice chars start end) [
      | none ↦ none
      | some s ↦
          chunk_round (end == length chars) (push_chunk s chunks)
            (λ cs. chunk_loop fuel chars (start + stride_chars) cs)
    ]

-- One round advances by 1848 characters, so the length bounds the number of rounds.
unfoldable pub chunk_by_chars : Text → Option (List Text)
chunk_by_chars text = chunk_loop (suc (length text)) text 0 []

unfoldable pub chunk : Text → Option (List Text)
chunk text = if is_blank text then some [] else chunk_by_chars text
