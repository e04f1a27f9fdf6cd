-- ===== src/Connector/Zoho/Body.antt =====
-- `stream_body` of zoho.rs. The response of the HTTP client and which operations on the temporary file
-- succeed are parameters; the file is its bytes and a position.
mod Same
mod Tests
use mcp_data_gateway.Prelude.{
  ℕ, zero, suc, ◌+◌, ◌*◌, Bool, true, false, List, [], ◌∷◌, ◌++◌, Option, none, some, if◌then◌else◌,
  ltb, length, take, drop,
}
use mcp_data_gateway.Prelude.Bytes.{Bytes}
use mcp_data_gateway.Prelude.Result.{Result, ok, err, ◌>>=◌}
use mcp_data_gateway.Connector.{ConnectorError, Outcome, other}

abbrev pub inline_threshold_bytes : ℕ
inline_threshold_bytes = 8 * 1024 * 1024

-- A response: its length as its header says it, the chunks that its stream yields, of which one may be an
-- error, and what `bytes()` returns.
pub record Response : Type 0 where
  pub content_length : Option ℕ
  pub stream : List (Option Bytes)
  pub whole : Option Bytes

-- Which operations on the file succeed; `writes` has the number of the chunk.
pub record Disk : Type 0 where
  pub creates : Bool
  pub writes : ℕ → Bool
  pub seeks : Bool
  pub reads : Bool

pub record File : Type 0 where
  pub content : Bytes
  pub position : ℕ

-- `write_all` at the position, over what is there
unfoldable pub write_at : Bytes → File → File
write_at chunk f = record {
  content = take f.position f.content ++ (chunk ++ drop (f.position + length chunk) f.content);
  position = f.position + length chunk;
}

abbrev pub seek_to : ℕ → File → File
seek_to n f = record f { position = n }

abbrev pub read_to_end : File → Bytes
read_to_end f = drop f.position f.content

spills : Option ℕ → Bool
spills none = false
spills (some len) = ltb inline_threshold_bytes len

-- the loop over the stream
pub write_chunks : Disk → ℕ → List (Option Bytes) → File → Outcome File
write_chunks disk i [] f = ok f
write_chunks disk i (none ∷ chunks) f = err other
write_chunks disk i (some chunk ∷ chunks) f =
    let rest = write_chunks disk (i + 1) chunks (write_at chunk f) in
    if disk.writes i then rest else err other

-- `seek` to the start and `read_to_end`
read_back : Disk → File → Outcome Bytes
read_back disk f =
    if disk.seeks
    then (if disk.reads then ok (read_to_end (seek_to 0 f)) else err other)
    else err other

unfoldable pub stream_body : Disk → Response → Outcome Bytes
unfolding spills write_chunks read_back
stream_body disk resp =
    if spills resp.content_length
    then (if disk.creates
        then write_chunks disk 0 resp.stream (record { content = []; position = 0 })
          >>= read_back disk
        else err other)
    else elim resp.whole [ none ↦ err other | some bytes ↦ ok bytes ]
