-- ===== src/KeyRotation.antt =====
-- tools/key-rotation/src: main.rs and db.rs. The table is the list of the rows with encrypted content,
-- ordered by id; nobody else writes to it during the run. `fill n` is what the n-th encryption draws, and
-- `queries` says which calls to the database succeed.
mod Table
pub mod Rows
mod Pairs
mod Rounds
mod Loop
pub mod Run
pub mod Handover
pub mod Embed
mod Tests
use mcp_data_gateway.Prelude.{
  ℕ, zero, suc, ◌+◌, Bool, true, false, not, ◌&&◌, List, [], ◌∷◌, Option, none, some, if◌then◌else◌,
  ◌==◌, length, take, drop,
}
use mcp_data_gateway.Prelude.Int.{ℤ, pos, negsuc}
use mcp_data_gateway.Prelude.Text.{Text}
use mcp_data_gateway.Prelude.Bytes.{Bytes, bytes_eq}
use mcp_data_gateway.Prelude.Result.{Result, ok, err, ◌>>=◌}
use mcp_data_gateway.Crypto.{Aead, parse_key, encrypt, decrypt}

-- A row of document_chunks: `Chunk`, and the embedding in its place as a vector literal.
pub record Chunk : Type 0 where
  pub id : ℕ
  pub encrypted_content : Bytes
  pub embedding : Option Bytes

-- Why a run ends early: a row that neither key opens, the same key twice, or a call that fails.
pub data Failure : Type 0 where
  undecryptable : ℕ → Failure
  same_keys failed : Failure

-- `rotated` and `skipped`
pub record Counts : Type 0 where
  pub rotated : ℕ
  pub skipped : ℕ

unfoldable pub count_pending : List Chunk → ℕ
count_pending table = length table

-- How a commit ends; an unanswered one has written the rows, and the call fails.
pub data Commit : Type 0 where
  committed unanswered refused : Commit

-- Which calls to the database succeed: a batch by its offset, an update by the id of its row.
pub record Queries : Type 0 where
  pub connects : Bool
  pub counts : Bool
  pub fetches : ℕ → Bool
  pub begins : ℕ → Bool
  pub updates : ℕ → Bool
  pub commits : ℕ → Commit

-- LIMIT and OFFSET; the database refuses a LIMIT below 0.
abbrev pub fetch_batch : List Chunk → ℕ → ℤ → Bool → Option (List Chunk)
fetch_batch table offset (negsuc n) succeeds = none
fetch_batch table offset (pos limit) true = some (take limit (drop offset table))
fetch_batch table offset (pos limit) false = none

abbrev pub set_content : Chunk → Bytes → Chunk
set_content c new_content = record c { encrypted_content = new_content }

abbrev pub set_both : Chunk → Bytes → Bytes → Chunk
set_both c new_content vector = record c {
  encrypted_content = new_content;
  embedding = some vector;
}

-- UPDATE document_chunks … WHERE id = $n
pub update_where : (Chunk → Chunk) → ℕ → List Chunk → List Chunk
update_where f id [] = []
update_where f id (c ∷ table) =
    let rest = update_where f id table in if c.id == id then f c ∷ rest else c ∷ rest

abbrev pub update_content : List Chunk → ℕ → Bytes → List Chunk
update_content table id new_content = update_where (λ c. set_content c new_content) id table

abbrev pub update_content_and_embedding : List Chunk → ℕ → Bytes → Bytes → List Chunk
update_content_and_embedding table id new_content vector =
    update_where (λ c. set_both c new_content vector) id table

module _ (queries : Queries) (aead : Aead) (fill : ℕ → Option Bytes)
    (embed_client : Option (Bytes → Option Bytes)) (old_key new_key : Bytes) where
  -- the table and the counts behind an update, if it succeeds
  updated : ℕ → List Chunk → Counts → Result Failure (List Chunk × Counts)
  updated id tx n =
      if queries.updates id then ok (tx, record n { rotated = suc n.rotated }) else err failed

  -- the writes, once a row is encrypted again; the client embeds the text that the bytes stand for
  write_back :
      Option (Bytes → Option Bytes)
      → ℕ
      → Bytes
      → Bytes
      → List Chunk
      → Counts
      → Result Failure (List Chunk × Counts)
  write_back none id plain new_enc tx n = updated id (update_content tx id new_enc) n
  write_back (some client) id plain new_enc tx n = elim (client plain) [
    | none ↦ err failed
    | some vector ↦ updated id (update_content_and_embedding tx id new_enc vector) n
  ]

  -- One row of a batch. One that the old key does not open may be rotated already.
  pub rotate_chunk : Chunk → List Chunk → Counts → Result Failure (List Chunk × Counts)
  unfolding write_back
  rotate_chunk chunk tx n = elim (decrypt aead old_key chunk.encrypted_content) [
    | some plain ↦ elim (encrypt aead (fill n.rotated) new_key plain) [
      | none ↦ err failed
      | some new_enc ↦ write_back embed_client chunk.id plain new_enc tx n
    ]
    | none ↦ elim (decrypt aead new_key chunk.encrypted_content) [
      | some plain ↦ ok (tx, record n { skipped = suc n.skipped })
      | none ↦ err (undecryptable chunk.id)
    ]
  ]

  -- The rows of a batch, in one transaction.
  pub rotate_batch : List Chunk → List Chunk → Counts → Result Failure (List Chunk × Counts)
  rotate_batch [] tx n = ok (tx, n)
  rotate_batch (chunk ∷ batch) tx n = rotate_chunk chunk tx n >>= λ r. rotate_batch batch r.0 r.1

  -- what the end of a transaction leaves; one that is not committed is rolled back
  settle :
      Commit
      → List Chunk
      → Result Failure (List Chunk × Counts)
      → List Chunk × Result Failure Counts
  settle c table (err e) = (table, err e)
  settle committed table (ok r) = (r.0, ok r.1)
  settle unanswered table (ok r) = (r.0, err failed)
  settle refused table (ok r) = (table, err failed)

  -- The transaction of the batch at an offset.
  pub transact : ℕ → List Chunk → List Chunk → Counts → List Chunk × Result Failure Counts
  unfolding settle
  transact offset batch table n =
      if queries.begins offset
      then settle (queries.commits offset) table (rotate_batch batch table n)
      else (table, err failed)

  -- The loop over the batches, on the table that the database holds. `none` is fuel that runs out.
  pub rotate_loop : ℕ → ℤ → List Chunk → ℕ → Counts → Option (List Chunk × Result Failure Counts)
  rotate_loop zero batch_size table offset n = none
  rotate_loop (suc fuel) batch_size table offset n =
      elim (fetch_batch table offset batch_size (queries.fetches offset)) [
        | none ↦ some (table, err failed)
        | some batch ↦ elim batch [
          | [] ↦ some (table, ok n)
          | chunk ∷ rows ↦
              let after = transact offset (chunk ∷ rows) table n in
              elim after.1 [
                | err e ↦ some (after.0, err e)
                | ok m ↦ rotate_loop fuel batch_size after.0 (offset + length (chunk ∷ rows)) m
              ]
        ]
      ]

abbrev pub no_rows : Counts
no_rows = record { rotated = 0; skipped = 0 }

pub record Args : Type 0 where
  pub old_key : Text
  pub new_key : Text
  pub dry_run : Bool
  pub reembed : Bool
  pub batch_size : ℤ

-- the run behind the parsing of the keys
with_keys :
    Queries
    → Aead
    → (ℕ → Option Bytes)
    → (Bytes → Option Bytes)
    → Args
    → Option Bytes
    → Option Bytes
    → List Chunk
    → Option (List Chunk × Result Failure Counts)
with_keys queries aead fill client args (some old_key) (some new_key) table =
    if bytes_eq old_key new_key
    then some (table, err same_keys)
    else if not (queries.connects && queries.counts)
    then some (table, err failed)
    else if args.dry_run
    then some (table, ok no_rows)
    else rotate_loop queries aead fill (if args.reembed then some client else none) old_key new_key
        (suc (length table)) args.batch_size table 0 no_rows
with_keys queries aead fill client args _ _ table = some (table, err failed)

-- `main`, on the table that it finds; each round reads a row at least, so the fuel is enough
unfoldable pub main :
    Queries
    → Aead
    → (ℕ → Option Bytes)
    → (Bytes → Option Bytes)
    → (Text → Option Bytes)
    → Args
    → List Chunk
    → Option (List Chunk × Result Failure Counts)
unfolding with_keys
main queries aead fill client decode args table =
    with_keys queries aead fill client args (parse_key decode args.old_key)
      (parse_key decode args.new_key) table
