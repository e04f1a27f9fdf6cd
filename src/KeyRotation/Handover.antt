-- ===== src/KeyRotation/Handover.antt =====
-- From the daemon to the key rotation: the table that the cycles of the daemon left, under the new key.
use mathlib.Core.List.{Permᴰ}
use mathlib.Core.List.Permᴰ
use mcp_data_gateway.Prelude.Int.{pos}
use mcp_data_gateway.Prelude.{
  ℕ, suc, ◌≡◌, refl, ap, ap₂, sym, subst, ◌∙◌, inl, inr, false, List, [], ◌∷◌, map, Option, some,
  length, All,
}
use mcp_data_gateway.Prelude.Bytes.{Bytes, bytes_eq}
use mcp_data_gateway.Prelude.Text.{Text}
use mcp_data_gateway.Prelude.Result.{ok}
use mcp_data_gateway.Crypto.{Aead, IsAead, decrypt, parse_key}
use mcp_data_gateway.Ingest.{ChunkRow, Db, Env, run_cycle}
use mcp_data_gateway.Ingest.Opens.{RowIsOpen, run_cycle-OpenRow}
use mcp_data_gateway.Ingest.Stored.{Draws}
use mcp_data_gateway.Ingest.Embed.Order.{length-map}
use mcp_data_gateway.KeyRotation.{Chunk, Counts, Queries, Args, main}
use mcp_data_gateway.KeyRotation.Rows.{IsReady}
use mcp_data_gateway.KeyRotation.Table.{IsOrdered, Pairs, total}
use mcp_data_gateway.KeyRotation.Loop.{Turned, Readable}
use mcp_data_gateway.KeyRotation.Run.{client_of, main_rotates}

-- A row as the tool reads it.
abbrev pub as_chunk : ChunkRow → Chunk
as_chunk r = record {
  id = r.id;
  encrypted_content = r.encrypted_content;
  embedding = some r.embedding;
}

-- The cycles of the daemon, whatever each of them meets.
unfoldable pub all_cycles : List Env → Db → Db
all_cycles [] db = db
all_cycles (env ∷ envs) db = all_cycles envs (run_cycle env db).0

length-Permᴰ : {us vs : List Chunk} → Permᴰ us vs → length us ≡ length vs
length-Permᴰ Permᴰ.nil = refl
length-Permᴰ (Permᴰ.cons e p) = ap suc (length-Permᴰ p)
length-Permᴰ (Permᴰ.swap e e') = refl
length-Permᴰ (Permᴰ.trans p q) = length-Permᴰ p ∙ length-Permᴰ q

All-Permᴰ : (P : Chunk → Type 0) {us vs : List Chunk} → Permᴰ us vs → All P vs → All P us
All-Permᴰ P Permᴰ.nil h = tt
All-Permᴰ P (Permᴰ.cons e p) (x, h) = (subst P (sym e) x, All-Permᴰ P p h)
All-Permᴰ P (Permᴰ.swap e e') (x, (y, h)) = (subst P (sym e) y, (subst P (sym e') x, h))
All-Permᴰ P (Permᴰ.trans p q) h = All-Permᴰ P p (All-Permᴰ P q h)

-- Each cycle has the cipher and the key of the daemon, and draws IVs of 12 bytes.
abbrev pub Shares : Aead → Bytes → Env → Type 0
Shares aead key env = (env.aead ≡ aead) × (env.content_key ≡ key) × Draws env

module _ (aead : Aead) (a : IsAead aead) where
  cycle-RowIsOpen :
      (key : Bytes) (env : Env) (db : Db)
      → Shares aead key env
      → All (RowIsOpen aead key) db.table
      → All (RowIsOpen aead key) (run_cycle env db).0.table
  cycle-RowIsOpen key env db (ea, ek, d) h =
      subst (λ k. All (RowIsOpen aead k) (run_cycle env db).0.table) ek
        (subst (λ x. All (RowIsOpen x env.content_key) (run_cycle env db).0.table) ea
          (run_cycle-OpenRow env (subst IsAead (sym ea) a) d db (
            subst (λ x. All (RowIsOpen x env.content_key) db.table) (sym ea)
              (subst (λ k. All (RowIsOpen aead k) db.table) (sym ek) h))))

  all_cycles-RowIsOpen :
      (key : Bytes) (envs : List Env) (db : Db)
      → All (Shares aead key) envs
      → All (RowIsOpen aead key) db.table
      → All (RowIsOpen aead key) (all_cycles envs db).table
  unfolding all_cycles
  all_cycles-RowIsOpen key [] db s h = h
  all_cycles-RowIsOpen key (env ∷ envs) db (s, ss) h =
      all_cycles-RowIsOpen key envs (run_cycle env db).0 ss (cycle-RowIsOpen key env db s h)

module _ (queries : Queries) (aead : Aead) (a : IsAead aead) (fill : ℕ → Option Bytes)
    (sized : (n : ℕ) (iv : Bytes) → fill n ≡ some iv → length iv ≡ 12)
    (client : Bytes → Option Bytes) (decode : Text → Option Bytes) (args : Args)
    (old_key new_key : Bytes) (old : parse_key decode args.old_key ≡ some old_key)
    (new : parse_key decode args.new_key ≡ some new_key) where
  -- the id of a row, and what a key opens it to
  abbrev pub opened_by : Bytes → Chunk → ℕ × Option Bytes
  opened_by key c = (c.id, decrypt aead key c.encrypted_content)

  abbrev IsOpen : Chunk → Type 0
  IsOpen c = (p : Bytes) × (decrypt aead old_key c.encrypted_content ≡ some p)

  as_chunk-IsOpen :
      (rows : List ChunkRow) → All (RowIsOpen aead old_key) rows → All IsOpen (map as_chunk rows)
  as_chunk-IsOpen [] h = tt
  as_chunk-IsOpen (r ∷ rows) (o, h) = (o, as_chunk-IsOpen rows h)

  Readable-of :
      (table : List Chunk)
      → All IsOpen table
      → All (Readable queries aead fill (client_of args client) old_key new_key a sized) table
  Readable-of [] h = tt
  Readable-of (c ∷ table) ((p, e), h) = ((p, inl e), Readable-of table h)

  -- the texts of the rows, in front of the rotation and behind it
  same_texts :
      (table t : List Chunk)
      → All IsOpen table
      → Pairs (Turned queries aead fill (client_of args client) old_key new_key a sized) table t
      → map (opened_by new_key) t ≡ map (opened_by old_key) table
  same_texts [] [] h p = refl
  same_texts [] (c ∷ t) h p = absurd p
  same_texts (r ∷ table) [] h p = absurd p
  same_texts (r ∷ table) (c ∷ t) ((q, o), h) ((i, x, reads, e, v, k), p) =
      ap₂ ◌∷◌ (ap₂ (λ m d. (m, d)) i (e ∙ elim reads [ inl d ↦ sym d | inr (none_, d) ↦ cc ]))
        (same_texts table t h p)

  as_chunks_texts :
      (rows : List ChunkRow)
      → map (opened_by old_key) (map as_chunk rows) ≡ map (λ r. opened_by old_key (as_chunk r)) rows
  as_chunks_texts [] = refl
  as_chunks_texts (r ∷ rows) = ap (◌∷◌ (opened_by old_key (as_chunk r))) (as_chunks_texts rows)

  -- With a cipher that opens what it sealed and draws of 12 bytes, the daemon runs cycles on a table of
  -- rows that its key opens, whatever fails in them. The tool finds the rows that the daemon left in the
  -- order of their ids, which are distinct. Then, given that key and another one, a positive batch size, no
  -- dry run and calls that succeed, it ends well and counts each of the rows; and up to their order, what
  -- it leaves are rows with the ids of the daemon's, and the new key opens each of them to the text that
  -- the daemon's key opened the row with its id to.
  pub main_hands_over :
      (size : ℕ) (envs : List Env) (db : Db) (table : List Chunk)
      → bytes_eq old_key new_key ≡ false
      → args.dry_run ≡ false
      → args.batch_size ≡ pos (suc size)
      → IsReady queries aead fill (client_of args client)
      → All (Shares aead old_key) envs
      → All (RowIsOpen aead old_key) db.table
      → IsOrdered 0 table
      → Permᴰ table (map as_chunk (all_cycles envs db).table)
      → (t : List Chunk) × (m : Counts) × (main queries aead fill client decode args table
          ≡ some (t, ok m))
        × Permᴰ
            (map (opened_by new_key) t)
            (map (λ r. opened_by old_key (as_chunk r)) (all_cycles envs db).table)
        × (total m ≡ length (all_cycles envs db).table)
  main_hands_over size envs db table ne dry b ready shares readable ordered perm =
      let rows = (all_cycles envs db).table in
      let opened =
        All-Permᴰ IsOpen perm
          (as_chunk-IsOpen rows (all_cycles-RowIsOpen aead a old_key envs db shares readable)) in
      let (t, m, e, ts, c) =
        main_rotates queries aead a fill sized client decode args old_key new_key old new table
          ordered size ne dry b ready (Readable-of table opened) in
      (
        t,
        m,
        e,
        subst (λ us. Permᴰ us (map (λ r. opened_by old_key (as_chunk r)) rows))
            (sym (same_texts table t opened ts))
            (subst (Permᴰ (map (opened_by old_key) table)) (as_chunks_texts rows)
              (Permᴰ.map (opened_by old_key) perm)),
        c ∙ length-Permᴰ perm ∙ length-map as_chunk rows,
      )
