-- ===== src/KeyRotation/Tests.antt =====
-- A run over a table of which one row is rotated already, and the theorems at it.
use mathlib.Core.List.{Permᴰ}
use mcp_data_gateway.Prelude.{
  if◌then◌else◌, ◌==◌, ℕ, ◌≡◌, refl, inl, inr, true, false, map, List, [], ◌∷◌, ◌++◌, Option, none,
  some, arith, length, some-injective, ap, sym, All, subst,
}
use mcp_data_gateway.Prelude.Bytes.{Bytes}
use mcp_data_gateway.Prelude.Text.{Text, codes, trim, is_whitespace}
use mcp_data_gateway.Prelude.Result.{ok, err}
use mcp_data_gateway.Crypto.{parse_key, encrypt, decrypt}
use mcp_data_gateway.Crypto.Tests.{toy, toy-IsAead, zero_iv, fifteen, first}
use mcp_data_gateway.KeyRotation.Table.{Pairs, total}
use mcp_data_gateway.KeyRotation.{
  Chunk, Counts, Args, Queries, committed, unanswered, failed, main, rotate_loop, transact, updated,
  rotate_batch, rotate_chunk, update_where,
}
use mcp_data_gateway.KeyRotation.Rows.{IsReady}
use mcp_data_gateway.KeyRotation.Loop.{Turned, Readable, Kept}
use mcp_data_gateway.Ingest.{Db}
use mcp_data_gateway.Ingest.TwoFiles.{two_files, two_files-stored}
use mcp_data_gateway.Prelude.Int.{ℤ, pos}
use mcp_data_gateway.KeyRotation.Handover.{as_chunk, all_cycles, main_hands_over}
use mcp_data_gateway.KeyRotation.Run.{main_rotates, main_keeps}

abbrev key_of : ℕ → Bytes
key_of n = n ∷ (fifteen ++ (fifteen ++ 0 ∷ []))

abbrev decode : Text → Option Bytes
decode s = some (key_of (first s))

abbrev draw : ℕ → Option Bytes
draw n = some zero_iv

draw-sized : (n : ℕ) (iv : Bytes) → draw n ≡ some iv → length iv ≡ 12
draw-sized n iv e = ap length (sym (some-injective _ _ e))

abbrev embeds : Bytes → Option Bytes
embeds plain = some (codes "[0]")

abbrev sealed_by : Bytes → Bytes → Bytes
sealed_by key plain = zero_iv ++ (first key ∷ (fifteen ++ plain))

abbrev row : ℕ → Bytes → Chunk
row id content = record { id = id; encrypted_content = content; embedding = none }

abbrev args : ℤ → Args
args size = record {
  old_key = codes "7";
  new_key = codes "9";
  dry_run = false;
  reembed = false;
  batch_size = size;
}

abbrev answering : Queries
answering = record {
  connects = true;
  counts = true;
  fetches = λ offset. true;
  begins = λ offset. true;
  updates = λ id. true;
  commits = λ offset. committed;
}

-- the second commit is not answered
abbrev silent : Queries
silent = record answering { commits = λ offset. if offset == 0 then committed else unanswered }

abbrev old : Bytes
old = key_of b'7'

abbrev new : Bytes
new = key_of b'9'

abbrev table : List Chunk
table = row 1 (sealed_by old (codes "a")) ∷ row 4 (sealed_by new (codes "b")) ∷ []

abbrev rotated : List Chunk
rotated = row 1 (sealed_by new (codes "a")) ∷ row 4 (sealed_by new (codes "b")) ∷ []

parses_old : parse_key decode (codes "7") ≡ some old
unfolding parse_key trim is_whitespace
parses_old = refl

parses_new : parse_key decode (codes "9") ≡ some new
unfolding parse_key trim is_whitespace
parses_new = refl

ready : IsReady answering toy draw none
ready = record {
  answers = refl;
  fetched = λ offset. refl;
  begun = λ offset. refl;
  updates = λ id. refl;
  commits = λ offset. refl;
  draws = λ n. (zero_iv, refl);
  seals = λ key iv plain. (_, refl);
  embeds = λ client plain e. cc;
}

readable : All (Readable answering toy draw none old new toy-IsAead draw-sized) table
unfolding decrypt
readable = ((codes "a", inl refl), ((codes "b", inr (refl, refl)), tt))

runs :
    main answering toy draw embeds decode (args (pos 1)) table
    ≡ some (rotated, ok (record { rotated = 1; skipped = 1 }))
unfolding main rotate_loop transact rotate_batch rotate_chunk updated update_where decrypt encrypt
    parse_key trim is_whitespace
runs = refl

breaks_off : main silent toy draw embeds decode (args (pos 1)) table ≡ some (rotated, err failed)
unfolding main rotate_loop transact rotate_batch rotate_chunk updated update_where decrypt encrypt
    parse_key trim is_whitespace
breaks_off = refl

main_rotates_example :
    (t : List Chunk) × (m : Counts) × (main answering toy draw embeds decode (args (pos 1)) table
      ≡ some (t, ok m))
    × Pairs (Turned answering toy draw none old new toy-IsAead draw-sized) table t
    × (total m ≡ length table)
main_rotates_example =
    main_rotates answering toy toy-IsAead draw draw-sized embeds decode (args (pos 1)) old new
      parses_old parses_new table (omega arith, (omega arith, tt)) 0 refl refl refl ready readable

main_keeps_example : Pairs (Kept silent toy draw none old new toy-IsAead draw-sized) table rotated
main_keeps_example =
    main_keeps silent toy toy-IsAead draw draw-sized embeds decode (args (pos 1)) old new parses_old
      parses_new table (omega arith, (omega arith, tt)) rotated (err failed) breaks_off

abbrev empty : Db
empty = record { table = []; cursor = none }

abbrev stored : ℕ → Chunk
stored id = record {
  id = id;
  encrypted_content = sealed_by old (codes "hi");
  embedding = some (codes "[0]");
}

by_id :
    Permᴰ (stored 2 ∷ stored 5 ∷ []) (map as_chunk (all_cycles (two_files old ∷ []) empty).table)
unfolding all_cycles
by_id =
    subst (λ rows. Permᴰ (stored 2 ∷ stored 5 ∷ []) (map as_chunk rows))
      (sym (two_files-stored old)) (Permᴰ.swap refl refl)

main_hands_over_example :
    (t : List Chunk) × (m : Counts) × (main answering toy draw embeds decode
        (args (pos 1))
        (stored 2 ∷ stored 5 ∷ [])
      ≡ some (t, ok m))
    × Permᴰ {A = ℕ × Option Bytes} (map (λ c. (c.id, decrypt toy new c.encrypted_content)) t) (
        map
          (λ r. (r.id, decrypt toy old r.encrypted_content))
          (all_cycles (two_files old ∷ []) empty).table)
    × (total m ≡ length (all_cycles (two_files old ∷ []) empty).table)
main_hands_over_example =
    main_hands_over answering toy toy-IsAead draw draw-sized embeds decode (args (pos 1)) old new
      parses_old parses_new 0 (two_files old ∷ []) empty (stored 2 ∷ stored 5 ∷ []) refl refl refl
      ready ((refl, refl, λ id i. (zero_iv, refl, refl)), tt) tt (omega arith, (omega arith, tt))
      by_id
