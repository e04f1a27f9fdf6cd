-- ===== src/KeyRotation/Run.antt =====
-- A whole run of the tool: `main` on a table.
use mcp_data_gateway.Prelude.{
  ℕ, zero, suc, ◌&&◌, ◌≡◌, refl, ap, sym, subst, ◌∙◌, inl, inr, true, false, List, [], Option, none,
  some, some-injective, arith, length, if◌then◌else◌, All, Bool-cases,
}
use mcp_data_gateway.Prelude.Bytes.{Bytes, bytes_eq}
use mcp_data_gateway.Prelude.Int.{ℤ, pos, negsuc}
use mcp_data_gateway.Prelude.Text.{Text}
use mcp_data_gateway.Prelude.Result.{Result, ok, err}
use mcp_data_gateway.Crypto.{Aead, IsAead, parse_key}
use mcp_data_gateway.KeyRotation.{
  Chunk, Counts, Failure, same_keys, failed, Queries, Args, no_rows, rotate_loop, with_keys, main,
}
use mcp_data_gateway.KeyRotation.Rows.{IsReady}
use mcp_data_gateway.KeyRotation.Table.{IsOrdered, Pairs, total}
use mcp_data_gateway.KeyRotation.Pairs.{Pairs-same}
use mcp_data_gateway.KeyRotation.Loop.{Turned, Readable, Kept, loop-Leaves, loop_returns}

-- the client that `--reembed` asks for
abbrev pub client_of : Args → (Bytes → Option Bytes) → Option (Bytes → Option Bytes)
client_of args client = if args.reembed then some client else none

module _ (queries : Queries) (aead : Aead) (a : IsAead aead) (fill : ℕ → Option Bytes)
    (sized : (n : ℕ) (iv : Bytes) → fill n ≡ some iv → length iv ≡ 12)
    (client : Bytes → Option Bytes) (decode : Text → Option Bytes) (args : Args)
    (old_key new_key : Bytes) (old : parse_key decode args.old_key ≡ some old_key)
    (new : parse_key decode args.new_key ≡ some new_key) (table : List Chunk)
    (ordered : IsOrdered 0 table) where
  main_loop :
      bytes_eq old_key new_key ≡ false
      → (queries.connects && queries.counts) ≡ true
      → args.dry_run ≡ false
      → main queries aead fill client decode args table
        ≡ rotate_loop queries aead fill
            (client_of args client)
            old_key
            new_key
            (suc (length table))
            args.batch_size
            table
            0
            no_rows
  unfolding main with_keys
  main_loop ne answers dry = rw (old, new, ne, answers, dry) refl

  -- With a cipher that opens what it sealed, draws of 12 bytes, a table in the order of its distinct
  -- ids, two different keys, no dry run, a positive batch size, calls that succeed and a table whose rows
  -- one of the keys opens, the run ends well. Each row has kept its id, and the new key opens it to the
  -- text that the old key, or else the new one, opened before. Beside a text that the old key opens stands
  -- the embedding of the client, if there is one, and else the one that stood there; a row that the old
  -- key does not open stays as it was. The counts add up to the number of rows.
  pub main_rotates :
      (size : ℕ)
      → bytes_eq old_key new_key ≡ false
      → args.dry_run ≡ false
      → args.batch_size ≡ pos (suc size)
      → IsReady queries aead fill (client_of args client)
      → All (Readable queries aead fill (client_of args client) old_key new_key a sized) table
      → (t : List Chunk) × (m : Counts) × (main queries aead fill client decode args table
          ≡ some (t, ok m))
        × Pairs (Turned queries aead fill (client_of args client) old_key new_key a sized) table t
        × (total m ≡ length table)
  main_rotates size ne dry b ready readable =
      let loop =
        rotate_loop queries aead fill (client_of args client) old_key new_key
          (suc (length table)) in
      let (t, m, e) =
        loop_returns queries aead fill (client_of args client) old_key new_key a sized
          (suc (length table)) size 0 [] table no_rows (omega arith) ordered ready readable in
      let (zs, w, ks, fin) =
        loop-Leaves queries aead fill (client_of args client) old_key new_key a sized
          (suc (length table)) size 0 [] table no_rows (t, ok m) ordered e in
      let (ts, c) = fin m refl in
      (
        zs,
        m,
        main_loop ne ready.answers dry
            ∙ ap (λ s. loop s table 0 no_rows) b
            ∙ e
            ∙ ap (λ u. some (u, ok m)) w,
        ts,
        omega (arith, c),
      )

  main-same_keys :
      bytes_eq old_key new_key ≡ true
      → main queries aead fill client decode args table ≡ some (table, err same_keys)
  unfolding main with_keys
  main-same_keys e = rw (old, new, e) refl

  main-dry_run :
      bytes_eq old_key new_key ≡ false
      → (queries.connects && queries.counts) ≡ true
      → args.dry_run ≡ true
      → main queries aead fill client decode args table ≡ some (table, ok no_rows)
  unfolding main with_keys
  main-dry_run ne answers dry = rw (old, new, ne, answers, dry) refl

  main-unanswered :
      bytes_eq old_key new_key ≡ false
      → (queries.connects && queries.counts) ≡ false
      → main queries aead fill client decode args table ≡ some (table, err failed)
  unfolding main with_keys
  main-unanswered ne answers = rw (old, new, ne, answers) refl

  -- A batch size of 0 or less ends the run with the first batch: no row is read.
  loop_idle :
      (size : ℤ)
      → ((n : ℕ) → size ≡ pos (suc n) → ⊥)
      → (o : Result Failure Counts) × (rotate_loop queries aead fill
            (client_of args client)
            old_key
            new_key
            (suc (length table))
            size
            table
            0
            no_rows
          ≡ some (table, o))
  unfolding rotate_loop
  loop_idle (negsuc n) h = (err failed, refl)
  loop_idle (pos (suc n)) h = absurd (h n refl)
  loop_idle (pos zero) h = elim (Bool-cases (queries.fetches 0)) [
    | inl f ↦ (ok no_rows, rw (rotate_loop, f) refl)
    | inr f ↦ (err failed, rw (rotate_loop, f) refl)
  ]

  abbrev KeepsAll : List Chunk × Result Failure Counts → Type 0
  KeepsAll u =
      Pairs (Kept queries aead fill (client_of args client) old_key new_key a sized) table u.0

  untouched :
      (o : Result Failure Counts) (u : List Chunk × Result Failure Counts)
      → main queries aead fill client decode args table ≡ some (table, o)
      → main queries aead fill client decode args table ≡ some u
      → KeepsAll u
  untouched o u e h = subst KeepsAll (some-injective _ _ (sym e ∙ h)) (
      Pairs-same (Kept queries aead fill (client_of args client) old_key new_key a sized) table
        (λ x. inl refl))

  idle :
      (size : ℤ) (u : List Chunk × Result Failure Counts)
      → ((n : ℕ) → size ≡ pos (suc n) → ⊥)
      → bytes_eq old_key new_key ≡ false
      → (queries.connects && queries.counts) ≡ true
      → args.dry_run ≡ false
      → args.batch_size ≡ size
      → main queries aead fill client decode args table ≡ some u
      → KeepsAll u
  idle size u low ne answers dry b h =
      let (o, e) = loop_idle size low in
      let loop =
        rotate_loop queries aead fill (client_of args client) old_key new_key
          (suc (length table)) in
      untouched o u (main_loop ne answers dry ∙ ap (λ s. loop s table 0 no_rows) b ∙ e) h

  looped :
      (size : ℤ) (u : List Chunk × Result Failure Counts)
      → bytes_eq old_key new_key ≡ false
      → (queries.connects && queries.counts) ≡ true
      → args.dry_run ≡ false
      → args.batch_size ≡ size
      → main queries aead fill client decode args table ≡ some u
      → KeepsAll u
  looped (negsuc n) u ne answers dry b h = idle (negsuc n) u (λ k e. cc) ne answers dry b h
  looped (pos zero) u ne answers dry b h = idle (pos 0) u (λ k e. cc) ne answers dry b h
  looped (pos (suc size)) u ne answers dry b h =
      let loop =
        rotate_loop queries aead fill (client_of args client) old_key new_key
          (suc (length table)) in
      let (zs, w, ks, fin) =
        loop-Leaves queries aead fill (client_of args client) old_key new_key a sized
          (suc (length table)) size 0 [] table no_rows u ordered
          (ap (λ s. loop s table 0 no_rows) (sym b) ∙ sym (main_loop ne answers dry) ∙ h) in
      subst (λ v. KeepsAll (v, u.1)) (sym w) ks

  -- With a cipher that opens what it sealed, draws of 12 bytes and a table in the order of its distinct ids,
  -- however a run with two keys that parse ends, early or not, whichever of its calls to the database
  -- fail and whatever the batch size: each row of the table is as it was, or has kept its id and the new
  -- key opens it to the text that it had.
  pub main_keeps :
      (t : List Chunk) (o : Result Failure Counts)
      → main queries aead fill client decode args table ≡ some (t, o)
      → Pairs (Kept queries aead fill (client_of args client) old_key new_key a sized) table t
  main_keeps t o h = elim (Bool-cases (bytes_eq old_key new_key)) [
    | inl e ↦ untouched (err same_keys) (t, o) (main-same_keys e) h
    | inr ne ↦ elim (Bool-cases (queries.connects && queries.counts)) [
      | inr silent ↦ untouched (err failed) (t, o) (main-unanswered ne silent) h
      | inl answers ↦ elim (Bool-cases args.dry_run) [
        | inl dry ↦ untouched (ok no_rows) (t, o) (main-dry_run ne answers dry) h
        | inr dry ↦ looped args.batch_size (t, o) ne answers dry refl h
      ]
    ]
  ]
