-- ===== src/Daemon/Polls.antt =====
-- The rounds of the loop: a connector that cannot list its changes does not disturb the others.
use mcp_data_gateway.Prelude.{
  ℕ, zero, suc, ◌+◌, ◌≡◌, refl, ap, ap₂, sym, ◌∙◌, String, Bool, inl, inr, List, [], ◌∷◌, ◌++◌,
  Option, some, some-injective, Option-cases, Bool-cases, if◌then◌else◌,
}
use mcp_data_gateway.Prelude.Bytes.{bytes_eq}
use mcp_data_gateway.Prelude.Text.{Text}
use mcp_data_gateway.Prelude.Result.{err}
use mcp_data_gateway.Connector.{ConnectorError}
use mcp_data_gateway.Ingest.{Db, Env}
use mcp_data_gateway.Ingest.Cycle.{run_cycle-unlisted}
use mcp_data_gateway.Daemon.{World, load_cursor, save_cursor, put_back, one_cycle, round, poll_loop}

save_cursor_same :
    (id : Text) (token : String) (cursors : List (Text × String))
    → load_cursor id cursors ≡ some token
    → save_cursor id token cursors ≡ cursors
unfolding load_cursor save_cursor
save_cursor_same id token [] h = cc
save_cursor_same id token (p ∷ cursors) h = elim (Bool-cases (bytes_eq p.0 id)) [
  | inl e ↦ rw e (ap (λ t. (p.0, t) ∷ cursors) (sym (some-injective _ _ (rw e at h))))
  | inr f ↦ rw f (ap (◌∷◌ p) (save_cursor_same id token cursors (rw f at h)))
]

put_back_same :
    (id : Text) (cursors : List (Text × String))
    → put_back id (load_cursor id cursors) cursors ≡ cursors
unfolding put_back
put_back_same id cursors = elim (Option-cases (load_cursor id cursors)) [
  | inl n ↦ rw n refl
  | inr (token, e) ↦ rw e (save_cursor_same id token cursors e)
]

-- No call of list_changes succeeds.
abbrev pub Unlisted : Env → Type 0
Unlisted env =
    (cursor : Option String) → (e : ConnectorError) × (env.connector.list_changes cursor ≡ err e)

cycle_same : (env : Env) (id : Text) (w : World) → Unlisted env → one_cycle env id w ≡ w
unfolding one_cycle
cycle_same env id w fails =
    let db : Db = record { table = w.table; cursor = load_cursor id w.cursors } in
    let (e, h) = fails (load_cursor id w.cursors) in
    let kept = run_cycle-unlisted env db e h in
    ap (λ d. record { table = d.table; cursors = put_back id d.cursor w.cursors }) kept
    ∙ ap (λ c. record w { cursors = c }) (put_back_same id w.cursors)

module _ (env : ℕ → Text → Env) where
  round_without :
      (i : ℕ) (before : List Text) (id : Text) (after : List Text) (w : World)
      → Unlisted (env i id)
      → round env i (before ++ id ∷ after) w ≡ round env i (before ++ after) w
  unfolding round
  round_without i [] id after w fails = ap (round env i after) (cycle_same (env i id) id w fails)
  round_without i (k ∷ before) id after w fails =
      round_without i before id after (one_cycle (env i k) k w) fails

  -- If in every round the connector fails to list its changes, then after any number of rounds the
  -- tables are as if it were not configured, its saved cursor included.
  pub poll_loop_without :
      (n i : ℕ) (once : Bool) (before : List Text) (id : Text) (after : List Text) (w : World)
      → ((j : ℕ) → Unlisted (env j id))
      → poll_loop env n i once (before ++ id ∷ after) w ≡ poll_loop env n i once (before ++ after) w
  unfolding poll_loop
  poll_loop_without zero i once before id after w fails = refl
  poll_loop_without (suc n) i once before id after w fails =
      ap₂ (λ v rest. if once then v else rest) (round_without i before id after w (fails i))
        (ap (poll_loop env n (i + 1) once (before ++ id ∷ after))
            (round_without i before id after w (fails i))
          ∙ poll_loop_without n (i + 1) once before id after (round env i (before ++ after) w)
              fails)
