-- ===== src/Ingest/Alike.antt =====
-- Two databases with the same cursor and the same rows of one item: cycles keep them so, and a cycle that
-- lists no change of the item leaves its rows alone.
use text.Mathlib.Text.{◌==◌ as str_eq}
use text.Mathlib.TextEquality.{eq_iff}
use mcp_data_gateway.Prelude.{
  ℕ, ◌≡◌, ◌≢◌, refl, sym, ap, subst, ◌∙◌, String, Bool, true, false, inl, inr, List, [], ◌∷◌,
  Option, none, some, Bool-cases, All,
}
use mcp_data_gateway.Prelude.Result.{ok, err, Result-cases}
use mcp_data_gateway.Connector.{ChangeItem, DeltaResult, Outcome}
use mcp_data_gateway.Ingest.{
  ChunkRow, Db, Env, process_item, process_items, save_cursor, changed, loaded, run_cycle,
}
use mcp_data_gateway.Ingest.Rows.{rows_of}
use mcp_data_gateway.Ingest.Cycle.{
  target, process_item-own, process_item-other, process_items-other,
}
use mcp_data_gateway.Ingest.Drive.{Lists, cycles, env_at}

module _ (x : String) where
  abbrev pub Alike : Db → Db → Type 0
  Alike d e = (d.cursor ≡ e.cursor) × (rows_of x d.table ≡ rows_of x e.table)

  pub Alike-trans : (c d e : Db) → Alike c d → Alike d e → Alike c e
  Alike-trans c d e (p, q) (r, s) = (p ∙ r, q ∙ s)

  -- The connector lists no change of the item.
  abbrev pub Spares : Env → Type 0
  Spares env =
      (cursor : Option String) (delta : DeltaResult String)
      → env.connector.list_changes cursor ≡ ok delta
      → All (λ c. x ≢ c.remote_id) delta.changes

  module _ (env : Env) where
    process_item-Alike :
        (item : ChangeItem) (t u : List ChunkRow)
        → rows_of x t ≡ rows_of x u
        → rows_of x (process_item env item t).0 ≡ rows_of x (process_item env item u).0
    process_item-Alike item t u h = elim (Bool-cases (str_eq x item.remote_id)) [
      | inl e ↦
          let same = (eq_iff x item.remote_id).0 e in
          subst (λ y. rows_of y (process_item env item t).0 ≡ rows_of y (process_item env item u).0)
            (sym same)
            (process_item-own env item t
              ∙ ap (target env item) (subst (λ y. rows_of y t ≡ rows_of y u) same h)
              ∙ sym (process_item-own env item u))
      | inr n ↦
          let ne : x ≢ item.remote_id = λ e. cc ((eq_iff x item.remote_id).1 e, n) in
          process_item-other env item x t ne ∙ h ∙ sym (process_item-other env item x u ne)
    ]

    process_items-Alike :
        (items : List ChangeItem) (t u : List ChunkRow)
        → rows_of x t ≡ rows_of x u
        → rows_of x (process_items env items t).0 ≡ rows_of x (process_items env items u).0
    unfolding process_items
    process_items-Alike [] t u h = h
    process_items-Alike (item ∷ items) t u h =
        process_items-Alike items (process_item env item t).0 (process_item env item u).0
          (process_item-Alike item t u h)

    saved-Alike :
        (saves : Bool) (c d : Option String) (p q : List ChunkRow × ℕ) (next : Option String)
        → c ≡ d
        → rows_of x p.0 ≡ rows_of x q.0
        → Alike (save_cursor saves c p next).0 (save_cursor saves d q next).0
    unfolding save_cursor
    saved-Alike saves c d (t, n) (u, m) none e h = (e, h)
    saved-Alike true c d (t, n) (u, m) (some s) e h = (refl, h)
    saved-Alike false c d (t, n) (u, m) (some s) e h = (e, h)

    changed-Alike :
        (d e : Db) (o : Outcome (DeltaResult String))
        → Alike d e
        → Alike (changed env d o).0 (changed env e o).0
    unfolding changed
    changed-Alike d e (err problem) h = h
    changed-Alike d e (ok delta) (c, r) =
        saved-Alike env.saves d.cursor e.cursor (process_items env delta.changes d.table)
          (process_items env delta.changes e.table) delta.next_cursor c
          (process_items-Alike delta.changes d.table e.table r)

    loaded-Alike :
        (loads : Bool) (d e : Db) → Alike d e → Alike (loaded env d loads).0 (loaded env e loads).0
    unfolding loaded
    loaded-Alike false d e h = h
    loaded-Alike true d e h =
        subst
          (λ c.
            Alike (changed env d (env.connector.list_changes d.cursor)).0
              (changed env e (env.connector.list_changes c)).0)
          h.0 (changed-Alike d e (env.connector.list_changes d.cursor) h)

    pub run_cycle-Alike : (d e : Db) → Alike d e → Alike (run_cycle env d).0 (run_cycle env e).0
    unfolding run_cycle
    run_cycle-Alike d e h = loaded-Alike env.loads d e h

    saved-table :
        (saves : Bool) (old : Option String) (p : List ChunkRow × ℕ) (next : Option String)
        → (save_cursor saves old p next).0.table ≡ p.0
    unfolding save_cursor
    saved-table saves old (t, n) none = refl
    saved-table true old (t, n) (some c) = refl
    saved-table false old (t, n) (some c) = refl

    loaded-Spares :
        (loads : Bool) (db : Db)
        → Spares env
        → rows_of x (loaded env db loads).0.table ≡ rows_of x db.table
    unfolding loaded changed
    loaded-Spares false db h = refl
    loaded-Spares true db h = elim (Result-cases (env.connector.list_changes db.cursor)) [
      | inl (delta, e) ↦ rw e (
          ap (rows_of x) (
            saved-table env.saves db.cursor (process_items env delta.changes db.table)
              delta.next_cursor)
          ∙ process_items-other env delta.changes x db.table (h db.cursor delta e))
      | inr (problem, e) ↦ rw e refl
    ]

    pub run_cycle-Spares :
        (db : Db) → Spares env → rows_of x (run_cycle env db).0.table ≡ rows_of x db.table
    unfolding run_cycle
    run_cycle-Spares db h = loaded-Spares env.loads db h

  pub cycles-Alike :
      (env : Env) (lists : Lists) (times : List ℕ) (d e : Db)
      → Alike d e
      → Alike (cycles env lists times d) (cycles env lists times e)
  unfolding cycles
  cycles-Alike env lists [] d e h = h
  cycles-Alike env lists (now ∷ times) d e h =
      cycles-Alike env lists times (run_cycle (env_at env lists now) d).0
        (run_cycle (env_at env lists now) e).0 (run_cycle-Alike (env_at env lists now) d e h)
