-- ===== src/Ingest/Crawled.antt =====
-- The cycles over a Zoho drive against the calls of `list_changes`: which changes they process, and where the
-- saved cursor stands.
use mcp_data_gateway.Prelude.{
  ℕ, ◌≡◌, refl, sym, ap, ◌∙◌, String, true, List, [], ◌∷◌, ◌++◌, append_assoc, append-nil, Option,
  some, some-injective,
}
use mcp_data_gateway.Prelude.Int.{ℤ}
use mcp_data_gateway.Prelude.Result.{ok, ok_same}
use mcp_data_gateway.Connector.{ChangeItem, DeltaResult, Outcome}
use mcp_data_gateway.Connector.Zoho.Bfs.{ZohoCursor, PageReply, list_changes}
use mcp_data_gateway.Connector.Zoho.Bfs.Crawl.{calls, as_decoded}
use mcp_data_gateway.Connector.Zoho.Bfs.Calls.{calls-first, list_changes-next}
use mcp_data_gateway.Connector.Zoho.Source.{Json, IsJson, from_json, to_json, list_text, next_text}
use mcp_data_gateway.Ingest.{Db, Env, process_items, run_cycle}
use mcp_data_gateway.Ingest.Cycle.{process_items-append}
use mcp_data_gateway.Ingest.Drive.{Lists, cycles, env_at, run_cycle_at}

-- Where `list_changes` returns, the connector answers with what it returns.
abbrev pub AnswersAs :
    Json → (ℤ → List ℕ) → ℕ → (String → ℕ → ℕ → PageReply) → String → Lists → Type 0
AnswersAs json format_epoch_ms fuel page root lists =
    (now : ℕ) (cursor : Option String) (r : Outcome (DeltaResult String))
    → list_text json format_epoch_ms fuel page now root cursor ≡ some r
    → lists now cursor ≡ r

module _ (json : Json) (is_json : IsJson json) (format_epoch_ms : ℤ → List ℕ) (fuel : ℕ)
    (page : String → ℕ → ℕ → PageReply) (root : String) (lists : Lists)
    (answers : AnswersAs json format_epoch_ms fuel page root lists) (env : Env)
    (loads : env.loads ≡ true) (saves : env.saves ≡ true) where
  -- a call that returns, with its cursor as a text
  list_text_ok :
      (now : ℕ) (cursor : Option String) (r : DeltaResult ZohoCursor) (t : ZohoCursor) (c : String)
      → list_changes format_epoch_ms fuel page now root (from_json json cursor) ≡ some (ok r)
      → r.next_cursor ≡ some t
      → json.to_string t ≡ some c
      → list_text json format_epoch_ms fuel page now root cursor
        ≡ some (ok (record { next_cursor = some c; changes = r.changes; more = r.more }))
  unfolding list_text next_text to_json
  list_text_ok now cursor r t c e n j = rw (e, n, next_text, to_json, j) refl

  from_json-some :
      (t : ZohoCursor) (c : String)
      → json.to_string t ≡ some c
      → from_json json (some c) ≡ some (some t)
  unfolding from_json
  from_json-some t c j = ap some (is_json.round t c j)

  cycles-first :
      (now : ℕ) (times : List ℕ) (db : Db)
      → cycles env lists (now ∷ times) db
        ≡ cycles env lists times (run_cycle (env_at env lists now) db).0
  unfolding cycles
  cycles-first now times db = refl

  cycles-none : (db : Db) → cycles env lists [] db ≡ db
  unfolding cycles
  cycles-none db = refl

  no_changes : (db : Db) → (cycles env lists [] db).table ≡ (process_items env [] db.table).0
  unfolding cycles process_items
  no_changes db = refl

  calls_none :
      {cursor reached : Option (Option ZohoCursor)} {before changes : List ChangeItem}
      → calls format_epoch_ms fuel page root [] cursor before ≡ some (ok (reached, changes))
      → ◌≡◌ {A = Option (Option ZohoCursor) × List ChangeItem} (cursor, before) (reached, changes)
  unfolding calls
  calls_none h = ok_same _ _ refl (some-injective _ _ h)

  -- the cycle of a call that returns
  cycle_done :
      (now : ℕ) (db : Db) (r : DeltaResult ZohoCursor) (t : ZohoCursor) (c : String)
      → list_changes format_epoch_ms fuel page now root (from_json json db.cursor) ≡ some (ok r)
      → r.next_cursor ≡ some t
      → json.to_string t ≡ some c
      → (run_cycle (env_at env lists now) db).0
        ≡ record { table = (process_items env r.changes db.table).0; cursor = some c }
  cycle_done now db r t c e n j =
      run_cycle_at env lists now db
        (record { next_cursor = some c; changes = r.changes; more = r.more }) c loads saves
        (answers now db.cursor _ (list_text_ok now db.cursor r t c e n j)) refl

  -- What some cycles have done, where the calls that they make return.
  pub record Followed (times : List ℕ) (db : Db) (before : List ChangeItem)
      (reached : Option (Option ZohoCursor)) (changes : List ChangeItem) : Type 0 where
    pub made : List ChangeItem
    pub splits : changes ≡ before ++ made
    pub table : (cycles env lists times db).table ≡ (process_items env made db.table).0
    pub cursor : from_json json (cycles env lists times db).cursor ≡ reached

  pub follow :
      (times : List ℕ) (db : Db) (before : List ChangeItem) (cursor : Option (Option ZohoCursor))
      (changes : List ChangeItem)
      → calls format_epoch_ms fuel page root times (from_json json db.cursor) before
        ≡ some (ok (cursor, changes))
      → Followed times db before cursor changes
  follow [] db before cursor changes h =
      let same = calls_none h in
      record {
        made = [];
        splits = sym (ap (λ p. p.1) same) ∙ sym (append-nil before);
        table = no_changes db;
        cursor = ap (λ d. from_json json d.cursor) (cycles-none db) ∙ ap (λ p. p.0) same;
      }
  follow (now ∷ times) db before cursor changes h =
      let (r, e, later) =
        calls-first format_epoch_ms fuel page root now times (from_json json db.cursor) before
          (cursor, changes) h in
      let (t, n) =
        list_changes-next format_epoch_ms fuel page root now (from_json json db.cursor) r e in
      let (c, j) = is_json.text t in
      let turn = cycle_done now db r t c e n j in
      let rest =
        follow times (record { table = (process_items env r.changes db.table).0; cursor = some c })
          (before ++ r.changes) cursor changes
          (ap (λ u. calls format_epoch_ms fuel page root times u (before ++ r.changes))
              (from_json-some t c j ∙ ap as_decoded (sym n))
            ∙ later) in
      let step = cycles-first now times db ∙ ap (cycles env lists times) turn in
      record {
        made = r.changes ++ rest.made;
        splits = rest.splits ∙ append_assoc before r.changes rest.made;
        table =
            ap (λ d. d.table) step
            ∙ rest.table
            ∙ sym (process_items-append env r.changes rest.made db.table);
        cursor = ap (λ d. from_json json d.cursor) step ∙ rest.cursor;
      }
