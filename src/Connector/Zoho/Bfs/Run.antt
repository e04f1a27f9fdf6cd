-- ===== src/Connector/Zoho/Bfs/Run.antt =====
-- Runs of the traversal: calls of `list_changes`, each on the cursor that the one in front of it returned.
use mcp_data_gateway.Prelude.{
  ℕ, ◌≡◌, refl, sym, ap, subst, ◌∙◌, String, true, false, List, [], ◌∷◌, ◌++◌, append_assoc,
  append-nil, Option, none, some, some-injective, Elem,
}
use mcp_data_gateway.Prelude.Int.{ℤ}
use mcp_data_gateway.Prelude.Result.{ok, err}
use mcp_data_gateway.Connector.{ChangeItem, DeltaResult, Outcome}
use mcp_data_gateway.Connector.Zoho.Bfs.Pages.{Chain, Chain-of_read_folder}
use mcp_data_gateway.Connector.Zoho.Bfs.Visits.{ids, Distinct, Extends, take_items_visits}
use mcp_data_gateway.Connector.Zoho.Bfs.{
  FolderCursor, ZohoCursor, ZohoFileItem, PageReply, folder_done, is_folder, root_cursor, restart,
  list_from, list_changes, from_ms,
}

-- A call on a queue that is not empty reads the folder at its head to the end. The cursor that it
-- returns is `state`.
pub record ReadsFolder (page : String → ℕ → ℕ → PageReply) (s : ZohoCursor) (fc : FolderCursor)
    (rest : List FolderCursor) (r : DeltaResult ZohoCursor) : Type 0 where
  pub items : List ZohoFileItem
  pub state : ZohoCursor
  pub chain : Chain (page fc.folder_id (from_ms s)) fc.next_offset items
  pub next : r.next_cursor ≡ some state
  pub visits_folders :
      (item : ZohoFileItem) → Elem item items → is_folder item ≡ true → Elem item.id state.visited
  pub extends : Extends (record s { queue = rest }) state

next_or : Option (Outcome (DeltaResult ZohoCursor)) → Option ZohoCursor
next_or (some (ok r)) = r.next_cursor
next_or _ = none

module _ (format_epoch_ms : ℤ → List ℕ) where
  pub folder_done_ok :
      (p : Option (Outcome (ZohoCursor × List ChangeItem))) (r : DeltaResult ZohoCursor)
      → folder_done format_epoch_ms p ≡ some (ok r)
      → (q : ZohoCursor × List ChangeItem) × (p ≡ some (ok q)) × (r.next_cursor ≡ some q.0)
  unfolding folder_done next_or
  folder_done_ok none r h = cc
  folder_done_ok (some (err e)) r h = cc
  folder_done_ok (some (ok (t, cs))) r h = ((t, cs), refl, ap next_or (sym h))

  -- A call that returns a cursor has read the folder at the head of the queue to its last page. Each
  -- folder among the items of these pages is visited behind it; what was not visited is queued.
  pub list_from-ReadsFolder :
      (fuel now : ℕ) (page : String → ℕ → ℕ → PageReply) (s : ZohoCursor) (fc : FolderCursor)
      (rest : List FolderCursor) (r : DeltaResult ZohoCursor)
      → list_from format_epoch_ms fuel page now s (fc ∷ rest) ≡ some (ok r)
      → ReadsFolder page s fc rest r
  unfolding list_from folder_done
  list_from-ReadsFolder fuel now page s fc rest r h =
      let s' = record s { queue = rest } in
      let (q, e, n) = folder_done_ok _ r h in
      let (items, c, t) =
        Chain-of_read_folder format_epoch_ms (page fc.folder_id (from_ms s)) fc.folder_id fuel
          fc.next_offset s' [] q e in
      let (ext, met) = take_items_visits format_epoch_ms fc.folder_id items s' [] in
      record {
        items = items;
        state = q.0;
        chain = c;
        next = n;
        visits_folders = λ item i f. subst (λ u. Elem item.id u.0.visited) t (met item i f);
        extends = subst (λ u. Extends s' u.0) t ext;
      }

  -- The cursors of a run that starts at `root` with the watermark and the clock `now`, and the folders
  -- that were read up to there. Between two calls the service may answer anything.
  pub data Reaches (root : String) (watermark now : ℕ) : ZohoCursor → List String → Type 0 where
    starts :
        {s : ZohoCursor}
        → s.root_id ≡ root
        → s.visited ≡ []
        → s.queue ≡ root_cursor root ∷ []
        → s.watermark_ms ≡ watermark
        → s.run_started_ms ≡ now
        → Reaches root watermark now s []
    reads :
        {s t : ZohoCursor} {fc : FolderCursor} {rest : List FolderCursor} {done : List String}
        (fuel clock : ℕ) (page : String → ℕ → ℕ → PageReply) (r : DeltaResult ZohoCursor)
        → Reaches root watermark now s done
        → s.queue ≡ fc ∷ rest
        → list_from format_epoch_ms fuel page clock s (fc ∷ rest) ≡ some (ok r)
        → r.next_cursor ≡ some t
        → Reaches root watermark now t (done ++ fc.folder_id ∷ [])

  -- What holds in every cursor of a run.
  pub record IsRun (root : String) (watermark now : ℕ) (s : ZohoCursor) (done : List String)
      : Type 0 where
    pub accounts : root ∷ s.visited ≡ done ++ ids s.queue
    pub distinct : Distinct s.visited
    pub root_is : s.root_id ≡ root
    pub watermark_is : s.watermark_ms ≡ watermark
    pub start_is : s.run_started_ms ≡ now

  step_accounts :
      (root x : String) (visited visited' done queued queued' found : List String)
      → root ∷ visited ≡ done ++ x ∷ queued
      → visited' ≡ visited ++ found
      → queued' ≡ queued ++ found
      → root ∷ visited' ≡ (done ++ x ∷ []) ++ queued'
  step_accounts root x visited visited' done queued queued' found a v q =
      ap (◌∷◌ root) v
      ∙ ap (λ u. u ++ found) a
      ∙ append_assoc done (x ∷ queued) found
      ∙ ap (λ u. done ++ x ∷ u) (sym q)
      ∙ sym (append_assoc done (x ∷ []) queued')

  -- In every cursor of a run, the root and the folders found are exactly those that were read and
  -- those that are queued, in this order. No folder is found twice, and the root, the watermark and
  -- the start of the run stay as they were.
  pub Reaches-IsRun :
      (root : String) (watermark now : ℕ) (s : ZohoCursor) (done : List String)
      → Reaches root watermark now s done
      → IsRun root watermark now s done
  Reaches-IsRun root watermark now s done (starts er ev eq ew en) = record {
    accounts = rw (ev, eq) refl;
    distinct = rw ev tt;
    root_is = er;
    watermark_is = ew;
    start_is = en;
  }
  Reaches-IsRun root watermark now t done'
        (reads {s} {fc} {rest} {done} fuel clock page r h q e n) =
      let i = Reaches-IsRun root watermark now s done h in
      let f = list_from-ReadsFolder fuel clock page s fc rest r e in
      let same : f.state ≡ t = some-injective _ _ (sym f.next ∙ n) in
      subst (λ u. IsRun root watermark now u (done ++ fc.folder_id ∷ [])) same
        (record {
          accounts =
              step_accounts root fc.folder_id s.visited f.state.visited done (ids rest)
                (ids f.state.queue) f.extends.found (i.accounts ∙ ap (λ u. done ++ ids u) q)
                f.extends.visits f.extends.queues;
          distinct = f.extends.keeps_distinct i.distinct;
          root_is = f.extends.same_root ∙ i.root_is;
          watermark_is = f.extends.same_watermark ∙ i.watermark_is;
          start_is = f.extends.same_start ∙ i.start_is;
        })

  -- Where the queue of a run is drained, every folder that was found was read, each once and behind
  -- the root, and the call moves the watermark to the start of this run, with the root alone queued.
  pub drained_restarts :
      (root : String) (watermark now : ℕ) (s : ZohoCursor) (done : List String) (fuel clock : ℕ)
      (page : String → ℕ → ℕ → PageReply) (start : String)
      → Reaches root watermark now s done
      → s.queue ≡ []
      → (t : ZohoCursor) × (done ≡ root ∷ s.visited)
        × Distinct s.visited
        × (list_changes format_epoch_ms fuel page clock start (some (some s))
            ≡ some (ok (record { next_cursor = some t; changes = []; more = false })))
        × (t.watermark_ms ≡ now)
        × Reaches root now clock t []
  unfolding list_changes list_from restart
  drained_restarts root watermark now s done fuel clock page start h q =
      let i = Reaches-IsRun root watermark now s done h in
      (
        restart s clock,
        sym (append-nil done) ∙ ap (λ u. done ++ ids u) (sym q) ∙ sym i.accounts,
        i.distinct,
        rw q refl,
        i.start_is,
        starts i.root_is refl (ap (λ u. root_cursor u ∷ []) i.root_is) i.start_is refl,
      )
