-- ===== src/Connector/Zoho/Bfs/Calls.antt =====
-- A call in front of other calls: what it returned.
use mcp_data_gateway.Prelude.{
  ℕ, ◌≡◌, refl, sym, ap, ◌⊎◌, inl, inr, String, false, List, [], ◌∷◌, ◌++◌, Option, none, some,
}
use mcp_data_gateway.Prelude.Int.{ℤ}
use mcp_data_gateway.Prelude.Result.{ok, err}
use mcp_data_gateway.Connector.{ChangeItem, DeltaResult, ConnectorError, Outcome}
use mcp_data_gateway.Connector.Zoho.Bfs.{
  FolderCursor, ZohoCursor, PageReply, list_from, list_changes, bootstrap, restart,
}
use mcp_data_gateway.Connector.Zoho.Bfs.Crawl.{calls, as_decoded}
use mcp_data_gateway.Connector.Zoho.Bfs.Run.{folder_done_ok}

call_cases :
    (o : Option (Outcome (DeltaResult ZohoCursor)))
    → (o ≡ none)
      ⊎ (((e : ConnectorError) × (o ≡ some (err e)))
          ⊎ ((r : DeltaResult ZohoCursor) × (o ≡ some (ok r))))
call_cases none = inl refl
call_cases (some (err e)) = inr (inl (e, refl))
call_cases (some (ok r)) = inr (inr (r, refl))

module _ (format_epoch_ms : ℤ → List ℕ) (fuel : ℕ) (page : String → ℕ → ℕ → PageReply)
    (start : String) where
  -- Where calls return, the first one does, and so do those behind it on its cursor.
  pub calls-first :
      (now : ℕ) (times : List ℕ) (cursor : Option (Option ZohoCursor)) (changes : List ChangeItem)
      (q : Option (Option ZohoCursor) × List ChangeItem)
      → calls format_epoch_ms fuel page start (now ∷ times) cursor changes ≡ some (ok q)
      → (r : DeltaResult ZohoCursor) × (list_changes format_epoch_ms fuel page now start cursor
          ≡ some (ok r))
        × (calls format_epoch_ms fuel page start times
              (as_decoded r.next_cursor)
              (changes ++ r.changes)
            ≡ some (ok q))
  unfolding calls
  calls-first now times cursor changes q h =
      elim (call_cases (list_changes format_epoch_ms fuel page now start cursor)) [
        | inl e ↦ absurd (cc (rw (e, calls) at h))
        | inr (inl (x, e)) ↦ absurd (cc (rw (e, calls) at h))
        | inr (inr (r, e)) ↦ (r, e, (rw (e, calls) at h))
      ]

  list_from-next :
      (now : ℕ) (s : ZohoCursor) (queue : List FolderCursor) (r : DeltaResult ZohoCursor)
      → list_from format_epoch_ms fuel page now s queue ≡ some (ok r)
      → (t : ZohoCursor) × (r.next_cursor ≡ some t)
  unfolding list_from
  list_from-next now s [] r h =
      let same : record { next_cursor = some (restart s now); changes = []; more = false } ≡ r =
        cc in
      (restart s now, ap (λ u. u.next_cursor) (sym same))
  list_from-next now s (fc ∷ rest) r h =
      let (q, e, n) = folder_done_ok format_epoch_ms _ r h in (q.0, n)

  -- A call that returns has a cursor for the next one.
  pub list_changes-next :
      (now : ℕ) (cursor : Option (Option ZohoCursor)) (r : DeltaResult ZohoCursor)
      → list_changes format_epoch_ms fuel page now start cursor ≡ some (ok r)
      → (t : ZohoCursor) × (r.next_cursor ≡ some t)
  unfolding list_changes
  list_changes-next now none r h =
      list_from-next now (bootstrap start now) (bootstrap start now).queue r h
  list_changes-next now (some none) r h = cc
  list_changes-next now (some (some s)) r h = list_from-next now s s.queue r h
