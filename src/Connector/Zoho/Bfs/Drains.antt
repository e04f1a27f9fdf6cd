-- ===== src/Connector/Zoho/Bfs/Drains.antt =====
-- The calls of one run against the drive: how many there are, and what they return.
use mcp_data_gateway.Prelude.{
  ℕ, suc, ◌+◌, ◌-◌, ◌≤◌, ◌<◌, take, ◌↔◌, ◌≡◌, refl, sym, ap, subst, ◌∙◌, ◌⊎◌, String, inl, inr,
  List, [], ◌∷◌, ◌++◌, append-nil, Option, some, arith, length, length-append, Elem,
}
use mcp_data_gateway.Prelude.Int.{ℤ}
use mcp_data_gateway.Connector.Zoho.{watermark_overlap_ms}
use mcp_data_gateway.Prelude.Result.{ok}
use mcp_data_gateway.Connector.{ChangeItem}
use mcp_data_gateway.Connector.Zoho.Bfs.Count.{Distinct-length}
use mcp_data_gateway.Connector.Zoho.Bfs.Pages.{Chain, pages, read_folder-Chain}
use mcp_data_gateway.Connector.Zoho.Bfs.Visits.{Distinct}
use mcp_data_gateway.Connector.Zoho.Bfs.{
  ZohoCursor, ZohoFileItem, PageReply, list_from, list_changes, folder_done,
}
use mcp_data_gateway.Connector.Zoho.Bfs.Crawl.{
  Below, yields, yields_all, calls, yields_all-last, at, IsDrive,
}
use mcp_data_gateway.Connector.Zoho.Bfs.Turn.{Adds, take_items_at}
use mcp_data_gateway.Connector.Zoho.Bfs.Midway.{Midway, Midway-next, queued-Below, Below-found}

module _ (format_epoch_ms : ℤ → List ℕ) (fuel : ℕ) (page : String → ℕ → ℕ → PageReply)
    (listing : String → List ZohoFileItem) (start root : String) (watermark started : ℕ)
    (universe : List String)
    (drive : IsDrive format_epoch_ms fuel
      (λ x. page x (watermark - watermark_overlap_ms))
      listing
      root
      universe) where
  -- A run that is drained.
  pub record Drained (cursor : Option (Option ZohoCursor)) (changes : List ChangeItem)
      (times : List ℕ) (calls_made : ℕ) : Type 0 where
    pub found : List String
    pub count : ℕ
    pub result :
        calls format_epoch_ms fuel page start (take count times) cursor changes
        ≡ some (
            ok (
              some (some (at root watermark started found [])),
              yields_all format_epoch_ms listing (root ∷ found),
            ))
    pub counts : calls_made + count ≡ suc (length found)
    pub distinct : Distinct found
    pub exact : (x : String) → Elem x found ↔ Below listing root x
    pub bounded : length found ≤ length universe

  -- a call on a queue that is not empty, on a folder that answers
  reads_folder :
      (x : String) (visited queued : List String) (now : ℕ)
      (a : Adds format_epoch_ms root watermark started x (listing x) visited queued [])
      (c : Chain (page x (watermark - watermark_overlap_ms)) 0 (listing x))
      → pages format_epoch_ms (page x (watermark - watermark_overlap_ms)) x c ≤ fuel
      → list_changes format_epoch_ms fuel page now start
          (some (some (at root watermark started visited (x ∷ queued))))
        ≡ folder_done format_epoch_ms (
            some (
              ok (
                at root watermark started (visited ++ a.found) (queued ++ a.found),
                yields format_epoch_ms x (listing x),
              )))
  unfolding list_changes list_from
  reads_folder x visited queued now a c l =
      rw
        (
          read_folder-Chain format_epoch_ms (page x (watermark - watermark_overlap_ms)) x fuel 0
              (listing x) (at root watermark started visited queued) [] c l,
          a.result,
        )
        refl

  -- such a call, and the calls behind it
  calls_next :
      (x : String) (visited queued : List String) (now : ℕ) (times : List ℕ)
      (changes : List ChangeItem)
      (a : Adds format_epoch_ms root watermark started x (listing x) visited queued [])
      (c : Chain (page x (watermark - watermark_overlap_ms)) 0 (listing x))
      → pages format_epoch_ms (page x (watermark - watermark_overlap_ms)) x c ≤ fuel
      → calls format_epoch_ms fuel page start
          (now ∷ times)
          (some (some (at root watermark started visited (x ∷ queued))))
          changes
        ≡ calls format_epoch_ms fuel page start times
            (some (some (at root watermark started (visited ++ a.found) (queued ++ a.found))))
            (changes ++ yields format_epoch_ms x (listing x))
  unfolding calls folder_done
  calls_next x visited queued now times changes a c l =
      rw (reads_folder x visited queued now a c l, calls) refl

  queued_reads :
      (x : String)
      → (x ≡ root) ⊎ Below listing root x
      → (c : Chain (page x (watermark - watermark_overlap_ms)) 0 (listing x)) × (pages
            format_epoch_ms
            (page x (watermark - watermark_overlap_ms))
            x
            c
          ≤ fuel)
  queued_reads x (inl e) =
      subst
        (λ u.
          (c : Chain (page u (watermark - watermark_overlap_ms)) 0 (listing u)) × (pages
              format_epoch_ms (page u (watermark - watermark_overlap_ms)) u c
            ≤ fuel))
        (sym e) drive.reads_root
  queued_reads x (inr b) = drive.reads_below x b

  -- the calls that are left to be made
  drains :
      (times : List ℕ) (visited done queued : List String)
      → Midway format_epoch_ms listing root watermark started visited done queued
      → length universe < length done + length times
      → Drained
          (some (some (at root watermark started visited queued)))
          (yields_all format_epoch_ms listing done)
          times
          (length done)
  unfolding calls
  drains times visited done [] m h =
      let all = m.accounts ∙ append-nil done in
      record {
        found = visited;
        count = 0;
        result =
            ap
              (λ u. some (
                ok (
                  some (some (at root watermark started visited [])),
                  yields_all format_epoch_ms listing u,
                )))
              (sym all);
        counts = omega (arith, ap length all);
        distinct = m.distinct;
        exact = λ x. (
          m.below x,
          Below-found format_epoch_ms listing root watermark started visited done x m,
        );
        bounded = Distinct-length visited universe m.distinct (λ x e. drive.finite x (m.below x e));
      }
  drains [] visited done (x ∷ queued) m h =
      let few : length visited ≤ length universe =
        Distinct-length visited universe m.distinct (λ y e. drive.finite y (m.below y e)) in
      absurd (omega (arith, ap length m.accounts, length-append done (x ∷ queued)))
  drains (now ∷ times) visited done (x ∷ queued) m h =
      let b = queued-Below format_epoch_ms listing root watermark started x visited done queued m in
      let (c, l) = queued_reads x b in
      let a =
        take_items_at format_epoch_ms root watermark started x (listing x) visited queued [] in
      let size : length (done ++ (x ∷ [])) ≡ length done + 1 = length-append done (x ∷ []) in
      let rest =
        drains times (visited ++ a.found) (done ++ (x ∷ [])) (queued ++ a.found)
          (Midway-next format_epoch_ms listing root watermark started x visited done queued a b m)
          (omega arith) in
      record {
        found = rest.found;
        count = suc rest.count;
        result =
            calls_next x visited queued now (take rest.count times)
              (yields_all format_epoch_ms listing done) a c l
            ∙ ap
                (calls format_epoch_ms fuel page start (take rest.count times) (
                  some (some (at root watermark started (visited ++ a.found) (queued ++ a.found)))))
                (sym (yields_all-last format_epoch_ms listing done x))
            ∙ rest.result;
        counts = omega (arith, rest.counts);
        distinct = rest.distinct;
        exact = rest.exact;
        bounded = rest.bounded;
      }

  -- A run begins with the root alone queued, the pages of each folder within the root come to an end,
  -- and the folders below the root stand in a list. Then the calls of `list_changes`, each on the cursor
  -- that the one in front of it returned, drain the queue after one call for the root and one for each
  -- folder below it, no more than the list has and one. The folders found are those below the root,
  -- each once, and the changes are those of the files of the root and of these folders, folder by folder.
  pub crawl_drains :
      (times : List ℕ)
      → length universe < length times
      → Drained (some (some (at root watermark started [] (root ∷ [])))) [] times 0
  unfolding yields_all
  crawl_drains times h =
      drains times [] [] (root ∷ [])
        (record {
          accounts = refl;
          distinct = tt;
          below = λ x e. absurd e;
          closed = λ folder item e. absurd e;
        })
        (omega arith)
