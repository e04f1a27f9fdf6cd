-- ===== src/Connector/Zoho/Bfs/Crawl.antt =====
-- One traversal of a drive whose folders answer: calls of `list_changes`, each on the cursor that the one
-- in front of it returned, until the queue is drained.
use mcp_data_gateway.Prelude.{
  ℕ, ◌≤◌, ◌≡◌, refl, sym, ap, subst, ◌∙◌, ◌⊎◌, String, true, inl, inr, List, [], ◌∷◌, ◌++◌,
  append_assoc, append-nil, Option, none, some, Elem,
}
use mcp_data_gateway.Prelude.Int.{ℤ}
use mcp_data_gateway.Prelude.Result.{ok, err}
use mcp_data_gateway.Connector.{ChangeItem, Outcome}
use mcp_data_gateway.Connector.Zoho.Bfs.Pages.{Chain, pages}
use mcp_data_gateway.Connector.Zoho.Bfs.{
  FolderCursor, ZohoCursor, ZohoFileItem, PageReply, is_folder, root_cursor, list_changes,
  changes_of,
}

-- The folders below a root, where `listing` gives the items of each.
pub data Below (listing : String → List ZohoFileItem) (root : String) : String → Type 0 where
  in_root :
      (item : ZohoFileItem)
      → Elem item (listing root)
      → is_folder item ≡ true
      → Below listing root item.id
  in_folder :
      {folder : String} (item : ZohoFileItem)
      → Below listing root folder
      → Elem item (listing folder)
      → is_folder item ≡ true
      → Below listing root item.id

-- a folder among the items of the root, or of a folder below it
pub Below-item :
    {listing : String → List ZohoFileItem} {root : String} (x : String) (item : ZohoFileItem)
    → (x ≡ root) ⊎ Below listing root x
    → Elem item (listing x)
    → is_folder item ≡ true
    → Below listing root item.id
Below-item {listing} x item (inl e) i f = in_root item (subst (λ u. Elem item (listing u)) e i) f
Below-item x item (inr b) i f = in_folder item b i f

-- The identifiers queued, each to be read from its first page.
abbrev pub cursors : List String → List FolderCursor
cursors [] = []
cursors (x ∷ xs) = root_cursor x ∷ cursors xs

pub cursors-append : (xs ys : List String) → cursors (xs ++ ys) ≡ cursors xs ++ cursors ys
cursors-append [] ys = refl
cursors-append (x ∷ xs) ys = ap (◌∷◌ (root_cursor x)) (cursors-append xs ys)

-- The cursor of a run from a root, with its watermark and its start, with some folders visited and some
-- queued.
abbrev pub at : String → ℕ → ℕ → List String → List String → ZohoCursor
at root watermark started visited queued = record {
  watermark_ms = watermark;
  queue = cursors queued;
  visited = visited;
  root_id = root;
  run_started_ms = started;
}

-- The text of a cursor that a call returned decodes.
abbrev pub as_decoded : Option ZohoCursor → Option (Option ZohoCursor)
as_decoded none = none
as_decoded (some s) = some (some s)

module _ (format_epoch_ms : ℤ → List ℕ) where
  -- The changes of the files among some items of a folder.
  unfoldable pub yields : String → List ZohoFileItem → List ChangeItem
  yields folder [] = []
  yields folder (item ∷ items) = changes_of format_epoch_ms folder item ++ yields folder items

  -- The changes of the files of some folders, folder by folder.
  unfoldable pub yields_all : (String → List ZohoFileItem) → List String → List ChangeItem
  yields_all listing [] = []
  yields_all listing (folder ∷ folders) =
      yields folder (listing folder) ++ yields_all listing folders

  -- Calls of `list_changes` at some times, each on the cursor that the one in front of it returned,
  -- with the changes of all calls.
  unfoldable pub calls :
      ℕ
      → (String → ℕ → ℕ → PageReply)
      → String
      → List ℕ
      → Option (Option ZohoCursor)
      → List ChangeItem
      → Option (Outcome (Option (Option ZohoCursor) × List ChangeItem))
  calls fuel page start [] cursor changes = some (ok (cursor, changes))
  calls fuel page start (now ∷ times) cursor changes =
      elim (list_changes format_epoch_ms fuel page now start cursor) [
        | none ↦ none
        | some (err e) ↦ some (err e)
        | some (ok r) ↦
            calls fuel page start times (as_decoded r.next_cursor) (changes ++ r.changes)
      ]

  pub yields_all-append :
      (listing : String → List ZohoFileItem) (xs ys : List String)
      → yields_all listing (xs ++ ys) ≡ yields_all listing xs ++ yields_all listing ys
  unfolding yields_all
  yields_all-append listing [] ys = refl
  yields_all-append listing (x ∷ xs) ys =
      ap (λ u. yields x (listing x) ++ u) (yields_all-append listing xs ys)
      ∙ sym (append_assoc (yields x (listing x)) (yields_all listing xs) (yields_all listing ys))

  pub yields_all-last :
      (listing : String → List ZohoFileItem) (xs : List String) (x : String)
      → yields_all listing (xs ++ (x ∷ [])) ≡ yields_all listing xs ++ yields x (listing x)
  unfolding yields_all
  yields_all-last listing xs x =
      yields_all-append listing xs (x ∷ [])
      ∙ ap (λ u. yields_all listing xs ++ u) (append-nil (yields x (listing x)))

-- A drive below `root`, as it answers within one run: the pages of each folder come to an end, and the
-- folders below the root stand in a list.
pub record IsDrive (format_epoch_ms : ℤ → List ℕ) (fuel : ℕ) (page : String → ℕ → PageReply)
    (listing : String → List ZohoFileItem) (root : String) (universe : List String) : Type 0 where
  pub reads_root :
      (c : Chain (page root) 0 (listing root)) × (pages format_epoch_ms (page root) root c ≤ fuel)
  pub reads_below :
      (x : String)
      → Below listing root x
      → (c : Chain (page x) 0 (listing x)) × (pages format_epoch_ms (page x) x c ≤ fuel)
  pub finite : (x : String) → Below listing root x → Elem x universe
