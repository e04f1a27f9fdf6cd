-- ===== src/Connector/Zoho/Bfs.antt =====
-- The traversal of zoho.rs: `ZohoCursor`, `list_folder_page` and `list_changes`. A cursor is the record
-- that the JSON text stands for. What the service answers to each page request, and the clock, are
-- parameters; pages are read on fuel, and `none` is fuel that runs out.
pub mod Pages
pub mod Visits
pub mod Run
mod Count
pub mod Crawl
mod Turn
mod Midway
pub mod Drains
pub mod Calls
pub mod Yields
pub mod SmallDrive
mod Tests
use text.Mathlib.Text.{◌==◌ as str_eq}
use Prim.Native.Nat.{max}
use mcp_data_gateway.Prelude.{
  ℕ, zero, suc, ◌+◌, ◌-◌, ◌%◌, ◌^◌, String, Bool, true, false, not, ◌&&◌, ◌||◌, List, [], ◌∷◌, ◌++◌,
  Option, none, some, if◌then◌else◌, leb, ltb, ◌==◌, length,
}
use mcp_data_gateway.Prelude.Int.{ℤ}
use mcp_data_gateway.Prelude.Result.{Result, ok, err, ◌>>=◌}
use mcp_data_gateway.Connector.{
  ChangeItem, DeltaResult, ConnectorError, Outcome, auth, throttled, http, other, cursor_invalid,
  access_denied,
}
use mcp_data_gateway.Connector.Zoho.{watermark_overlap_ms}

pub record FolderCursor : Type 0 where
  pub folder_id : String
  pub next_offset : ℕ

pub record ZohoCursor : Type 0 where
  pub watermark_ms : ℕ
  pub queue : List FolderCursor
  pub visited : List String
  pub root_id : String
  pub run_started_ms : ℕ

abbrev pub root_cursor : String → FolderCursor
root_cursor root = record { folder_id = root; next_offset = 0 }

unfoldable pub bootstrap : String → ℕ → ZohoCursor
bootstrap root now = record {
  watermark_ms = 0;
  queue = root_cursor root ∷ [];
  visited = [];
  root_id = root;
  run_started_ms = now;
}

-- `ZohoFileItem` with its attributes; times are rendered by the parameter of `list_changes`
pub record ZohoFileItem : Type 0 where
  pub id : String
  pub name : Option String
  pub kind : Option String
  pub modified_time : Option ℤ
  pub status : Option String
  pub permalink : Option String

-- `FolderListResponse`, decoded
pub record FolderListResponse : Type 0 where
  pub items : Option (List ZohoFileItem)
  pub more_records : Option Bool

-- What comes back for a page: no token, no response, or a status, the header Retry-After if it holds
-- a number, and the body if it decodes.
pub data PageReply : Type 0 where
  no_token : ConnectorError → PageReply
  no_response : PageReply
  response : ℕ → Option ℕ → Option FolderListResponse → PageReply

-- `unwrap_or`
abbrev pub unwrap_or {ℓ} : {A : Type ℓ} → A → Option A → A
unwrap_or d none = d
unwrap_or d (some a) = a

-- the body, once the status is a success
decode_page : Option FolderListResponse → Outcome (List ZohoFileItem × Bool)
decode_page none = err other
decode_page (some p) = ok (unwrap_or [] p.items, unwrap_or false p.more_records)

-- `list_folder_page`
pub read_page : PageReply → Outcome (List ZohoFileItem × Bool)
unfolding decode_page
read_page (no_token e) = err e
read_page no_response = err other
read_page (response status retry body) =
    if status == 401 || status == 403
    then err (auth access_denied)
    else if status == 429
    then err (throttled (unwrap_or 60 retry))
    else if not (leb 200 status && ltb status 300)
    then err (http status)
    else decode_page body

abbrev pub has_text : Option String → String → Bool
has_text none t = false
has_text (some s) t = str_eq s t

abbrev pub is_folder : ZohoFileItem → Bool
is_folder item = has_text item.kind "folder"

abbrev pub is_deleted : ZohoFileItem → Bool
is_deleted item = has_text item.status "deleted"

unfoldable pub contains : List String → String → Bool
contains [] s = false
contains (t ∷ ts) s = str_eq t s || contains ts s

-- Enqueue a subfolder that was not seen.
unfoldable pub enqueue : ZohoFileItem → ZohoCursor → ZohoCursor
unfolding contains
enqueue item state =
    if is_folder item && not (contains state.visited item.id)
    then record state {
      visited = state.visited ++ item.id ∷ [];
      queue = state.queue ++ root_cursor item.id ∷ [];
    }
    else state

-- The queue is drained: the watermark advances and the next run begins at the root.
unfoldable pub restart : ZohoCursor → ℕ → ZohoCursor
restart state now = record state {
  watermark_ms = state.run_started_ms;
  run_started_ms = now;
  visited = [];
  queue = root_cursor state.root_id ∷ [];
}

abbrev is_empty : List FolderCursor → Bool
is_empty [] = true
is_empty (_ ∷ _) = false

abbrev pub from_ms : ZohoCursor → ℕ
from_ms state = state.watermark_ms - watermark_overlap_ms

module _ (format_epoch_ms : ℤ → List ℕ) where
  abbrev pub format_time : Option ℤ → Option (List ℕ)
  format_time none = none
  format_time (some ms) = some (format_epoch_ms ms)

  -- The change that a file yields; a folder yields none.
  unfoldable pub changes_of : String → ZohoFileItem → List ChangeItem
  changes_of folder item =
      if is_folder item
      then []
      else record {
        remote_id = item.id;
        parent_id = some folder;
        name = unwrap_or "" item.name;
        is_folder = false;
        modified_at = format_time item.modified_time;
        deleted = is_deleted item;
        raw = item.permalink;
      }
        ∷ []

  -- The loop over the items of a page.
  pub take_items :
      String → List ZohoFileItem → ZohoCursor → List ChangeItem → ZohoCursor × List ChangeItem
  unfolding enqueue changes_of
  take_items folder [] state changes = (state, changes)
  take_items folder (item ∷ items) state changes =
      take_items folder items (enqueue item state) (changes ++ changes_of folder item)

  -- What a page leads to: an error, the end of the folder, or the next page.
  abbrev PageEnd : Type 0
  PageEnd = Option (Outcome (ZohoCursor × List ChangeItem))

  -- The loop over the pages of one folder. The offset is a `u32`.
  pub read_folder : ℕ → (ℕ → PageReply) → String → ℕ → ZohoCursor → List ChangeItem → PageEnd
  read_folder zero page folder offset state changes = none
  read_folder (suc fuel) page folder offset state changes = elim (read_page (page offset)) [
    | err e ↦ some (err e)
    | ok (items, more) ↦
        let (state', changes') = take_items folder items state changes in
        let next =
          read_folder fuel page folder ((offset + length items) % 2 ^ 32) state' changes' in
        if more then next else some (ok (state', changes'))
  ]

  -- the result, once the folder is read
  pub folder_done :
      Option (Outcome (ZohoCursor × List ChangeItem)) → Option (Outcome (DeltaResult ZohoCursor))
  folder_done none = none
  folder_done (some (err e)) = some (err e)
  folder_done (some (ok (state, changes))) = some (
      ok
        (record { next_cursor = some state; changes = changes; more = not (is_empty state.queue) }))

  -- `list_changes` behind the decoding of the cursor. `page folder from offset` is the reply to a
  -- page request.
  pub list_from :
      ℕ
      → (String → ℕ → ℕ → PageReply)
      → ℕ
      → ZohoCursor
      → List FolderCursor
      → Option (Outcome (DeltaResult ZohoCursor))
  unfolding folder_done restart
  list_from fuel page now state [] =
      some (ok (record { next_cursor = some (restart state now); changes = []; more = false }))
  list_from fuel page now state (fc ∷ rest) = folder_done (
      read_folder fuel (page fc.folder_id (from_ms state)) fc.folder_id fc.next_offset
        (record state { queue = rest }) [])

  -- The cursor is `none` on the first run, `some none` if its text does not decode.
  unfoldable pub list_changes :
      ℕ
      → (String → ℕ → ℕ → PageReply)
      → ℕ
      → String
      → Option (Option ZohoCursor)
      → Option (Outcome (DeltaResult ZohoCursor))
  unfolding list_from bootstrap
  list_changes fuel page now root none =
      list_from fuel page now (bootstrap root now) (bootstrap root now).queue
  list_changes fuel page now root (some none) = some (err cursor_invalid)
  list_changes fuel page now root (some (some state)) = list_from fuel page now state state.queue
