-- ===== src/Connector/Graph.antt =====
-- ingestion/src/connector/graph.rs: the delta query of Microsoft Graph, its token cache and the download. Times
-- are in seconds. What the service answers is a parameter; pages are read on fuel, and `none` is fuel that
-- runs out.
pub mod Client
pub mod Delta
mod Tests
use mcp_data_gateway.Prelude.{
  ℕ, zero, suc, ◌+◌, ◌-◌, String, Bool, true, false, not, ◌&&◌, ◌||◌, List, [], ◌∷◌, ◌++◌, Option,
  none, some, if◌then◌else◌, leb, ltb, ◌==◌,
}
use mcp_data_gateway.Prelude.Bytes.{Bytes}
use mcp_data_gateway.Prelude.Result.{Result, ok, err}
use mcp_data_gateway.Connector.{
  ChangeItem, DeltaResult, ConnectorError, Outcome, auth, throttled, http, other, unexpected,
}

-- `RawItem`: whether it has a `file` and a `deleted` is all that is read of these.
pub record RawItem : Type 0 where
  pub id : String
  pub name : Option String
  pub file : Bool
  pub deleted : Bool
  pub download_url : Option String

pub record DeltaPage : Type 0 where
  pub value : List RawItem
  pub next_link : Option String
  pub delta_link : Option String

-- What comes back for a page: no response, or a status, the header Retry-After if it holds a number, and
-- the page if it decodes.
pub data DeltaReply : Type 0 where
  no_response : DeltaReply
  response : ℕ → Option ℕ → Option DeltaPage → DeltaReply

abbrev or_else {ℓ} : {A : Type ℓ} → A → Option A → A
or_else d none = d
or_else d (some a) = a

page_or : Option DeltaPage → Outcome DeltaPage
page_or none = err other
page_or (some p) = ok p

-- the checks of an answer, in their order
pub read_delta : DeltaReply → Outcome DeltaPage
unfolding page_or
read_delta no_response = err other
read_delta (response status retry body) =
    if status == 401 || status == 403
    then err (auth unexpected)
    else if status == 429
    then err (throttled (or_else 60 retry))
    else if not (leb 200 status && ltb status 300)
    then err (http status)
    else page_or body

-- The change of an item: a deletion, a file with its download URL, or none for a folder.
unfoldable pub item_changes : RawItem → List ChangeItem
item_changes item =
    if item.deleted
    then record {
      remote_id = item.id;
      parent_id = none;
      name = or_else "" item.name;
      is_folder = false;
      modified_at = none;
      deleted = true;
      raw = none;
    }
      ∷ []
    else if item.file
    then record {
      remote_id = item.id;
      parent_id = none;
      name = or_else "" item.name;
      is_folder = false;
      modified_at = none;
      deleted = false;
      raw = item.download_url;
    }
      ∷ []
    else []

unfoldable pub item_deleted : RawItem → List String
item_deleted item = if item.deleted then item.id ∷ [] else []

-- The loop over the items of a page.
pub push_items : List RawItem → List ChangeItem → List String → List ChangeItem × List String
push_items [] changes deleted_ids = (changes, deleted_ids)
push_items (item ∷ items) changes deleted_ids =
    push_items items (changes ++ item_changes item) (deleted_ids ++ item_deleted item)

-- What the links of a page say: the next page, the end, or neither.
pub data Link : Type 0 where
  next : String → Link
  done : String → Link
  neither : Link

unfoldable pub link_of : Option String → Option String → Link
link_of (some np) dl = next np
link_of none (some dl) = done dl
link_of none none = neither

abbrev pub Cycle : Type 0
Cycle = Outcome (List ChangeItem × List String × String)

-- The loop over the pages.
pub delta_loop : ℕ → (String → DeltaReply) → String → List ChangeItem → List String → Option Cycle
delta_loop zero get url changes deleted_ids = none
delta_loop (suc fuel) get url changes deleted_ids = elim (read_delta (get url)) [
  | err e ↦ some (err e)
  | ok page ↦
      let (cs, ds) = push_items page.value changes deleted_ids in
      elim (link_of page.next_link page.delta_link) [
        | next np ↦ delta_loop fuel get np cs ds
        | done dl ↦ some (ok (cs, ds, dl))
        | neither ↦ some (err other)
      ]
]

-- `token` is what `access_token` returns, `start` the URL of the whole drive.
pub run_delta_cycle :
    ℕ → Outcome Bytes → (Bytes → String → DeltaReply) → String → Option String → Option Cycle
run_delta_cycle fuel (err e) get start cursor = some (err e)
run_delta_cycle fuel (ok token) get start cursor =
    delta_loop fuel (get token) (or_else start cursor) [] []

whole : Option Cycle → Option (Outcome (DeltaResult String))
whole none = none
whole (some (err e)) = some (err e)
whole (some (ok (changes, deleted_ids, delta_link))) =
    some (ok (record { next_cursor = some delta_link; changes = changes; more = false }))

unfoldable pub list_delta :
    ℕ
    → Outcome Bytes
    → (Bytes → String → DeltaReply)
    → String
    → Option String
    → Option (Outcome (DeltaResult String))
unfolding run_delta_cycle whole
list_delta fuel token get start cursor = whole (run_delta_cycle fuel token get start cursor)

pub record GraphToken : Type 0 where
  pub value : Bytes
  pub expires_at : ℕ

-- the fetched token and its lifetime, stored at the time `now`
keep : Outcome (Bytes × ℕ) → ℕ → Option GraphToken → Outcome Bytes × Option GraphToken
keep (err e) now cached = (err other, cached)
keep (ok (token, secs)) now cached =
    (ok token, some (record { value = token; expires_at = now + (secs - 60) }))

-- `access_token` at the time `now`; a new token is stored at the time `later`.
unfoldable pub access_token :
    Outcome (Bytes × ℕ) → ℕ → ℕ → Option GraphToken → Outcome Bytes × Option GraphToken
unfolding keep
access_token fetched now later none = keep fetched later none
access_token fetched now later (some t) =
    if ltb (now + 60) t.expires_at then (ok t.value, some t) else keep fetched later (some t)

-- What comes back for a file: no response, or a status and the body if it is read.
pub data FileReply : Type 0 where
  no_file : FileReply
  file_response : ℕ → Option Bytes → FileReply

body_or : Option Bytes → Outcome Bytes
body_or none = err other
body_or (some b) = ok b

read_file : FileReply → Outcome Bytes
unfolding body_or
read_file no_file = err other
read_file (file_response status body) =
    if not (leb 200 status && ltb status 300) then err (http status) else body_or body

-- `download` reads the URL that the item carries.
unfoldable pub download_file : (String → FileReply) → ChangeItem → Outcome Bytes
unfolding read_file
download_file get item = elim item.raw [ none ↦ err other | some url ↦ read_file (get url) ]
