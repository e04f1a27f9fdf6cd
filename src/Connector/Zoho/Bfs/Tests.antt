-- ===== src/Connector/Zoho/Bfs/Tests.antt =====
-- Runs of the traversal against a small service, and the theorems at them.
use mcp_data_gateway.Prelude.{
  ℕ, zero, suc, ◌≡◌, refl, String, Bool, true, false, List, [], ◌∷◌, none, some, arith,
  if◌then◌else◌,
}
use mcp_data_gateway.Prelude.Int.{ℤ}
use text.Mathlib.Text.{◌==◌ as str_eq}
use mcp_data_gateway.Prelude.Result.{ok}
use mcp_data_gateway.Connector.{ChangeItem}
use mcp_data_gateway.Connector.Zoho.Bfs.{
  ZohoCursor, ZohoFileItem, PageReply, response, read_page, take_items, read_folder, root_cursor,
  bootstrap, list_from, list_changes,
}
use mcp_data_gateway.Connector.Zoho.Bfs.Pages.{Chain, last, more, pages, read_folder_never}
use mcp_data_gateway.Connector.Zoho.Bfs.Visits.{Distinct}
use mcp_data_gateway.Connector.Zoho.Bfs.Crawl.{at}
use mcp_data_gateway.Connector.Zoho.Bfs.Drains.{Drained, crawl_drains}
use mcp_data_gateway.Connector.Zoho.Bfs.SmallDrive
use mcp_data_gateway.Connector.Zoho.Bfs.SmallDrive.{listing, drive}
use mcp_data_gateway.Connector.Zoho.Bfs.Run.{
  Reaches, IsRun, starts, reads, Reaches-IsRun, drained_restarts,
}

abbrev no_time : ℤ → List ℕ
no_time ms = []

abbrev sub : ZohoFileItem
sub = record {
  id = "a";
  name = some "A";
  kind = some "folder";
  modified_time = none;
  status = none;
  permalink = none;
}

abbrev report : ZohoFileItem
report = record {
  id = "f";
  name = some "report.txt";
  kind = some "file";
  modified_time = none;
  status = none;
  permalink = none;
}

abbrev page_of : List ZohoFileItem → Bool → PageReply
page_of items flag =
    response 200 none (some (record { items = some items; more_records = some flag }))

-- The root holds a folder, on its first page, and a file, on its second; the folder is empty.
abbrev service : String → ℕ → ℕ → PageReply
service folder from zero =
    if str_eq folder "root" then page_of (sub ∷ []) true else page_of [] false
service folder from (suc offset) = page_of (report ∷ []) false

abbrev s0 : ZohoCursor
s0 = bootstrap "root" 7

abbrev s1 : ZohoCursor
s1 = record s0 { visited = "a" ∷ []; queue = root_cursor "a" ∷ [] }

abbrev s2 : ZohoCursor
s2 = record s0 { visited = "a" ∷ []; queue = [] }

abbrev change : ChangeItem
change = record {
  remote_id = "f";
  parent_id = some "root";
  name = "report.txt";
  is_folder = false;
  modified_at = none;
  deleted = false;
  raw = none;
}

first_call :
    list_changes no_time 5 service 7 "root" none
    ≡ some (ok (record { next_cursor = some s1; changes = change ∷ []; more = true }))
unfolding list_changes read_page read_folder take_items
first_call = refl

starts_at_root : Reaches no_time "root" 0 7 s0 []
unfolding bootstrap
starts_at_root = starts refl refl refl refl refl

Reaches-s1 : Reaches no_time "root" 0 7 s1 ("root" ∷ [])
unfolding list_from read_page read_folder take_items bootstrap
Reaches-s1 =
    reads 5 8 service (record { next_cursor = some s1; changes = change ∷ []; more = true })
      starts_at_root refl refl refl

Reaches-s2 : Reaches no_time "root" 0 7 s2 ("root" ∷ "a" ∷ [])
unfolding list_from read_page read_folder take_items bootstrap
Reaches-s2 =
    reads 5 9 service (record { next_cursor = some s2; changes = []; more = false }) Reaches-s1 refl
      refl refl

Reaches-IsRun_example : IsRun no_time "root" 0 7 s2 ("root" ∷ "a" ∷ [])
Reaches-IsRun_example = Reaches-IsRun no_time "root" 0 7 s2 ("root" ∷ "a" ∷ []) Reaches-s2

drained_restarts_example :
    (t : ZohoCursor) × ("root" ∷ "a" ∷ [] ≡ "root" ∷ s2.visited)
    × Distinct s2.visited
    × (list_changes no_time 5 service 11 "root" (some (some s2))
        ≡ some (ok (record { next_cursor = some t; changes = []; more = false })))
    × (t.watermark_ms ≡ 7)
    × Reaches no_time "root" 7 11 t []
drained_restarts_example =
    drained_restarts no_time "root" 0 7 s2 ("root" ∷ "a" ∷ []) 5 11 service "root" Reaches-s2 refl

root_pages : Chain (service "root" 0) 0 (sub ∷ report ∷ [])
unfolding read_page
root_pages = more refl (last refl) refl

abbrev two_pages : ℕ
two_pages = pages no_time (service "root" 0) "root" root_pages

read_folder_never_example : read_folder no_time 5 (λ o. page_of [] true) "root" 0 s0 [] ≡ none
unfolding read_page
read_folder_never_example =
    read_folder_never no_time (λ o. page_of [] true) "root" 5 0 s0 [] (λ o. ([], refl))

crawl_drains_example :
    Drained no_time 2 SmallDrive.service listing "root" "root" 0 7
      ("a" ∷ [])
      drive
      (some (some (at "root" 0 7 [] ("root" ∷ []))))
      []
      (7 ∷ 8 ∷ [])
      0
crawl_drains_example =
    crawl_drains no_time 2 SmallDrive.service listing "root" "root" 0 7 ("a" ∷ []) drive
      (7 ∷ 8 ∷ []) (omega arith)
