-- ===== src/Connector/Graph/Tests.antt =====
-- A drive of two pages, and the theorems at it.
use text.Mathlib.Text.{◌==◌ as str_eq}
use mcp_data_gateway.Prelude.{
  ℕ, ◌≡◌, refl, String, true, false, List, [], ◌∷◌, none, some, arith, if◌then◌else◌,
}
use mcp_data_gateway.Prelude.Text.{codes}
use mcp_data_gateway.Prelude.Result.{ok}
use mcp_data_gateway.Connector.{ChangeItem}
use mcp_data_gateway.Connector.Graph.{RawItem, DeltaReply, response, read_delta, list_delta}
use mcp_data_gateway.Connector.Graph.Delta.{Feed, final, follows, Reports, pages, list_delta-Feed}

abbrev item : String → RawItem
item id = record { id = id; name = some "n"; file = true; deleted = false; download_url = some "u" }

abbrev folder : RawItem
folder = record { id = "d"; name = none; file = false; deleted = false; download_url = none }

abbrev removed : RawItem
removed = record { id = "g"; name = none; file = false; deleted = true; download_url = none }

abbrev drive : String → DeltaReply
drive url =
    if str_eq url "first"
    then response 200 none (
        some
          (record { value = item "a" ∷ folder ∷ []; next_link = some "second"; delta_link = none }))
    else response 200 none
        (some (record { value = removed ∷ []; next_link = none; delta_link = some "third" }))

feed : Feed drive "first" (item "a" ∷ folder ∷ removed ∷ []) "third"
unfolding read_delta
feed = follows refl refl (final refl refl refl)

abbrev rounds : ℕ
rounds = pages feed

list_delta-Feed_example :
    (changes : List ChangeItem) × Reports (item "a" ∷ folder ∷ removed ∷ []) changes
    × (list_delta rounds (ok (codes "t")) (λ t. drive) "start" (some "first")
        ≡ some (ok (record { next_cursor = some "third"; changes = changes; more = false })))
list_delta-Feed_example =
    list_delta-Feed drive rounds (codes "t") "start" "first" "third"
      (item "a" ∷ folder ∷ removed ∷ []) feed (omega arith)
