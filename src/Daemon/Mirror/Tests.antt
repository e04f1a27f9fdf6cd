-- ===== src/Daemon/Mirror/Tests.antt =====
-- The daemon with the Zoho connector of a small drive.
use text.Mathlib.Text.{◌==◌ as str_eq}
use text.Mathlib.TextEquality.{eq_iff}
use mcp_data_gateway.Prelude.{
  inl, inr, sym, ap, ◌∙◌, ◌≢◌, All, subst, if◌then◌else◌, some, ◌≡◌, refl, false, [], ◌∷◌, ℕ, ◌≤◌,
  Elem, String, none, ◌+◌,
}
use mcp_data_gateway.Prelude.Text.{Text, codes}
use mcp_data_gateway.Prelude.Bytes.{bytes_eq}
use mcp_data_gateway.Prelude.Result.{ok, ok_same}
use mcp_data_gateway.Connector.{ChangeItem}
use mcp_data_gateway.Connector.Zoho.Bfs.{ZohoFileItem, is_folder}
use mcp_data_gateway.Connector.Zoho.Bfs.SmallDrive.{no_time, service, listing, drive, listed}
use mcp_data_gateway.Connector.Zoho.Bfs.Yields.{change_of}
use mcp_data_gateway.Connector.Zoho.Source.Codec.{as_text, as_text-IsJson}
use mcp_data_gateway.Ingest.Cycle.{target}
use mcp_data_gateway.Ingest.Mirror.{Within}
use mcp_data_gateway.Ingest.Mirror.Small.{one_place, lists, lists_answer, env}
use mcp_data_gateway.Ingest.{Env}
use mcp_data_gateway.Ingest.Drive.{env_at}
use mcp_data_gateway.Ingest.Rows.{rows_of}
use mcp_data_gateway.Daemon.{World, load_cursor, poll_loop}
use mcp_data_gateway.Daemon.Mirror.{IsApart, poll_loop-Mirrors}

abbrev world : World
world = record { table = []; cursors = (codes "graph:d", "token") ∷ [] }

abbrev clock : ℕ → ℕ
clock i = 7 + i

abbrev zoho_id : Text
zoho_id = codes "zoho:root"

abbrev graph_id : Text
graph_id = codes "graph:d"

-- The drive of the Graph has one file, of which there is no text.
abbrev other_file : ChangeItem
other_file = record {
  remote_id = "g";
  parent_id = none;
  name = "g.txt";
  is_folder = false;
  modified_at = none;
  deleted = false;
  raw = none;
}

abbrev graph_env : Env
graph_env = record env {
  connector = record {
    list_changes = λ cursor.
        ok (record { next_cursor = some "delta"; changes = other_file ∷ []; more = false });
    download = λ item. ok [];
  };
}

abbrev envs : ℕ → Text → Env
envs i k = if bytes_eq k zoho_id then env_at env lists (clock i) else graph_env

no_cursor : load_cursor zoho_id world.cursors ≡ none
unfolding load_cursor
no_cursor = refl

a_differs : str_eq "a" "g" ≡ false
a_differs = refl

f_differs : str_eq "f" "g" ≡ false
f_differs = refl

root_ids : (item : ZohoFileItem) → Elem item (listing "root") → item.id ≢ "g"
root_ids item (inl e) s = cc ((eq_iff "a" "g").1 (sym (ap (λ u. u.id) e) ∙ s), a_differs)
root_ids item (inr (inl e)) s = cc ((eq_iff "f" "g").1 (sym (ap (λ u. u.id) e) ∙ s), f_differs)
root_ids item (inr (inr n)) s = absurd n

file_ids : (folder : String) (item : ZohoFileItem) → Elem item (listing folder) → item.id ≢ "g"
file_ids folder item e = root_ids item (listed folder item e).1

are-IsApart :
    (folder : String) (item : ZohoFileItem)
    → Elem item (listing folder)
    → All (IsApart envs zoho_id item.id) (graph_id ∷ [])
are-IsApart folder item e = (
  (
    refl,
    λ i cursor delta h.
        subst (λ d. All (λ c. item.id ≢ c.remote_id) d.changes) (ok_same _ _ refl h)
          (file_ids folder item e, tt),
  ),
  tt,
)

poll_loop-Mirrors_example :
    (n : ℕ) × (n ≤ 2)
    × ((folder : String) (item : ZohoFileItem)
        → Within listing "root" folder
        → Elem item (listing folder)
        → is_folder item ≡ false
        → rows_of item.id (poll_loop envs n 0 false (graph_id ∷ zoho_id ∷ []) world).table
          ≡ target env (change_of no_time folder item) (rows_of item.id []))
poll_loop-Mirrors_example =
    poll_loop-Mirrors as_text as_text-IsJson no_time 2 service "root" lists lists_answer env refl
      refl listing ("a" ∷ []) drive envs clock (graph_id ∷ []) zoho_id [] world one_place no_cursor
      (λ i. refl) are-IsApart
