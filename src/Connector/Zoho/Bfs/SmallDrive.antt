-- ===== src/Connector/Zoho/Bfs/SmallDrive.antt =====
-- A small drive for the tests: its root holds a folder, on the first page, and a file, on the second.
use text.Mathlib.Text.{◌==◌ as str_eq}
use text.Mathlib.TextEquality.{eq_iff}
use mcp_data_gateway.Prelude.{
  ℕ, zero, suc, ◌≤◌, ◌≡◌, ◌⊎◌, inl, inr, refl, sym, ap, subst, ◌∙◌, String, Bool, true, false, List,
  [], ◌∷◌, none, some, arith, if◌then◌else◌, Bool-cases, Elem,
}
use mcp_data_gateway.Prelude.Int.{ℤ}
use mcp_data_gateway.Prelude.Result.{ok}
use mcp_data_gateway.Connector.Zoho.Bfs.{ZohoFileItem, PageReply, response, read_page, is_folder}
use mcp_data_gateway.Connector.Zoho.Bfs.Pages.{Chain, last, more, pages}
use mcp_data_gateway.Connector.Zoho.Bfs.Crawl.{Below, in_root, in_folder, IsDrive}

abbrev pub no_time : ℤ → List ℕ
no_time ms = []

abbrev pub sub : ZohoFileItem
sub = record {
  id = "a";
  name = some "A";
  kind = some "folder";
  modified_time = none;
  status = none;
  permalink = none;
}

abbrev pub report : ZohoFileItem
report = record {
  id = "f";
  name = some "report.txt";
  kind = some "file";
  modified_time = none;
  status = none;
  permalink = none;
}

abbrev pub page_of : List ZohoFileItem → Bool → PageReply
page_of items flag =
    response 200 none (some (record { items = some items; more_records = some flag }))

abbrev pub pages_of_root : ℕ → PageReply
pages_of_root zero = page_of (sub ∷ []) true
pages_of_root (suc offset) = page_of (report ∷ []) false

abbrev pub service : String → ℕ → ℕ → PageReply
service folder from offset = if str_eq folder "root" then pages_of_root offset else page_of [] false

abbrev pub listing : String → List ZohoFileItem
listing folder = if str_eq folder "root" then sub ∷ report ∷ [] else []

is_root : (x : String) → (x ≡ "root") ⊎ (str_eq x "root" ≡ false)
is_root x = elim (Bool-cases (str_eq x "root")) [
  | inl e ↦ inl ((eq_iff x "root").0 e)
  | inr n ↦ inr n
]

abbrev pub Reads : String → Type 0
Reads x = (c : Chain (service x 0) 0 (listing x)) × (pages no_time (service x 0) x c ≤ 2)

Reads-root : Reads "root"
unfolding read_page pages
Reads-root = (more refl (last refl) refl, omega arith)

other_page :
    (x : String) → str_eq x "root" ≡ false → read_page (service x 0 0) ≡ ok (listing x, false)
unfolding read_page
other_page x n = rw n refl

Reads-other : (x : String) → str_eq x "root" ≡ false → Reads x
unfolding pages
Reads-other x n = (last (other_page x n), omega arith)

Reads-any : (x : String) → Reads x
Reads-any x = elim (is_root x) [ inl e ↦ subst Reads (sym e) Reads-root | inr n ↦ Reads-other x n ]

-- Only the root lists anything.
pub listed :
    (x : String) (item : ZohoFileItem)
    → Elem item (listing x)
    → (x ≡ "root") × Elem item (listing "root")
listed x item e = elim (is_root x) [
  | inl s ↦ (s, subst (λ u. Elem item (listing u)) s e)
  | inr n ↦ absurd (rw n at e)
]

folder_is_a :
    (item : ZohoFileItem) → Elem item (listing "root") → is_folder item ≡ true → item.id ≡ "a"
folder_is_a item (inl e) f = ap (λ u. u.id) e
folder_is_a item (inr (inl e)) f = cc (ap is_folder (sym e) ∙ f)
folder_is_a item (inr (inr n)) f = absurd n

pub file_is_report :
    (item : ZohoFileItem) → Elem item (listing "root") → is_folder item ≡ false → item ≡ report
file_is_report item (inl e) f = cc (ap is_folder (sym e) ∙ f)
file_is_report item (inr (inl e)) f = e
file_is_report item (inr (inr n)) f = absurd n

Below-is_a : (x : String) → Below listing "root" x → Elem x ("a" ∷ [])
Below-is_a x (in_root item e f) = inl (folder_is_a item e f)
Below-is_a x (in_folder {folder} item b e f) = inl (folder_is_a item (listed folder item e).1 f)

pub drive : IsDrive no_time 2 (λ x. service x 0) listing "root" ("a" ∷ [])
drive = record { reads_root = Reads-root; reads_below = λ x b. Reads-any x; finite = Below-is_a }
