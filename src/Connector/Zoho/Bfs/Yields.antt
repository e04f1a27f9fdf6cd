-- ===== src/Connector/Zoho/Bfs/Yields.antt =====
-- Which changes the files of some folders yield.
use mcp_data_gateway.Prelude.{
  ℕ, ◌≡◌, refl, sym, subst, String, true, false, inl, inr, List, [], ◌∷◌, some, Elem,
  Elem-append_left, Elem-append_right, Elem-append_cases, Bool-cases,
}
use mcp_data_gateway.Prelude.Int.{ℤ}
use mcp_data_gateway.Connector.{ChangeItem}
use mcp_data_gateway.Connector.Zoho.Bfs.{
  ZohoFileItem, is_folder, is_deleted, changes_of, format_time, unwrap_or,
}
use mcp_data_gateway.Connector.Zoho.Bfs.Crawl.{yields, yields_all}

module _ (format_epoch_ms : ℤ → List ℕ) where
  -- the change of a file in a folder
  abbrev pub change_of : String → ZohoFileItem → ChangeItem
  change_of folder item = record {
    remote_id = item.id;
    parent_id = some folder;
    name = unwrap_or "" item.name;
    is_folder = false;
    modified_at = format_time format_epoch_ms item.modified_time;
    deleted = is_deleted item;
    raw = item.permalink;
  }

  changes_of-file :
      (folder : String) (item : ZohoFileItem)
      → is_folder item ≡ false
      → changes_of format_epoch_ms folder item ≡ change_of folder item ∷ []
  unfolding changes_of
  changes_of-file folder item f = rw f refl

  changes_of-folder :
      (folder : String) (item : ZohoFileItem)
      → is_folder item ≡ true
      → changes_of format_epoch_ms folder item ≡ []
  unfolding changes_of
  changes_of-folder folder item f = rw f refl

  Elem-yields :
      (folder : String) (item : ZohoFileItem) (items : List ZohoFileItem)
      → Elem item items
      → is_folder item ≡ false
      → Elem (change_of folder item) (yields format_epoch_ms folder items)
  unfolding yields
  Elem-yields folder item [] e f = absurd e
  Elem-yields folder item (x ∷ items) (inl e) f =
      Elem-append_left _ (changes_of format_epoch_ms folder x) _ (
        subst (λ u. Elem (change_of folder item) (changes_of format_epoch_ms folder u)) e
          (subst (Elem (change_of folder item)) (sym (changes_of-file folder item f)) (inl refl)))
  Elem-yields folder item (x ∷ items) (inr e) f =
      Elem-append_right _ (changes_of format_epoch_ms folder x) _
        (Elem-yields folder item items e f)

  -- A file of a folder that is read is among the changes.
  pub Elem-yields_all :
      (listing : String → List ZohoFileItem) (folders : List String) (folder : String)
      (item : ZohoFileItem)
      → Elem folder folders
      → Elem item (listing folder)
      → is_folder item ≡ false
      → Elem (change_of folder item) (yields_all format_epoch_ms listing folders)
  unfolding yields_all
  Elem-yields_all listing [] folder item d e f = absurd d
  Elem-yields_all listing (x ∷ folders) folder item (inl d) e f =
      Elem-append_left _ (yields format_epoch_ms x (listing x)) _ (
        subst (λ u. Elem (change_of folder item) (yields format_epoch_ms u (listing u))) d
          (Elem-yields folder item (listing folder) e f))
  Elem-yields_all listing (x ∷ folders) folder item (inr d) e f =
      Elem-append_right _ (yields format_epoch_ms x (listing x)) _
        (Elem-yields_all listing folders folder item d e f)

  -- A change comes from a file of a folder.
  pub record IsOf (listing : String → List ZohoFileItem) (c : ChangeItem) : Type 0 where
    pub folder : String
    pub item : ZohoFileItem
    pub listed : Elem item (listing folder)
    pub file : is_folder item ≡ false
    pub same : c ≡ change_of folder item

  yields-origin :
      (listing : String → List ZohoFileItem) (folder : String) (items : List ZohoFileItem)
      (c : ChangeItem)
      → ((item : ZohoFileItem) → Elem item items → Elem item (listing folder))
      → Elem c (yields format_epoch_ms folder items)
      → IsOf listing c
  unfolding yields
  yields-origin listing folder [] c sub e = absurd e
  yields-origin listing folder (x ∷ items) c sub e =
      elim (Elem-append_cases c (changes_of format_epoch_ms folder x) _ e) [
        | inr r ↦ yields-origin listing folder items c (λ i h. sub i (inr h)) r
        | inl l ↦ elim (Bool-cases (is_folder x)) [
          | inl f ↦ absurd (subst (Elem c) (changes_of-folder folder x f) l)
          | inr f ↦ elim (subst (Elem c) (changes_of-file folder x f) l) [
            | inl s ↦ record {
              folder = folder;
              item = x;
              listed = sub x (inl refl);
              file = f;
              same = s;
            }
            | inr n ↦ absurd n
          ]
        ]
      ]

  pub yields_all-origin :
      (listing : String → List ZohoFileItem) (folders : List String) (c : ChangeItem)
      → Elem c (yields_all format_epoch_ms listing folders)
      → IsOf listing c
  unfolding yields_all
  yields_all-origin listing [] c e = absurd e
  yields_all-origin listing (x ∷ folders) c e =
      elim (Elem-append_cases c (yields format_epoch_ms x (listing x)) _ e) [
        | inl l ↦ yields-origin listing x (listing x) c (λ i h. h) l
        | inr r ↦ yields_all-origin listing folders c r
      ]
