-- ===== src/Connector/Zoho/Bfs/Midway.antt =====
-- What holds in the middle of a run over a drive, and what a turn makes of it.
use mcp_data_gateway.Prelude.{
  ℕ, ◌≡◌, refl, sym, ap, subst, ◌∙◌, ◌⊎◌, String, true, inl, inr, List, [], ◌∷◌, ◌++◌, append_assoc,
  append-nil, Elem, Elem-append_left, Elem-append_right, Elem-append_cases,
}
use mcp_data_gateway.Prelude.Int.{ℤ}
use mcp_data_gateway.Connector.Zoho.Bfs.Visits.{Distinct, take_items_visits}
use mcp_data_gateway.Connector.Zoho.Bfs.{ZohoFileItem, is_folder, take_items}
use mcp_data_gateway.Connector.Zoho.Bfs.Crawl.{Below, in_root, in_folder, Below-item, at}
use mcp_data_gateway.Connector.Zoho.Bfs.Turn.{Adds}

module _ (format_epoch_ms : ℤ → List ℕ) (listing : String → List ZohoFileItem) (root : String)
    (watermark started : ℕ) where
  -- What holds in the middle of a run, with the folders visited, read and queued.
  pub record Midway (visited done queued : List String) : Type 0 where
    pub accounts : root ∷ visited ≡ done ++ queued
    pub distinct : Distinct visited
    pub below : (x : String) → Elem x visited → Below listing root x
    pub closed :
        (folder : String) (item : ZohoFileItem)
        → Elem folder done
        → Elem item (listing folder)
        → is_folder item ≡ true
        → Elem item.id visited

  pub Midway-next :
      (x : String) (visited done queued : List String)
      (a : Adds format_epoch_ms root watermark started x (listing x) visited queued [])
      → (x ≡ root) ⊎ Below listing root x
      → Midway visited done (x ∷ queued)
      → Midway (visited ++ a.found) (done ++ (x ∷ [])) (queued ++ a.found)
  Midway-next x visited done queued a b m =
      let (ext, met) =
        take_items_visits format_epoch_ms x (listing x) (at root watermark started visited queued)
          [] in
      let seen : (take_items format_epoch_ms x (listing x)
            (at root watermark started visited queued) []).0.visited
          ≡ visited ++ a.found =
        ap (λ u. u.0.visited) a.result in
      record {
        accounts =
            ap (λ u. u ++ a.found) m.accounts
            ∙ append_assoc done (x ∷ queued) a.found
            ∙ sym (append_assoc done (x ∷ []) (queued ++ a.found));
        distinct = subst Distinct seen (ext.keeps_distinct m.distinct);
        below = λ y h. elim (Elem-append_cases y visited a.found h) [
          | inl l ↦ m.below y l
          | inr r ↦
              let (item, i, f, e) = a.origin y r in
              subst (Below listing root) e (Below-item x item b i f)
        ];
        closed = λ folder item d i f. elim (Elem-append_cases folder done (x ∷ []) d) [
          | inl l ↦ Elem-append_left item.id visited a.found (m.closed folder item l i f)
          | inr (inl e) ↦
              subst (Elem item.id) seen (met item (subst (λ u. Elem item (listing u)) e i) f)
          | inr (inr n) ↦ absurd n
        ];
      }

  pub queued-Below :
      (x : String) (visited done queued : List String)
      → Midway visited done (x ∷ queued)
      → (x ≡ root) ⊎ Below listing root x
  queued-Below x visited done queued m =
      elim (subst (Elem x) (sym m.accounts) (Elem-append_right x done (x ∷ queued) (inl refl))) [
        | inl e ↦ inl e
        | inr e ↦ inr (m.below x e)
      ]

  -- Every folder below the root is found, once all that are found were read.
  pub Below-found :
      (visited done : List String) (x : String)
      → Midway visited done []
      → Below listing root x
      → Elem x visited
  Below-found visited done x m (in_root item i f) =
      m.closed root item (subst (Elem root) (m.accounts ∙ append-nil done) (inl refl)) i f
  Below-found visited done x m (in_folder {folder} item b i f) =
      m.closed folder item
        (subst (Elem folder) (m.accounts ∙ append-nil done)
          (inr (Below-found visited done folder m b)))
        i f
