-- ===== src/Connector/Zoho/Bfs/Turn.antt =====
-- What one folder adds to a run: its items under the loop of `list_changes`.
use mcp_data_gateway.Prelude.{
  ℕ, ◌≡◌, refl, sym, ap, ◌∙◌, String, true, inl, inr, List, [], ◌∷◌, ◌++◌, append_assoc, append-nil,
  Elem, Elem-append_cases, Bool-cases,
}
use mcp_data_gateway.Prelude.Int.{ℤ}
use mcp_data_gateway.Connector.{ChangeItem}
use mcp_data_gateway.Connector.Zoho.Bfs.{
  ZohoFileItem, is_folder, take_items, changes_of, enqueue, contains,
}
use mcp_data_gateway.Connector.Zoho.Bfs.Crawl.{cursors-append, yields, at}

-- One run: the root, the watermark and the start of the run are fixed.
module _ (format_epoch_ms : ℤ → List ℕ) (root : String) (watermark started : ℕ) where
  -- What a folder adds to the run: new folders, each an item of it.
  pub record Adds (folder : String) (items : List ZohoFileItem) (visited queued : List String)
      (changes : List ChangeItem) : Type 0 where
    pub found : List String
    pub result :
        take_items format_epoch_ms folder items (at root watermark started visited queued) changes
        ≡ (
          at root watermark started (visited ++ found) (queued ++ found),
          changes ++ yields format_epoch_ms folder items,
        )
    pub origin :
        (x : String)
        → Elem x found
        → (item : ZohoFileItem) × Elem item items × (is_folder item ≡ true) × (item.id ≡ x)

  enqueue-at :
      (item : ZohoFileItem) (visited queued : List String)
      → (found : List String) × (enqueue item (at root watermark started visited queued)
          ≡ at root watermark started (visited ++ found) (queued ++ found))
        × ((x : String) → Elem x found → (is_folder item ≡ true) × (item.id ≡ x))
  unfolding enqueue
  enqueue-at item visited queued = elim (Bool-cases (is_folder item)) [
    | inr f ↦ ([], rw (f, append-nil visited, append-nil queued) refl, λ x h. absurd h)
    | inl f ↦ elim (Bool-cases (contains visited item.id)) [
      | inl c ↦ ([], rw (f, c, append-nil visited, append-nil queued) refl, λ x h. absurd h)
      | inr c ↦ (
        item.id ∷ [],
        rw (f, c, cursors-append queued (item.id ∷ [])) refl,
        λ x h. elim h [ inl e ↦ (f, sym e) | inr h' ↦ absurd h' ],
      )
    ]
  ]

  pub take_items_at :
      (folder : String) (items : List ZohoFileItem) (visited queued : List String)
      (changes : List ChangeItem)
      → Adds folder items visited queued changes
  unfolding take_items yields
  take_items_at folder [] visited queued changes = record {
    found = [];
    result = rw (append-nil visited, append-nil queued, append-nil changes) refl;
    origin = λ x h. absurd h;
  }
  take_items_at folder (item ∷ items) visited queued changes =
      let (new, e, o) = enqueue-at item visited queued in
      let later =
        take_items_at folder items (visited ++ new) (queued ++ new)
          (changes ++ changes_of format_epoch_ms folder item) in
      record {
        found = new ++ later.found;
        result =
            ap
              (λ s.
                take_items format_epoch_ms folder items s
                  (changes ++ changes_of format_epoch_ms folder item))
              e
            ∙ later.result
            ∙ rw
                (
                  append_assoc visited new later.found,
                  append_assoc queued new later.found,
                  append_assoc changes (changes_of format_epoch_ms folder item)
                      (yields format_epoch_ms folder items),
                )
                refl;
        origin = λ x h. elim (Elem-append_cases x new later.found h) [
          | inl n ↦ (item, inl refl, (o x n).0, (o x n).1)
          | inr l ↦ let (i, m, f, s) = later.origin x l in (i, inr m, f, s)
        ];
      }
