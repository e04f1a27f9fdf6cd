-- ===== src/Connector/Zoho/Bfs/Pages.antt =====
-- The loop over the pages of a folder against the chain of its pages.
use mcp_data_gateway.Prelude.{
  ℕ, zero, suc, ◌+◌, ◌%◌, ◌^◌, ◌≤◌, ◌≡◌, refl, sym, ap, ◌∙◌, ◌⊎◌, String, Bool, true, false, inl,
  inr, List, [], ◌∷◌, ◌++◌, none, some, arith, length,
}
use mcp_data_gateway.Prelude.Int.{ℤ}
use mcp_data_gateway.Prelude.Result.{ok, err}
use mcp_data_gateway.Connector.{ChangeItem, ConnectorError, Outcome}
use mcp_data_gateway.Connector.Zoho.Bfs.{
  ZohoCursor, ZohoFileItem, PageReply, read_page, take_items, enqueue, changes_of, read_folder,
}

-- The items of a folder from an offset on: those of the last page, or those of a page that says that
-- there are more, and of the pages behind it.
pub data Chain (page : ℕ → PageReply) : ℕ → List ZohoFileItem → Type 0 where
  last :
      {offset : ℕ} {items : List ZohoFileItem}
      → read_page (page offset) ≡ ok (items, false)
      → Chain page offset items
  more :
      {offset : ℕ} {items rest all_items : List ZohoFileItem}
      → read_page (page offset) ≡ ok (items, true)
      → Chain page ((offset + length items) % 2 ^ 32) rest
      → all_items ≡ items ++ rest
      → Chain page offset all_items

decide_page :
    (o : Outcome (List ZohoFileItem × Bool)) {p : Outcome (List ZohoFileItem × Bool)}
    → p ≡ o
    → ((items : List ZohoFileItem) × (p ≡ ok (items, true)))
      ⊎ (((items : List ZohoFileItem) × (p ≡ ok (items, false)))
          ⊎ ((e : ConnectorError) × (p ≡ err e)))
decide_page (ok (items, true)) h = inl (items, h)
decide_page (ok (items, false)) h = inr (inl (items, h))
decide_page (err e) h = inr (inr (e, h))

module _ (format_epoch_ms : ℤ → List ℕ) (page : ℕ → PageReply) (folder : String) where
  take_items-append :
      (xs ys : List ZohoFileItem) (state : ZohoCursor) (changes : List ChangeItem)
      → take_items format_epoch_ms folder (xs ++ ys) state changes ≡ (
          let (s, c) = take_items format_epoch_ms folder xs state changes in
          take_items format_epoch_ms folder ys s c)
  unfolding take_items
  take_items-append [] ys state changes = refl
  take_items-append (x ∷ xs) ys state changes =
      take_items-append xs ys (enqueue x state) (changes ++ changes_of format_epoch_ms folder x)

  -- How many pages a chain has.
  unfoldable pub pages : {offset : ℕ} {items : List ZohoFileItem} → Chain page offset items → ℕ
  pages (last e) = 1
  pages (more e c s) = suc (pages c)

  -- One round of the loop.
  read_more :
      (fuel offset : ℕ) (items : List ZohoFileItem) (state : ZohoCursor) (changes : List ChangeItem)
      → read_page (page offset) ≡ ok (items, true)
      → read_folder format_epoch_ms (suc fuel) page folder offset state changes
        ≡ read_folder format_epoch_ms fuel page folder
            ((offset + length items) % 2 ^ 32)
            (take_items format_epoch_ms folder items state changes).0
            (take_items format_epoch_ms folder items state changes).1
  unfolding read_folder
  read_more fuel offset items state changes e = rw (e, read_folder)

  read_last :
      (fuel offset : ℕ) (items : List ZohoFileItem) (state : ZohoCursor) (changes : List ChangeItem)
      → read_page (page offset) ≡ ok (items, false)
      → read_folder format_epoch_ms (suc fuel) page folder offset state changes
        ≡ some (ok (take_items format_epoch_ms folder items state changes))
  unfolding read_folder
  read_last fuel offset items state changes e = rw (e, read_folder)

  -- Where the pages of a folder come to an end, the loop takes all their items, in order, in one
  -- call. As many rounds as there are pages are enough.
  pub read_folder-Chain :
      (fuel offset : ℕ) (items : List ZohoFileItem) (state : ZohoCursor) (changes : List ChangeItem)
      (c : Chain page offset items)
      → pages c ≤ fuel
      → read_folder format_epoch_ms fuel page folder offset state changes
        ≡ some (ok (take_items format_epoch_ms folder items state changes))
  unfolding pages
  read_folder-Chain zero offset items state changes (last e) l = absurd (omega arith)
  read_folder-Chain zero offset items state changes (more e c s) l = absurd (omega arith)
  read_folder-Chain (suc fuel) offset items state changes (last e) l =
      read_last fuel offset items state changes e
  read_folder-Chain (suc fuel) offset all_items state changes (more {items} {rest} e c s) l =
      read_more fuel offset items state changes e
      ∙ read_folder-Chain fuel ((offset + length items) % 2 ^ 32) rest
          (take_items format_epoch_ms folder items state changes).0
          (take_items format_epoch_ms folder items state changes).1 c (omega arith)
      ∙ ap (λ o. some (ok o))
          (sym (take_items-append items rest state changes)
            ∙ ap (λ t. take_items format_epoch_ms folder t state changes) (sym s))

  read_error :
      (fuel offset : ℕ) (e : ConnectorError) (state : ZohoCursor) (changes : List ChangeItem)
      → read_page (page offset) ≡ err e
      → read_folder format_epoch_ms (suc fuel) page folder offset state changes ≡ some (err e)
  unfolding read_folder
  read_error fuel offset e state changes h = rw (h, read_folder)

  -- A page is an error, the last one, or one of more.
  page_cases :
      (offset : ℕ)
      → ((items : List ZohoFileItem) × (read_page (page offset) ≡ ok (items, true)))
        ⊎ (((items : List ZohoFileItem) × (read_page (page offset) ≡ ok (items, false)))
            ⊎ ((e : ConnectorError) × (read_page (page offset) ≡ err e)))
  page_cases offset = decide_page (read_page (page offset)) refl

  read_zero :
      (offset : ℕ) (state : ZohoCursor) (changes : List ChangeItem)
      → read_folder format_epoch_ms zero page folder offset state changes ≡ none
  unfolding read_folder
  read_zero offset state changes = refl

  -- What the loop returns is made of the items of a chain.
  pub Chain-of_read_folder :
      (fuel offset : ℕ) (state : ZohoCursor) (changes : List ChangeItem)
      (r : ZohoCursor × List ChangeItem)
      → read_folder format_epoch_ms fuel page folder offset state changes ≡ some (ok r)
      → (items : List ZohoFileItem) × Chain page offset items
        × (take_items format_epoch_ms folder items state changes ≡ r)
  Chain-of_read_folder zero offset state changes r h = cc (read_zero offset state changes, h)
  Chain-of_read_folder (suc fuel) offset state changes r h = elim (page_cases offset) [
    | inl (items, e) ↦
        let (rest, c, t) =
          Chain-of_read_folder fuel ((offset + length items) % 2 ^ 32)
            (take_items format_epoch_ms folder items state changes).0
            (take_items format_epoch_ms folder items state changes).1 r
            (sym (read_more fuel offset items state changes e) ∙ h) in
        (items ++ rest, more e c refl, take_items-append items rest state changes ∙ t)
    | inr (inl (items, e)) ↦ (items, last e, cc (read_last fuel offset items state changes e, h))
    | inr (inr (e, p)) ↦ cc (read_error fuel offset e state changes p, h)
  ]

  -- Where each page says that there are more, the loop over the pages never ends, on an empty page too.
  pub read_folder_never :
      (fuel offset : ℕ) (state : ZohoCursor) (changes : List ChangeItem)
      → ((o : ℕ) → (items : List ZohoFileItem) × (read_page (page o) ≡ ok (items, true)))
      → read_folder format_epoch_ms fuel page folder offset state changes ≡ none
  read_folder_never zero offset state changes h = read_zero offset state changes
  read_folder_never (suc fuel) offset state changes h =
      let (items, e) = h offset in
      read_more fuel offset items state changes e
      ∙ read_folder_never fuel ((offset + length items) % 2 ^ 32)
          (take_items format_epoch_ms folder items state changes).0
          (take_items format_epoch_ms folder items state changes).1 h
