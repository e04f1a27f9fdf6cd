-- ===== src/Connector/Graph/Delta.antt =====
-- The delta query against the chain of its pages, and the life of a token.
use mcp_data_gateway.Prelude.{
  ℕ, zero, suc, ◌+◌, ◌-◌, ◌≤◌, ◌<◌, ◌≡◌, refl, ap, ap₂, sym, ◌∙◌, String, List, [], ◌∷◌, ◌++◌,
  append_assoc, append-nil, none, some, arith, lt→ltb, subst, false, true, Bool, Bool-cases, Option,
  inl, inr,
}
use mcp_data_gateway.Prelude.Bytes.{Bytes}
use mcp_data_gateway.Prelude.Result.{ok}
use mcp_data_gateway.Connector.{ChangeItem, Outcome}
use mcp_data_gateway.Connector.Graph.{
  RawItem, or_else, DeltaPage, DeltaReply, read_delta, item_changes, item_deleted, push_items,
  link_of, delta_loop, run_delta_cycle, whole, list_delta, access_token, keep,
}

abbrev all_changes : List RawItem → List ChangeItem
all_changes [] = []
all_changes (i ∷ items) = item_changes i ++ all_changes items

abbrev all_deleted : List RawItem → List String
all_deleted [] = []
all_deleted (i ∷ items) = item_deleted i ++ all_deleted items

-- What a change says of an item.
abbrev pub said : RawItem → Bool → Option String → ChangeItem
said i deleted raw = record {
  remote_id = i.id;
  parent_id = none;
  name = or_else "" i.name;
  is_folder = false;
  modified_at = none;
  deleted = deleted;
  raw = raw;
}

-- The changes that some items are reported as: a deleted item as a deletion, a file with its download URL,
-- and a folder not at all.
pub data Reports : List RawItem → List ChangeItem → Type 0 where
  nothing : Reports [] []
  gone :
      {i : RawItem} {items : List RawItem} {cs : List ChangeItem}
      → i.deleted ≡ true
      → Reports items cs
      → Reports (i ∷ items) (said i true none ∷ cs)
  there :
      {i : RawItem} {items : List RawItem} {cs : List ChangeItem}
      → i.deleted ≡ false
      → i.file ≡ true
      → Reports items cs
      → Reports (i ∷ items) (said i false i.download_url ∷ cs)
  passed :
      {i : RawItem} {items : List RawItem} {cs : List ChangeItem}
      → i.deleted ≡ false
      → i.file ≡ false
      → Reports items cs
      → Reports (i ∷ items) cs

changes_gone : (i : RawItem) → i.deleted ≡ true → item_changes i ≡ said i true none ∷ []
unfolding item_changes
changes_gone i d = rw d refl

changes_there :
    (i : RawItem)
    → i.deleted ≡ false
    → i.file ≡ true
    → item_changes i ≡ said i false i.download_url ∷ []
unfolding item_changes
changes_there i d f = rw (d, f) refl

changes_passed : (i : RawItem) → i.deleted ≡ false → i.file ≡ false → item_changes i ≡ []
unfolding item_changes
changes_passed i d f = rw (d, f) refl

all_changes-Reports : (items : List RawItem) → Reports items (all_changes items)
all_changes-Reports [] = nothing
all_changes-Reports (i ∷ items) =
    let rest = all_changes-Reports items in
    let from : (cs : List ChangeItem)
        → item_changes i ≡ cs
        → Reports (i ∷ items) (cs ++ all_changes items)
        → Reports (i ∷ items) (all_changes (i ∷ items)) =
      λ cs e r. subst (λ v. Reports (i ∷ items) (v ++ all_changes items)) (sym e) r in
    elim (Bool-cases i.deleted) [
      | inl d ↦ from _ (changes_gone i d) (gone d rest)
      | inr d ↦ elim (Bool-cases i.file) [
        | inl f ↦ from _ (changes_there i d f) (there d f rest)
        | inr f ↦ from _ (changes_passed i d f) (passed d f rest)
      ]
    ]

-- The items from a URL on, and the link at the end: the pages follow one another by their next links, and the
-- last one has a delta link.
pub data Feed (get : String → DeltaReply) : String → List RawItem → String → Type 0 where
  final :
      {url link : String} {page : DeltaPage}
      → read_delta (get url) ≡ ok page
      → page.next_link ≡ none
      → page.delta_link ≡ some link
      → Feed get url page.value link
  follows :
      {url following link : String} {page : DeltaPage} {rest : List RawItem}
      → read_delta (get url) ≡ ok page
      → page.next_link ≡ some following
      → Feed get following rest link
      → Feed get url (page.value ++ rest) link

pub pages :
    {get : String → DeltaReply} {url link : String} {items : List RawItem}
    → Feed get url items link
    → ℕ
pages (final e n l) = 1
pages (follows e l f) = suc (pages f)

push_items-all :
    (items : List RawItem) (cs : List ChangeItem) (ds : List String)
    → push_items items cs ds ≡ (cs ++ all_changes items, ds ++ all_deleted items)
unfolding push_items
push_items-all [] cs ds = ap₂ (λ a b. (a, b)) (sym (append-nil cs)) (sym (append-nil ds))
push_items-all (i ∷ items) cs ds =
    push_items-all items (cs ++ item_changes i) (ds ++ item_deleted i)
    ∙ ap₂ (λ a b. (a, b)) (append_assoc cs (item_changes i) (all_changes items))
        (append_assoc ds (item_deleted i) (all_deleted items))

push_items-append :
    (xs ys : List RawItem) (cs : List ChangeItem) (ds : List String)
    → push_items (xs ++ ys) cs ds ≡ push_items ys (push_items xs cs ds).0 (push_items xs cs ds).1
unfolding push_items
push_items-append [] ys cs ds = refl
push_items-append (x ∷ xs) ys cs ds =
    push_items-append xs ys (cs ++ item_changes x) (ds ++ item_deleted x)

module _ (get : String → DeltaReply) where
  loop_done :
      (fuel : ℕ) (url link : String) (page : DeltaPage) (cs : List ChangeItem) (ds : List String)
      → read_delta (get url) ≡ ok page
      → page.next_link ≡ none
      → page.delta_link ≡ some link
      → delta_loop (suc fuel) get url cs ds
        ≡ some (ok ((push_items page.value cs ds).0, (push_items page.value cs ds).1, link))
  unfolding delta_loop link_of
  loop_done fuel url link page cs ds e n l = rw (e, delta_loop, n, l) refl

  loop_follows :
      (fuel : ℕ) (url following : String) (page : DeltaPage) (cs : List ChangeItem)
      (ds : List String)
      → read_delta (get url) ≡ ok page
      → page.next_link ≡ some following
      → delta_loop (suc fuel) get url cs ds
        ≡ delta_loop fuel get following
            (push_items page.value cs ds).0
            (push_items page.value cs ds).1
  unfolding delta_loop link_of
  loop_follows fuel url following page cs ds e l = rw (e, delta_loop, l) refl

  loop_Feed :
      (fuel : ℕ) (url link : String) (items : List RawItem) (cs : List ChangeItem)
      (ds : List String) (f : Feed get url items link)
      → pages f ≤ fuel
      → delta_loop fuel get url cs ds
        ≡ some (ok ((push_items items cs ds).0, (push_items items cs ds).1, link))
  unfolding pages
  loop_Feed zero url link items cs ds (final e n l) le = absurd (omega arith)
  loop_Feed zero url link items cs ds (follows e l f) le = absurd (omega arith)
  loop_Feed (suc fuel) url link items cs ds (final {page} e n l) le =
      loop_done fuel url link page cs ds e n l
  loop_Feed (suc fuel) url link items cs ds (follows {following} {page} {rest} e l f) le =
      loop_follows fuel url following page cs ds e l
      ∙ loop_Feed fuel following link rest (push_items page.value cs ds).0
          (push_items page.value cs ds).1 f (omega arith)
      ∙ ap (λ p. some (ok (p.0, p.1, link))) (sym (push_items-append page.value rest cs ds))

  -- Where each page from the cursor on has the link of the next one, and the last one has a delta link
  -- alone, a call reports all their items in order: a deleted one as a deletion, a file with its download
  -- URL, and a folder not at all. The new cursor is the delta link, and nothing is left to ask for. As many
  -- rounds as there are pages are enough.
  pub list_delta-Feed :
      (fuel : ℕ) (token : Bytes) (start url link : String) (items : List RawItem)
      (f : Feed get url items link)
      → pages f ≤ fuel
      → (changes : List ChangeItem) × Reports items changes
        × (list_delta fuel (ok token) (λ t. get) start (some url)
            ≡ some (ok (record { next_cursor = some link; changes = changes; more = false })))
  unfolding list_delta run_delta_cycle whole
  list_delta-Feed fuel token start url link items f le = (
    all_changes items,
    all_changes-Reports items,
    ap whole (
        loop_Feed fuel url link items [] [] f le
        ∙ ap (λ p. some (ok (p.0, p.1, link))) (push_items-all items [] [])),
  )

-- A fetched token serves every call up to 120 seconds before its lifetime ends, whatever a fetch
-- would give.
pub access_token-reused :
    (token : Bytes) (secs now later at_time store_time : ℕ) (other : Outcome (Bytes × ℕ))
    → at_time + 120 < later + secs
    → let fetched = access_token (ok (token, secs)) now later none in
      access_token other at_time store_time fetched.1 ≡ (ok token, fetched.1)
unfolding access_token keep
access_token-reused token secs now later at_time store_time other l =
    rw (lt→ltb (at_time + 60) (later + (secs - 60)) (omega arith)) refl
