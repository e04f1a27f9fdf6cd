-- ===== src/Connector/Zoho/Bfs/Visits.antt =====
-- The run of the traversal over many calls of `list_changes`: what is visited, what is queued, and what
-- the watermark stands for.
use text.Mathlib.Text.{◌==◌ as str_eq}
use text.Mathlib.TextEquality.{eq_iff}
use mcp_data_gateway.Prelude.{
  ℕ, ◌≡◌, refl, sym, ap, subst, ◌∙◌, ◌⊎◌, String, true, inl, inr, List, [], ◌∷◌, ◌++◌, append_assoc,
  append-nil, Bool-cases, Elem, Elem-append_left, Elem-append_right,
}
use mcp_data_gateway.Prelude.Int.{ℤ}
use mcp_data_gateway.Connector.{ChangeItem}
use mcp_data_gateway.Connector.Zoho.Bfs.{
  FolderCursor, ZohoCursor, ZohoFileItem, take_items, enqueue, changes_of, is_folder, contains,
  root_cursor,
}

abbrev pub ids : List FolderCursor → List String
ids [] = []
ids (fc ∷ q) = fc.folder_id ∷ ids q

ids-append : (xs ys : List FolderCursor) → ids (xs ++ ys) ≡ ids xs ++ ids ys
ids-append [] ys = refl
ids-append (x ∷ xs) ys = ap (◌∷◌ x.folder_id) (ids-append xs ys)

-- No text stands in the list twice.
abbrev pub Distinct : List String → Type 0
Distinct [] = Unit
Distinct (x ∷ xs) = ¬ Elem x xs × Distinct xs

Elem-last : (x y : String) (xs : List String) → Elem y (xs ++ x ∷ []) → Elem y xs ⊎ (y ≡ x)
Elem-last x y [] (inl e) = inr e
Elem-last x y [] (inr h) = absurd h
Elem-last x y (z ∷ xs) (inl e) = inl (inl e)
Elem-last x y (z ∷ xs) (inr h) = elim (Elem-last x y xs h) [ inl e ↦ inl (inr e) | inr e ↦ inr e ]

Distinct-append :
    (x : String) (xs : List String) → Distinct xs → ¬ Elem x xs → Distinct (xs ++ x ∷ [])
Distinct-append x [] d n = (λ h. h, tt)
Distinct-append x (y ∷ xs) (n', d) n = (
  λ h. elim (Elem-last x y xs h) [ inl e ↦ n' e | inr e ↦ n (inl (sym e)) ],
  Distinct-append x xs d (λ h. n (inr h)),
)

Elem-contains : (xs : List String) (x : String) → contains xs x ≡ true → Elem x xs
unfolding contains
Elem-contains [] x h = cc
Elem-contains (y ∷ ys) x h = elim (Bool-cases (str_eq y x)) [
  | inl b ↦ inl (sym ((eq_iff y x).0 b))
  | inr b ↦ inr (Elem-contains ys x (rw b at h))
]

contains-Elem : (xs : List String) (x : String) → Elem x xs → contains xs x ≡ true
unfolding contains
contains-Elem [] x h = elim h [ ]
contains-Elem (y ∷ ys) x (inl e) = rw ((eq_iff y x).1 (sym e)) refl
contains-Elem (y ∷ ys) x (inr h) = elim (Bool-cases (str_eq y x)) [
  | inl b ↦ rw b refl
  | inr b ↦ rw b (contains-Elem ys x h)
]

-- How a later state follows from an earlier one within a run: folders are found, visited and queued.
pub record Extends (s t : ZohoCursor) : Type 0 where
  pub found : List String
  pub visits : t.visited ≡ s.visited ++ found
  pub queues : ids t.queue ≡ ids s.queue ++ found
  pub keeps_distinct : Distinct s.visited → Distinct t.visited
  pub same_root : t.root_id ≡ s.root_id
  pub same_watermark : t.watermark_ms ≡ s.watermark_ms
  pub same_start : t.run_started_ms ≡ s.run_started_ms

Extends-refl : (s : ZohoCursor) → Extends s s
Extends-refl s = record {
  found = [];
  visits = sym (append-nil s.visited);
  queues = sym (append-nil (ids s.queue));
  keeps_distinct = λ d. d;
  same_root = refl;
  same_watermark = refl;
  same_start = refl;
}

Extends-trans : (s t u : ZohoCursor) → Extends s t → Extends t u → Extends s u
Extends-trans s t u a b = record {
  found = a.found ++ b.found;
  visits = b.visits ∙ ap (λ v. v ++ b.found) a.visits ∙ append_assoc s.visited a.found b.found;
  queues = b.queues ∙ ap (λ v. v ++ b.found) a.queues ∙ append_assoc (ids s.queue) a.found b.found;
  keeps_distinct = λ d. b.keeps_distinct (a.keeps_distinct d);
  same_root = b.same_root ∙ a.same_root;
  same_watermark = b.same_watermark ∙ a.same_watermark;
  same_start = b.same_start ∙ a.same_start;
}

enqueue-Extends : (item : ZohoFileItem) (s : ZohoCursor) → Extends s (enqueue item s)
unfolding enqueue
enqueue-Extends item s = elim (Bool-cases (is_folder item)) [
  | inr f ↦ rw f (Extends-refl s)
  | inl f ↦ elim (Bool-cases (contains s.visited item.id)) [
    | inl c ↦ rw (f, c) (Extends-refl s)
    | inr c ↦
        rw (f, c)
          (record {
            found = item.id ∷ [];
            visits = refl;
            queues = ids-append s.queue (root_cursor item.id ∷ []);
            keeps_distinct = λ d.
                Distinct-append item.id s.visited d
                  (λ h. cc (contains-Elem s.visited item.id h, c));
            same_root = refl;
            same_watermark = refl;
            same_start = refl;
          })
  ]
]

-- A folder that is met is visited behind it.
enqueue_visits :
    (item : ZohoFileItem) (s : ZohoCursor)
    → is_folder item ≡ true
    → Elem item.id (enqueue item s).visited
unfolding enqueue
enqueue_visits item s f = elim (Bool-cases (contains s.visited item.id)) [
  | inl c ↦ rw (f, c) (Elem-contains s.visited item.id c)
  | inr c ↦ rw (f, c) (Elem-append_right item.id s.visited (item.id ∷ []) (inl refl))
]

-- All items of a folder.
pub take_items_visits :
    (format_epoch_ms : ℤ → List ℕ) (folder : String) (items : List ZohoFileItem) (s : ZohoCursor)
    (changes : List ChangeItem)
    → Extends s (take_items format_epoch_ms folder items s changes).0
      × ((item : ZohoFileItem)
          → Elem item items
          → is_folder item ≡ true
          → Elem item.id (take_items format_epoch_ms folder items s changes).0.visited)
unfolding take_items
take_items_visits format_epoch_ms folder [] s changes = (Extends-refl s, λ item h. absurd h)
take_items_visits format_epoch_ms folder (x ∷ items) s changes =
    let (ext, met) =
      take_items_visits format_epoch_ms folder items (enqueue x s)
        (changes ++ changes_of format_epoch_ms folder x) in
    (
      Extends-trans s (enqueue x s) _ (enqueue-Extends x s) ext,
      λ item h f. elim h [
        | inl e ↦ subst (Elem item.id) (sym ext.visits) (
            Elem-append_left item.id (enqueue x s).visited ext.found
              (subst (λ i. Elem item.id (enqueue i s).visited) e (enqueue_visits item s f)))
        | inr h' ↦ met item h' f
      ],
    )
