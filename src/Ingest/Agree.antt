-- ===== src/Ingest/Agree.antt =====
-- The loop over changes that say the same of an item wherever they are about it.
use text.Mathlib.Text.{◌==◌ as str_eq}
use text.Mathlib.TextEquality.{eq_iff}
use mcp_data_gateway.Prelude.{
  ◌≡◌, ◌≢◌, refl, sym, ap, ◌∙◌, Bool, true, false, inl, inr, List, [], ◌∷◌, Option, none, some,
  Bool-cases, All, Elem,
}
use mcp_data_gateway.Prelude.Bytes.{Bytes}
use mcp_data_gateway.Connector.{ChangeItem}
use mcp_data_gateway.Ingest.{ChunkRow, Env, ingest, process_item, process_items}
use mcp_data_gateway.Ingest.Rows.{rows_of}
use mcp_data_gateway.Ingest.Cycle.{target, target_of, process_item-own, process_item-other}

module _ (env : Env) where
  -- A change that is about an item is the one given.
  abbrev pub Agrees : ChangeItem → ChangeItem → Type 0
  Agrees item c = c.remote_id ≡ item.remote_id → c ≡ item

  target_of_twice :
      (item : ChangeItem) (deleted : Bool) (o : Option (List Bytes × List Bytes))
      (old : List ChunkRow)
      → target_of env item deleted o (target_of env item deleted o old)
        ≡ target_of env item deleted o old
  unfolding target_of
  target_of_twice item true o old = elim (Bool-cases (env.deletes item.remote_id)) [
    | inl e ↦ rw e refl
    | inr e ↦ rw e refl
  ]
  target_of_twice item false none old = refl
  target_of_twice item false (some (encs, embs)) old =
      elim (Bool-cases (env.upserts item.remote_id)) [ inl e ↦ rw e refl | inr e ↦ rw e refl ]

  target_twice :
      (item : ChangeItem) (old : List ChunkRow)
      → target env item (target env item old) ≡ target env item old
  unfolding target
  target_twice item old = target_of_twice item item.deleted (ingest env item) old

  process_item-Agrees :
      (item c : ChangeItem) (table : List ChunkRow)
      → Agrees item c
      → c.remote_id ≡ item.remote_id
      → rows_of item.remote_id (process_item env c table).0
        ≡ target env item (rows_of item.remote_id table)
  process_item-Agrees item c table a e =
      ap (λ u. rows_of item.remote_id (process_item env u table).0) (a e)
      ∙ process_item-own env item table

  differs :
      (item c : ChangeItem)
      → str_eq item.remote_id c.remote_id ≡ false
      → item.remote_id ≢ c.remote_id
  differs item c n e = cc ((eq_iff item.remote_id c.remote_id).1 e, n)

  process_items_step :
      (c : ChangeItem) (cs : List ChangeItem) (table : List ChunkRow)
      → (process_items env (c ∷ cs) table).0 ≡ (process_items env cs (process_item env c table).0).0
  unfolding process_items
  process_items_step c cs table = refl

  process_items_none : (table : List ChunkRow) → (process_items env [] table).0 ≡ table
  unfolding process_items
  process_items_none table = refl

  -- Once the rows of an item are what its change makes of them, they stay so.
  keeps_target :
      (item : ChangeItem) (cs : List ChangeItem) (old table : List ChunkRow)
      → All (Agrees item) cs
      → rows_of item.remote_id table ≡ target env item old
      → rows_of item.remote_id (process_items env cs table).0 ≡ target env item old
  keeps_target item [] old table h r = ap (rows_of item.remote_id) (process_items_none table) ∙ r
  keeps_target item (c ∷ cs) old table (a, h) r =
      ap (rows_of item.remote_id) (process_items_step c cs table)
      ∙ keeps_target item cs old (process_item env c table).0 h
          (elim (Bool-cases (str_eq item.remote_id c.remote_id)) [
            | inl e ↦
                process_item-Agrees item c table a (sym ((eq_iff item.remote_id c.remote_id).0 e))
                ∙ ap (target env item) r
                ∙ target_twice item old
            | inr n ↦ process_item-other env c item.remote_id table (differs item c n) ∙ r
          ])

  -- Where all changes about an item are the same, its rows are what this change makes of the old ones.
  pub process_items-Agrees :
      (item : ChangeItem) (cs : List ChangeItem) (table : List ChunkRow)
      → All (Agrees item) cs
      → Elem item cs
      → rows_of item.remote_id (process_items env cs table).0
        ≡ target env item (rows_of item.remote_id table)
  process_items-Agrees item [] table h e = absurd e
  process_items-Agrees item (c ∷ cs) table (a, h) (inl e) =
      ap (rows_of item.remote_id) (process_items_step c cs table)
      ∙ keeps_target item cs (rows_of item.remote_id table) (process_item env c table).0 h
          (process_item-Agrees item c table a (ap (λ u. u.remote_id) (sym e)))
  process_items-Agrees item (c ∷ cs) table (a, h) (inr e) =
      elim (Bool-cases (str_eq item.remote_id c.remote_id)) [
        | inl s ↦
            ap (rows_of item.remote_id) (process_items_step c cs table)
            ∙ keeps_target item cs (rows_of item.remote_id table) (process_item env c table).0 h
                (process_item-Agrees item c table a (sym ((eq_iff item.remote_id c.remote_id).0 s)))
        | inr n ↦
            ap (rows_of item.remote_id) (process_items_step c cs table)
            ∙ process_items-Agrees item cs (process_item env c table).0 h e
            ∙ ap (target env item)
                (process_item-other env c item.remote_id table (differs item c n))
      ]
