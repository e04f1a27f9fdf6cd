-- ===== src/Ingest/Rows.antt =====
-- The queries on document_chunks: each touches the rows of its own item alone.
use text.Mathlib.Text.{◌==◌ as str_eq}
use text.Mathlib.TextEquality.{eq_iff}
use mcp_data_gateway.Prelude.{
  ℕ, ◌+◌, ◌≡◌, ◌≢◌, refl, ap, sym, ◌∙◌, String, true, false, inl, inr, List, [], ◌∷◌, ◌++◌,
  append-nil, Bool-cases, if◌then◌else◌,
}
use mcp_data_gateway.Prelude.Bytes.{Bytes}
use mcp_data_gateway.Prelude.Text.{Text}
use mcp_data_gateway.Ingest.{ChunkRow, delete_chunks, new_rows, upsert_chunks}

-- The rows of an item.
unfoldable pub rows_of : String → List ChunkRow → List ChunkRow
rows_of id [] = []
rows_of id (r ∷ table) =
    let rest = rows_of id table in if str_eq r.source_item_id id then r ∷ rest else rest

str_eq_refl : (s : String) → str_eq s s ≡ true
str_eq_refl s = (eq_iff s s).1 refl

str_eq-ne : (s t : String) → s ≢ t → str_eq s t ≡ false
str_eq-ne s t ne = elim (Bool-cases (str_eq s t)) [
  | inl e ↦ absurd (ne ((eq_iff s t).0 e))
  | inr f ↦ f
]

rows_of-append :
    (id : String) (s t : List ChunkRow) → rows_of id (s ++ t) ≡ rows_of id s ++ rows_of id t
unfolding rows_of
rows_of-append id [] t = refl
rows_of-append id (r ∷ s) t = elim (Bool-cases (str_eq r.source_item_id id)) [
  | inl e ↦ rw e (ap (◌∷◌ r) (rows_of-append id s t))
  | inr f ↦ rw f (rows_of-append id s t)
]

pub rows_of-deleted :
    (id : String) (table : List ChunkRow) → rows_of id (delete_chunks id table) ≡ []
unfolding rows_of delete_chunks
rows_of-deleted id [] = refl
rows_of-deleted id (r ∷ table) = elim (Bool-cases (str_eq r.source_item_id id)) [
  | inl e ↦ rw e (rows_of-deleted id table)
  | inr f ↦ rw (f, f) (rows_of-deleted id table)
]

pub rows_of-delete_chunks :
    (id x : String) (table : List ChunkRow)
    → x ≢ id
    → rows_of x (delete_chunks id table) ≡ rows_of x table
unfolding rows_of delete_chunks
rows_of-delete_chunks id x [] ne = refl
rows_of-delete_chunks id x (r ∷ table) ne = elim (Bool-cases (str_eq r.source_item_id id)) [
  | inl e ↦
      let same = (eq_iff r.source_item_id id).0 e in
      let other = str_eq-ne r.source_item_id x (λ h. ne (sym h ∙ same)) in
      rw (e, other) (rows_of-delete_chunks id x table ne)
  | inr f ↦ elim (Bool-cases (str_eq r.source_item_id x)) [
    | inl e ↦ rw (f, e) (ap (◌∷◌ r) (rows_of-delete_chunks id x table ne))
    | inr g ↦ rw (f, g) (rows_of-delete_chunks id x table ne)
  ]
]

abbrev row : (ℕ → ℕ) → Text → String → String → ℕ → Bytes → Bytes → ChunkRow
row uuid class id name i enc emb = record {
  id = uuid i;
  classification = class;
  source_item_id = id;
  doc_name = name;
  chunk_index = i;
  encrypted_content = enc;
  embedding = emb;
}

rows_of-new_rows :
    (uuid : ℕ → ℕ) (class : Text) (id name : String) (i : ℕ) (encs embs : List Bytes)
    → rows_of id (new_rows uuid class id name i encs embs) ≡ new_rows uuid class id name i encs embs
unfolding rows_of new_rows
rows_of-new_rows uuid class id name i [] embs = refl
rows_of-new_rows uuid class id name i (e ∷ encs) [] = refl
rows_of-new_rows uuid class id name i (e ∷ encs) (v ∷ embs) = rw (str_eq_refl id) (
    ap (λ s. row uuid class id name i e v ∷ s)
      (rows_of-new_rows uuid class id name (i + 1) encs embs))

rows_of-new_rows_other :
    (uuid : ℕ → ℕ) (class : Text) (id x name : String) (i : ℕ) (encs embs : List Bytes)
    → x ≢ id
    → rows_of x (new_rows uuid class id name i encs embs) ≡ []
unfolding rows_of new_rows
rows_of-new_rows_other uuid class id x name i [] embs ne = refl
rows_of-new_rows_other uuid class id x name i (e ∷ encs) [] ne = refl
rows_of-new_rows_other uuid class id x name i (e ∷ encs) (v ∷ embs) ne =
    rw (str_eq-ne id x (λ h. ne (sym h)))
      (rows_of-new_rows_other uuid class id x name (i + 1) encs embs ne)

-- An upsert replaces the rows of its item by the new ones.
pub rows_of-upserted :
    (uuid : ℕ → ℕ) (class : Text) (id name : String) (encs embs : List Bytes)
    (table : List ChunkRow)
    → rows_of id (upsert_chunks uuid class id name encs embs table)
      ≡ new_rows uuid class id name 0 encs embs
unfolding upsert_chunks
rows_of-upserted uuid class id name encs embs table =
    rows_of-append id (delete_chunks id table) (new_rows uuid class id name 0 encs embs)
    ∙ ap (λ s. s ++ rows_of id (new_rows uuid class id name 0 encs embs)) (rows_of-deleted id table)
    ∙ rows_of-new_rows uuid class id name 0 encs embs

-- It leaves the rows of the other items alone.
pub rows_of-upsert_chunks :
    (uuid : ℕ → ℕ) (class : Text) (id x name : String) (encs embs : List Bytes)
    (table : List ChunkRow)
    → x ≢ id
    → rows_of x (upsert_chunks uuid class id name encs embs table) ≡ rows_of x table
unfolding upsert_chunks
rows_of-upsert_chunks uuid class id x name encs embs table ne =
    rows_of-append x (delete_chunks id table) (new_rows uuid class id name 0 encs embs)
    ∙ ap (λ s. rows_of x (delete_chunks id table) ++ s)
        (rows_of-new_rows_other uuid class id x name 0 encs embs ne)
    ∙ append-nil (rows_of x (delete_chunks id table))
    ∙ rows_of-delete_chunks id x table ne
