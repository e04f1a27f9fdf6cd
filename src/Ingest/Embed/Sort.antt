-- ===== src/Ingest/Embed/Sort.antt =====
-- Sorting by index undoes any order of a reply whose indices are distinct.
use mathlib.Core.List.{Permᴰ}
use mcp_data_gateway.Prelude.{
  ℕ, suc, ◌+◌, ◌<◌, ◌≡◌, ◌≢◌, refl, ap, ap₂, sym, subst, ◌∙◌, true, false, inl, inr, List, [], ◌∷◌,
  map, Bool-cases, leb, length, All, arith,
}
use mcp_data_gateway.Prelude.Text.{Text}
use mcp_data_gateway.Ingest.Embed.{EmbedData, insert, sort_by_index}

-- what a comparison says of the other way round
leb_swap : (a b : ℕ) → a ≢ b → leb a b ≡ true → leb b a ≡ false
leb_swap a b ne h = ground arith

leb_other : (a b : ℕ) → leb a b ≡ false → leb b a ≡ true
leb_other a b h = ground arith

leb_trans : (a b c : ℕ) → leb a b ≡ true → leb b c ≡ true → leb a c ≡ true
leb_trans a b c h g = ground arith

leb_less : (a b c : ℕ) → leb a b ≡ true → leb a c ≡ false → leb b c ≡ false
leb_less a b c h g = ground arith

module _ {V : Type 0} where
  -- the embeddings of texts, with their places
  abbrev pub numbered : (Text → V) → ℕ → List Text → List (EmbedData V)
  numbered vec i [] = []
  numbered vec i (t ∷ texts) = record { index = i; embedding = vec t } ∷ numbered vec (i + 1) texts

  abbrev Apart : EmbedData V → EmbedData V → Type 0
  Apart d e = d.index ≢ e.index

  abbrev AreDistinct : List (EmbedData V) → Type 0
  AreDistinct [] = Unit
  AreDistinct (d ∷ ds) = All (Apart d) ds × AreDistinct ds

  insert_le :
      (d e : EmbedData V) (ds : List (EmbedData V))
      → leb d.index e.index ≡ true
      → insert d (e ∷ ds) ≡ d ∷ e ∷ ds
  unfolding insert
  insert_le d e ds h = rw h refl

  insert_gt :
      (d e : EmbedData V) (ds : List (EmbedData V))
      → leb d.index e.index ≡ false
      → insert d (e ∷ ds) ≡ e ∷ insert d ds
  unfolding insert
  insert_gt d e ds h = rw h refl

  -- the first of the two comes in front
  insert_lower :
      (d e : EmbedData V) (ds : List (EmbedData V))
      → leb d.index e.index ≡ true
      → leb e.index d.index ≡ false
      → insert d (insert e ds) ≡ insert e (insert d ds)
  unfolding insert
  insert_lower d e [] h g = rw (h, g) refl
  insert_lower d e (c ∷ ds) h g = elim (Bool-cases (leb d.index c.index)) [
    | inl p ↦ elim (Bool-cases (leb e.index c.index)) [
      | inl q ↦ rw (q, p, h, g, q) refl
      | inr q ↦ rw (q, p, g, q) refl
    ]
    | inr p ↦
        let q = leb_less d.index e.index c.index h p in
        rw (q, p, q) (ap (◌∷◌ c) (insert_lower d e ds h g))
  ]

  insert_comm :
      (d e : EmbedData V) (ds : List (EmbedData V))
      → Apart d e
      → insert d (insert e ds) ≡ insert e (insert d ds)
  insert_comm d e ds ne = elim (Bool-cases (leb d.index e.index)) [
    | inl h ↦ insert_lower d e ds h (leb_swap d.index e.index ne h)
    | inr h ↦ sym (insert_lower e d ds (leb_other d.index e.index h) h)
  ]

  All-perm :
      (P : EmbedData V → Type 0) (ds es : List (EmbedData V)) → Permᴰ ds es → All P es → All P ds
  All-perm P _ _ Permᴰ.nil h = tt
  All-perm P _ _ (Permᴰ.cons e p) h = (subst P (sym e) h.0, All-perm P _ _ p h.1)
  All-perm P _ _ (Permᴰ.swap e f) h = (subst P (sym e) h.1.0, (subst P (sym f) h.0, h.1.1))
  All-perm P _ _ (Permᴰ.trans {l₂ = m} p q) h = All-perm P _ m p (All-perm P m _ q h)

  AreDistinct-perm : (ds es : List (EmbedData V)) → Permᴰ ds es → AreDistinct es → AreDistinct ds
  AreDistinct-perm _ _ Permᴰ.nil h = tt
  AreDistinct-perm _ _ (Permᴰ.cons {a = d} {l₁ = ds} {l₂ = es} e p) h = (
    All-perm (Apart d) ds es p (subst (λ c. All (Apart c) es) (sym e) h.0),
    AreDistinct-perm ds es p h.1,
  )
  AreDistinct-perm _ _ (Permᴰ.swap {l = ds} e f) ((ne, h), (g, r)) = (
    (
      λ same. ne (ap (λ d. d.index) (sym f) ∙ sym same ∙ ap (λ d. d.index) e),
      subst (λ d. All (Apart d) ds) (sym e) g,
    ),
    (subst (λ d. All (Apart d) ds) (sym f) h, r),
  )
  AreDistinct-perm _ _ (Permᴰ.trans {l₂ = m} p q) h =
      AreDistinct-perm _ m p (AreDistinct-perm m _ q h)

  -- With distinct indices, the order of the reply does not matter.
  pub sort-perm :
      (ds es : List (EmbedData V))
      → Permᴰ ds es
      → AreDistinct es
      → sort_by_index ds ≡ sort_by_index es
  unfolding sort_by_index
  sort-perm _ _ Permᴰ.nil h = refl
  sort-perm _ _ (Permᴰ.cons {l₁ = ds} {l₂ = es} e p) h = ap₂ insert e (sort-perm ds es p h.1)
  sort-perm _ _ (Permᴰ.swap {a' = x} {b' = y} {l = ds} e f) h =
      ap₂ (λ d c. insert d (insert c (sort_by_index ds))) e f
      ∙ insert_comm y x (sort_by_index ds) (λ same. h.0.0 (sym same))
  sort-perm _ _ (Permᴰ.trans {l₂ = m} p q) h =
      sort-perm _ m p (AreDistinct-perm m _ q h) ∙ sort-perm m _ q h

  pub length-perm : (ds es : List (EmbedData V)) → Permᴰ ds es → length ds ≡ length es
  length-perm _ _ Permᴰ.nil = refl
  length-perm _ _ (Permᴰ.cons e p) = ap suc (length-perm _ _ p)
  length-perm _ _ (Permᴰ.swap e f) = refl
  length-perm _ _ (Permᴰ.trans {l₂ = m} p q) = length-perm _ m p ∙ length-perm m _ q

  module _ (vec : Text → V) where
    numbered_above :
        (d : EmbedData V) (i : ℕ) (texts : List Text)
        → d.index < i
        → All (Apart d) (numbered vec i texts)
    numbered_above d i [] h = tt
    numbered_above d i (t ∷ texts) h =
        (λ same. absurd (omega arith), numbered_above d (i + 1) texts (omega arith))

    pub numbered-AreDistinct : (i : ℕ) (texts : List Text) → AreDistinct (numbered vec i texts)
    numbered-AreDistinct i [] = tt
    numbered-AreDistinct i (t ∷ texts) = (
      numbered_above (record { index = i; embedding = vec t }) (i + 1) texts (omega arith),
      numbered-AreDistinct (i + 1) texts,
    )

    pub length-numbered : (i : ℕ) (texts : List Text) → length (numbered vec i texts) ≡ length texts
    length-numbered i [] = refl
    length-numbered i (t ∷ texts) = ap suc (length-numbered (i + 1) texts)

    pub embeddings-numbered :
        (i : ℕ) (texts : List Text) → map (λ d. d.embedding) (numbered vec i texts) ≡ map vec texts
    embeddings-numbered i [] = refl
    embeddings-numbered i (t ∷ texts) = ap (◌∷◌ (vec t)) (embeddings-numbered (i + 1) texts)

    insert_first :
        (t : Text) (i : ℕ) (texts : List Text)
        → insert (record { index = i; embedding = vec t }) (numbered vec (i + 1) texts)
          ≡ numbered vec i (t ∷ texts)
    unfolding insert
    insert_first t i [] = refl
    insert_first t i (u ∷ texts) = let h : leb i (i + 1) ≡ true = ground arith in rw h refl

    pub sort-numbered :
        (i : ℕ) (texts : List Text) → sort_by_index (numbered vec i texts) ≡ numbered vec i texts
    unfolding sort_by_index
    sort-numbered i [] = refl
    sort-numbered i (t ∷ texts) =
        ap (insert (record { index = i; embedding = vec t })) (sort-numbered (i + 1) texts)
        ∙ insert_first t i texts
