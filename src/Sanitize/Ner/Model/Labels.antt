-- ===== src/Sanitize/Ner/Model/Labels.antt =====
-- The table of labels says of each index what the entries say of it.
use mcp_data_gateway.Prelude.{
  ℕ, zero, suc, ◌+◌, ◌≤◌, ◌<◌, ◌≡◌, refl, ap, sym, ◌∙◌, String, false, inl, inr, List, [], ◌∷◌,
  Option, none, some, some-injective, Option-cases, Bool-cases, arith, if◌then◌else◌, leb, ◌==◌,
  length,
}
use mcp_data_gateway.Sanitize.Ner.{label_of}
use mcp_data_gateway.Sanitize.Ner.Model.{
  Entry, parse_usize, resize, grow, set_label, put_label, fill_labels, load_labels,
}

-- What the entries say of an index: the value of the last one that has it, or `old`.
said_of : Option ℕ → Option String → ℕ → String → String
said_of (some idx) (some lbl) i old = if idx == i then lbl else old
said_of _ _ i old = old

pub said : List Entry → ℕ → String → String
unfolding said_of
said [] i old = old
said (e ∷ entries) i old = said entries i (said_of (parse_usize e.0) e.1 i old)

-- Growing a table changes no label, since an index out of range stands for `O`.
label_of-resize :
    (n i : ℕ) (labels : List String) → label_of (resize n labels) i ≡ label_of labels i
unfolding resize
label_of-resize zero i labels = refl
label_of-resize (suc n) zero [] = refl
label_of-resize (suc n) (suc i) [] = label_of-resize n i []
label_of-resize (suc n) zero (l ∷ labels) = refl
label_of-resize (suc n) (suc i) (l ∷ labels) = label_of-resize n i labels

length-resize : (n : ℕ) (labels : List String) → n ≤ length (resize n labels)
unfolding resize
length-resize zero labels = omega arith
length-resize (suc n) [] = omega (arith, length-resize n [])
length-resize (suc n) (l ∷ labels) = omega (arith, length-resize n labels)

suc_test : (a b : ℕ) → (a == b) ≡ (suc a == suc b)
suc_test a b = ground arith

label_of-grow :
    (idx i : ℕ) (labels : List String) → label_of (grow idx labels) i ≡ label_of labels i
unfolding grow
label_of-grow idx i labels = elim (Bool-cases (leb (length labels) idx)) [
  | inl e ↦ rw e (label_of-resize (idx + 1) i labels)
  | inr f ↦ rw f refl
]

length-grow : (idx : ℕ) (labels : List String) → idx < length (grow idx labels)
unfolding grow
length-grow idx labels = elim (Bool-cases (leb (length labels) idx)) [
  | inl e ↦ rw e (omega (arith, length-resize (idx + 1) labels))
  | inr f ↦ rw f (ground arith)
]

label_of-set_label :
    (idx i : ℕ) (lbl : String) (labels : List String)
    → idx < length labels
    → label_of (set_label idx lbl labels) i ≡ (if idx == i then lbl else label_of labels i)
unfolding set_label
label_of-set_label idx i lbl [] h = absurd (omega arith)
label_of-set_label zero zero lbl (l ∷ labels) h = refl
label_of-set_label zero (suc i) lbl (l ∷ labels) h =
    let e : (0 == suc i) ≡ false = ground arith in rw e refl
label_of-set_label (suc idx) zero lbl (l ∷ labels) h =
    let e : (suc idx == 0) ≡ false = ground arith in rw e refl
label_of-set_label (suc idx) (suc i) lbl (l ∷ labels) h =
    label_of-set_label idx i lbl labels (omega arith)
    ∙ ap (λ b. if b then lbl else label_of labels i) (suc_test idx i)

put_label-said :
    (key : Option ℕ) (lbl : Option String) (i : ℕ) (labels next : List String)
    → put_label key lbl labels ≡ some next
    → label_of next i ≡ said_of key lbl i (label_of labels i)
unfolding put_label said_of
put_label-said none lbl i labels next h = cc
put_label-said (some idx) none i labels next h = cc
put_label-said (some idx) (some lbl) i labels next h =
    ap (λ t. label_of t i) (sym (some-injective _ _ h))
    ∙ label_of-set_label idx i lbl (grow idx labels) (length-grow idx labels)
    ∙ ap (λ old. if idx == i then lbl else old) (label_of-grow idx i labels)

fill_labels-said :
    (entries : List Entry) (i : ℕ) (labels table : List String)
    → fill_labels entries labels ≡ some table
    → label_of table i ≡ said entries i (label_of labels i)
unfolding fill_labels said
fill_labels-said [] i labels table h = ap (λ t. label_of t i) (sym (some-injective _ _ h))
fill_labels-said (e ∷ entries) i labels table h =
    elim (Option-cases (put_label (parse_usize e.0) e.1 labels)) [
      | inl n ↦ cc (rw (n, fill_labels) at h)
      | inr (next, p) ↦
          fill_labels-said entries i next table (rw (p, fill_labels) at h)
          ∙ ap (said entries i) (put_label-said (parse_usize e.0) e.1 i labels next p)
    ]

-- A table that loads gives each index the label of the last entry with this index, and `O` to an index
-- that no entry has.
pub load_labels-said :
    (entries : List Entry) (table : List String) (i : ℕ)
    → load_labels entries ≡ some table
    → label_of table i ≡ said entries i "O"
unfolding load_labels
load_labels-said entries table i h =
    fill_labels-said entries i (resize (length entries) []) table h
    ∙ ap (said entries i) (label_of-resize (length entries) i [])
