-- ===== src/Sanitize/Substitute/Segments.antt =====
-- `substitute` against the segments of the text: it never panics on the spans that `merge_and_dedup`
-- returns, and replaces those spans and nothing else.
use mcp_data_gateway.Prelude.{
  ℕ, ◌-◌, ◌≤◌, ◌≡◌, refl, ap, sym, ◌∙◌, Bool, true, false, not, ◌||◌, ◌&&◌, inl, inr, List, [], ◌∷◌,
  ◌++◌, append-nil, some, arith, Bool-cases, ltb, length, take, drop, if◌then◌else◌, All,
  take-append-drop, drop-drop, drop_of_le,
}
use mcp_data_gateway.Prelude.Bytes.{Bytes, is_char_boundary, str_slice, str_slice_lem}
use mcp_data_gateway.Sanitize.{EntityKind, Span}
use mcp_data_gateway.Sanitize.Merge.Order.{Disjoint}
use mcp_data_gateway.Sanitize.Substitute.{SanitizeCtx, render_token, emit, substitute_from}

-- A piece of the text: kept as it is, or a detected entity.
pub data Piece : Type 0 where
  verbatim : Bytes → Piece
  entity : Bytes → EntityKind → Piece

abbrev pub original : List Piece → Bytes
original [] = []
original (verbatim b ∷ ps) = b ++ original ps
original (entity b kind ∷ ps) = b ++ original ps

abbrev pub rendered : SanitizeCtx → List Piece → Bytes
rendered ctx [] = []
rendered ctx (verbatim b ∷ ps) = b ++ rendered ctx ps
rendered ctx (entity b kind ∷ ps) = render_token b kind ctx ++ rendered ctx ps

abbrev pub entities : List Piece → List (Bytes × EntityKind)
entities [] = []
entities (verbatim b ∷ ps) = entities ps
entities (entity b kind ∷ ps) = (b, kind) ∷ entities ps

-- In range and on character boundaries.
abbrev pub fits : Bytes → Span → Bool
fits text s =
    not (ltb (length text) s.start || ltb (length text) s.end)
    && not (not (is_char_boundary text s.start) || not (is_char_boundary text s.end))

-- The text from one offset up to another.
abbrev pub cut : Bytes → ℕ → ℕ → Bytes
cut text start end = take (end - start) (drop start text)

-- The text behind `cursor`, cut at the spans that fit.
abbrev pub segments : Bytes → List Span → ℕ → List Piece
segments text [] cursor = verbatim (cut text cursor (length text)) ∷ []
segments text (s ∷ ss) cursor =
    let skipped = segments text ss cursor in
    let replaced =
      verbatim (cut text cursor s.start)
      ∷ entity (cut text s.start s.end) s.kind
      ∷ segments text ss s.end in
    if fits text s then replaced else skipped

-- What the segments replace: the spans that fit, each with the text it stands on.
abbrev pub fitting : Bytes → List Span → List (Bytes × EntityKind)
fitting text [] = []
fitting text (s ∷ ss) =
    let rest = fitting text ss in
    if fits text s then (cut text s.start s.end, s.kind) ∷ rest else rest

module _ (text : Bytes) (ctx : SanitizeCtx) where
  substitute_skip :
      (s : Span) (ss : List Span) (cursor : ℕ)
      → fits text s ≡ false
      → substitute_from text ctx (s ∷ ss) cursor ≡ substitute_from text ctx ss cursor
  unfolding substitute_from
  substitute_skip s ss cursor h = ground arith

  substitute_take :
      (s : Span) (ss : List Span) (cursor : ℕ)
      → fits text s ≡ true
      → substitute_from text ctx (s ∷ ss) cursor
        ≡ emit
            (str_slice text cursor s.start)
            (str_slice text s.start s.end)
            (substitute_from text ctx ss s.end)
            (λ raw. render_token raw s.kind ctx)
  unfolding substitute_from
  substitute_take s ss cursor h = ground arith

pub boundary_end : (text : Bytes) → is_char_boundary text (length text) ≡ true
unfolding is_char_boundary
boundary_end text = ground arith

pub fits_facts :
    (text : Bytes) (s : Span)
    → fits text s ≡ true
    → (s.start ≤ length text)
      × (s.end ≤ length text)
      × (is_char_boundary text s.start ≡ true)
      × (is_char_boundary text s.end ≡ true)
fits_facts text s h = ground arith

abbrev pub IsWellFormed : Span → Type 0
IsWellFormed s = s.start ≤ s.end

pub Disjoint-mono : (a b : ℕ) (ss : List Span) → a ≤ b → Disjoint b ss → Disjoint a ss
Disjoint-mono a b [] l h = tt
Disjoint-mono a b (s ∷ ss) l h = (omega arith, h.1)

Disjoint-tail :
    (cursor : ℕ) (s : Span) (ss : List Span)
    → IsWellFormed s
    → Disjoint cursor (s ∷ ss)
    → Disjoint cursor ss
Disjoint-tail cursor s ss w h = Disjoint-mono cursor s.end ss (omega arith) h.1

pub cut-drop : (text : Bytes) (a b : ℕ) → a ≤ b → cut text a b ++ drop b text ≡ drop a text
cut-drop text a b l =
    ap (◌++◌ (cut text a b)) (sym (drop-drop (b - a) a b text (omega arith)))
    ∙ take-append-drop (b - a) (drop a text)

module _ (text : Bytes) (ctx : SanitizeCtx) where
  pub substitute_from-segments :
      (ss : List Span) (cursor : ℕ)
      → All IsWellFormed ss
      → Disjoint cursor ss
      → cursor ≤ length text
      → is_char_boundary text cursor ≡ true
      → substitute_from text ctx ss cursor ≡ some (rendered ctx (segments text ss cursor))
  unfolding substitute_from
  substitute_from-segments [] cursor w d l b =
      str_slice_lem text cursor (length text) l (omega arith) b (boundary_end text)
      ∙ ap some (sym (append-nil (cut text cursor (length text))))
  substitute_from-segments (s ∷ ss) cursor w d l b = elim (Bool-cases (fits text s)) [
    | inl f ↦
        let (l₁, l₂, b₁, b₂) = fits_facts text s f in
        substitute_take text ctx s ss cursor f
        ∙ rw (str_slice_lem text cursor s.start d.0 l₁ b b₁) (
            rw (str_slice_lem text s.start s.end w.0 l₂ b₁ b₂)
              (rw (substitute_from-segments ss s.end w.1 d.1 l₂ b₂) (rw (emit, f))))
    | inr f ↦
        substitute_skip text ctx s ss cursor f
        ∙ rw f (substitute_from-segments ss cursor w.1 (Disjoint-tail cursor s ss w.0 d) l b)
  ]

  pub original-segments :
      (ss : List Span) (cursor : ℕ)
      → All IsWellFormed ss
      → Disjoint cursor ss
      → cursor ≤ length text
      → original (segments text ss cursor) ≡ drop cursor text
  original-segments [] cursor w d l =
      ap (◌++◌ (cut text cursor (length text))) (sym (drop_of_le (length text) text (omega arith)))
      ∙ cut-drop text cursor (length text) l
  original-segments (s ∷ ss) cursor w d l = elim (Bool-cases (fits text s)) [
    | inl f ↦
        let (l₁, l₂, b₁, b₂) = fits_facts text s f in
        rw f (
          rw (original-segments ss s.end w.1 d.1 l₂) (
            ap (◌++◌ (cut text cursor s.start)) (cut-drop text s.start s.end w.0)
            ∙ cut-drop text cursor s.start d.0))
    | inr f ↦ rw f (original-segments ss cursor w.1 (Disjoint-tail cursor s ss w.0 d) l)
  ]

  pub entities-segments :
      (ss : List Span) (cursor : ℕ) → entities (segments text ss cursor) ≡ fitting text ss
  entities-segments [] cursor = refl
  entities-segments (s ∷ ss) cursor = elim (Bool-cases (fits text s)) [
    | inl f ↦ rw f (ap (◌∷◌ (cut text s.start s.end, s.kind)) (entities-segments ss s.end))
    | inr f ↦ rw f (entities-segments ss cursor)
  ]
