-- ===== src/Sanitize/Ner/Steps.antt =====
-- The three things that a token can do to the open span.
use text.Mathlib.Text.{◌==◌ as str_eq, starts_with}
use text.Mathlib.TextEquality.{eq_iff}
use mcp_data_gateway.Prelude.{
  ℕ, ◌<◌, ◌≡◌, refl, subst, sym, String, Bool, true, false, ◌&&◌, ◌⊎◌, inl, inr, List, [], Option,
  none, some, arith, Bool-cases, ◌==◌,
}
use mcp_data_gateway.Sanitize.{EntityKind, Span, kind_eq}
use mcp_data_gateway.Sanitize.Ner.{
  map_label, label_of, flush, extend_or_start, tag_step, token_step,
}

pub kind_eq_sound : (a b : EntityKind) → kind_eq a b ≡ true → a ≡ b
kind_eq_sound a b h = ground arith

-- It is closed, it is closed and another one starts, or it is extended.
abbrev pub StepCase : ℕ × ℕ → Option Span → List Span × Option Span → Type 0
StepCase (s, e) prev r =
    (r ≡ (flush prev, none))
    ⊎ ((k : EntityKind) × (r ≡ (flush prev, some (record { start = s; end = e; kind = k }))))
    ⊎ ((o : Span) × (prev ≡ some o) × (r ≡ ([], some (record o { end = e }))))

extend_cases :
    (b : Bool) (prev : Option Span) (s e : ℕ) (k : EntityKind)
    → StepCase (s, e) prev (extend_or_start b prev (record { start = s; end = e; kind = k }))
unfolding extend_or_start
extend_cases true none s e k = inr (inl (k, refl))
extend_cases true (some o) s e k = elim (Bool-cases (kind_eq o.kind k)) [
  | inl b ↦ rw b (inr (inr (o, refl, refl)))
  | inr b ↦ rw b (inr (inl (k, refl)))
]
extend_cases false prev s e k = inr (inl (k, refl))

tag_cases :
    (kind : Option EntityKind) (begin inside : Bool) (s e : ℕ) (prev : Option Span)
    → StepCase (s, e) prev (tag_step kind begin inside (s, e) prev)
unfolding tag_step
tag_cases (some k) true inside s e prev = extend_cases false prev s e k
tag_cases (some k) false true s e prev = extend_cases true prev s e k
tag_cases (some k) false false s e prev = inl refl
tag_cases none begin inside s e prev = inl refl

pub token_cases :
    (labels : List String) (s e lid : ℕ) (prev : Option Span)
    → StepCase (s, e) prev (token_step labels (s, e) lid prev)
unfolding token_step
token_cases labels s e lid prev = elim (Bool-cases (s == 0 && e == 0)) [
  | inl b ↦ rw b (inl refl)
  | inr b ↦ rw b (tag_cases _ _ _ s e prev)
]

-- Whether a label is one of the literals with a given prefix.
abbrev IsTagged : String → Type 0
IsTagged lbl = (starts_with lbl "B-" ≡ true) ⊎ (starts_with lbl "I-" ≡ true)

try_begin :
    (lbl t : String)
    → starts_with t "B-" ≡ true
    → (str_eq lbl t ≡ false → IsTagged lbl)
    → IsTagged lbl
try_begin lbl t p rest = elim (Bool-cases (str_eq lbl t)) [
  | inl e ↦ inl (subst (λ u. starts_with u "B-" ≡ true) (sym ((eq_iff lbl t).0 e)) p)
  | inr n ↦ rest n
]

try_inside :
    (lbl t : String)
    → starts_with t "I-" ≡ true
    → (str_eq lbl t ≡ false → IsTagged lbl)
    → IsTagged lbl
try_inside lbl t p rest = elim (Bool-cases (str_eq lbl t)) [
  | inl e ↦ inr (subst (λ u. starts_with u "I-" ≡ true) (sym ((eq_iff lbl t).0 e)) p)
  | inr n ↦ rest n
]

untagged :
    (lbl : String)
    → str_eq lbl "B-PER" ≡ false
    → str_eq lbl "I-PER" ≡ false
    → str_eq lbl "B-ORG" ≡ false
    → str_eq lbl "I-ORG" ≡ false
    → str_eq lbl "B-LOC" ≡ false
    → str_eq lbl "I-LOC" ≡ false
    → map_label lbl ≡ none
unfolding map_label
untagged lbl n₁ n₂ n₃ n₄ n₅ n₆ = rw (n₁, n₂, n₃, n₄, n₅, n₆)

-- A label with a kind has one of the two prefixes.
prefix_of_kind : (lbl : String) (k : EntityKind) → map_label lbl ≡ some k → IsTagged lbl
prefix_of_kind lbl k h = try_begin lbl "B-PER" refl λ n₁. try_inside lbl "I-PER" refl λ n₂.
    try_begin lbl "B-ORG" refl λ n₃. try_inside lbl "I-ORG" refl λ n₄.
      try_begin lbl "B-LOC" refl
        λ n₅. try_inside lbl "I-LOC" refl λ n₆. cc (h, untagged lbl n₁ n₂ n₃ n₄ n₅ n₆)

abbrev Opens : ℕ → ℕ → EntityKind → Option Span → Option Span → Type 0
Opens s e k prev next =
    (o : Span) × (next ≡ some o)
    × (o.kind ≡ k)
    × (o.end ≡ e)
    × ((o.start ≡ s) ⊎ ((p : Span) × (prev ≡ some p) × (o.start ≡ p.start)))

Opens-new :
    (s e : ℕ) (k : EntityKind) (prev : Option Span)
    → Opens s e k prev (some (record { start = s; end = e; kind = k }))
Opens-new s e k prev = (record { start = s; end = e; kind = k }, refl, refl, refl, inl refl)

extend-Opens :
    (b : Bool) (prev : Option Span) (s e : ℕ) (k : EntityKind)
    → Opens s e k prev (extend_or_start b prev (record { start = s; end = e; kind = k })).1
unfolding extend_or_start
extend-Opens true none s e k = Opens-new s e k none
extend-Opens true (some o) s e k = elim (Bool-cases (kind_eq o.kind k)) [
  | inl b ↦ rw b (record o { end = e }, refl, kind_eq_sound o.kind k b, refl, inr (o, refl, refl))
  | inr b ↦ rw b (Opens-new s e k (some o))
]
extend-Opens false prev s e k = Opens-new s e k prev

tag-Opens :
    (begin inside : Bool) (s e : ℕ) (k : EntityKind) (prev : Option Span)
    → (begin ≡ true) ⊎ (inside ≡ true)
    → Opens s e k prev (tag_step (some k) begin inside (s, e) prev).1
unfolding tag_step
tag-Opens true inside s e k prev t = extend-Opens false prev s e k
tag-Opens false true s e k prev t = extend-Opens true prev s e k
tag-Opens false false s e k prev (inl t) = cc
tag-Opens false false s e k prev (inr t) = cc

-- A token with a kind leaves a span of that kind open, which ends with the token and begins with it
-- or with the span that was open.
pub token_tagged :
    (labels : List String) (s e lid : ℕ) (prev : Option Span) (k : EntityKind)
    → s < e
    → map_label (label_of labels lid) ≡ some k
    → Opens s e k prev (token_step labels (s, e) lid prev).1
unfolding token_step
token_tagged labels s e lid prev k l h =
    let b : (s == 0 && e == 0) ≡ false = ground arith in
    rw b (
      rw h (
        tag-Opens (starts_with (label_of labels lid) "B-") (starts_with (label_of labels lid) "I-")
          s e k prev (prefix_of_kind (label_of labels lid) k h)))
