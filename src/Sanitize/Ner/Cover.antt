-- ===== src/Sanitize/Ner/Cover.antt =====
-- The loop of `bio_merge` from an open span on: order, and what becomes of the open span.
use mcp_data_gateway.Prelude.{
  ℕ, ◌≤◌, ◌<◌, ◌≡◌, refl, sym, subst, ap, ◌∙◌, String, ◌⊎◌, inl, inr, List, [], ◌∷◌, ◌++◌,
  append-nil, some-injective, Option, none, some, arith, Elem, Elem-append_right,
}
use mcp_data_gateway.Sanitize.{EntityKind, Span}
use mcp_data_gateway.Sanitize.Merge.Order.{Disjoint}
use mcp_data_gateway.Sanitize.Ner.{map_label, label_of, flush, token_step, bio_from}
use mcp_data_gateway.Sanitize.Ner.Steps.{token_cases, token_tagged}

-- A special token, as the tokenizer marks it.
abbrev pub IsSpecial : ℕ × ℕ → Type 0
IsSpecial (s, e) = (s ≡ 0) × (e ≡ 0)

-- The offsets from `p` on: each token is special, or not empty and behind the one in front of it.
abbrev pub IsOrdered : ℕ → List (ℕ × ℕ) → Type 0
IsOrdered p [] = Unit
IsOrdered p ((s, e) ∷ os) =
    (IsSpecial (s, e) × IsOrdered p os) ⊎ ((p ≤ s) × (s < e) × IsOrdered e os)

-- The open span lies between `p` and `q`.
abbrev pub OpenIn : ℕ → ℕ → Option Span → Type 0
OpenIn p q none = Unit
OpenIn p q (some o) = (p ≤ o.start) × (o.start ≤ o.end) × (o.end ≤ q)

Disjoint-le : (a b : ℕ) (ss : List Span) → a ≤ b → Disjoint b ss → Disjoint a ss
Disjoint-le a b [] l h = tt
Disjoint-le a b (s ∷ ss) l h = (omega arith, h.1)

flush-Disjoint :
    (p q : ℕ) (prev : Option Span) (rest : List Span)
    → p ≤ q
    → OpenIn p q prev
    → Disjoint q rest
    → Disjoint p (flush prev ++ rest)
flush-Disjoint p q none rest l o d = Disjoint-le p q rest l d
flush-Disjoint p q (some s) rest l (a, b, c) d = (a, Disjoint-le s.end q rest c d)

pub special_step :
    (labels : List String) (s e lid : ℕ) (prev : Option Span)
    → IsSpecial (s, e)
    → token_step labels (s, e) lid prev ≡ (flush prev, none)
unfolding token_step
special_step labels s e lid prev h = ground arith

-- A span of kind `k` over the range from `s` to `e`.
abbrev pub Within : ℕ → ℕ → EntityKind → List Span → Type 0
Within s e k out = (x : Span) × Elem x out × (x.kind ≡ k) × (x.start ≤ s) × (e ≤ x.end)

module _ (labels : List String) where
  pub bio_from-Disjoint :
      (lids : List ℕ) (offsets : List (ℕ × ℕ)) (prev : Option Span) (p q : ℕ)
      → p ≤ q
      → IsOrdered q offsets
      → OpenIn p q prev
      → Disjoint p (bio_from offsets lids labels prev)
  unfolding bio_from
  bio_from-Disjoint [] offsets prev p q l h o =
      subst (Disjoint p) (append-nil (flush prev)) (flush-Disjoint p q prev [] l o tt)
  bio_from-Disjoint (lid ∷ lids) [] prev p q l h o =
      rw (special_step labels 0 0 lid prev (refl, refl))
        (flush-Disjoint p q prev _ l o (bio_from-Disjoint lids [] none q q (omega arith) tt tt))
  bio_from-Disjoint (lid ∷ lids) ((s, e) ∷ os) prev p q l (inl (sp, h)) o =
      rw (special_step labels s e lid prev sp)
        (flush-Disjoint p q prev _ l o (bio_from-Disjoint lids os none q q (omega arith) h tt))
  bio_from-Disjoint (lid ∷ lids) ((s, e) ∷ os) prev p q l (inr (a, b, h)) o =
      elim (token_cases labels s e lid prev) [
        | inl r ↦ rw r (
            flush-Disjoint p q prev _ l o (
              Disjoint-le q e _ (omega arith)
                (bio_from-Disjoint lids os none e e (omega arith) h tt)))
        | inr (inl (k, r)) ↦ rw r (
            flush-Disjoint p q prev _ l o (
              bio_from-Disjoint lids os (some (record { start = s; end = e; kind = k })) q e
                (omega arith) h (a, omega arith, omega arith)))
        | inr (inr (u, eu, r)) ↦
            let (o₁, o₂, o₃) = subst (OpenIn p q) eu o in
            rw r (
              bio_from-Disjoint lids os (some (record u { end = e })) p e (omega arith) h
                (o₁, omega arith, omega arith))
      ]

  -- The open span comes out with its start and kind, and no shorter.
  abbrev Keeps : Span → List Span → Type 0
  Keeps o out = (x : Span) × Elem x out × (x.start ≡ o.start) × (x.kind ≡ o.kind) × (o.end ≤ x.end)

  flush-Keeps : (o : Span) (rest : List Span) → Keeps o (flush (some o) ++ rest)
  flush-Keeps o rest = (o, inl refl, refl, refl, omega arith)

  bio_from-Keeps :
      (lids : List ℕ) (offsets : List (ℕ × ℕ)) (o : Span) (q : ℕ)
      → o.end ≤ q
      → IsOrdered q offsets
      → Keeps o (bio_from offsets lids labels (some o))
  unfolding bio_from
  bio_from-Keeps [] offsets o q l h = flush-Keeps o []
  bio_from-Keeps (lid ∷ lids) [] o q l h =
      rw (special_step labels 0 0 lid (some o) (refl, refl)) (flush-Keeps o _)
  bio_from-Keeps (lid ∷ lids) ((s, e) ∷ os) o q l (inl (sp, h)) =
      rw (special_step labels s e lid (some o) sp) (flush-Keeps o _)
  bio_from-Keeps (lid ∷ lids) ((s, e) ∷ os) o q l (inr (a, b, h)) =
      elim (token_cases labels s e lid (some o)) [
        | inl r ↦ rw r (flush-Keeps o _)
        | inr (inl (k, r)) ↦ rw r (flush-Keeps o _)
        | inr (inr (u, eu, r)) ↦
            let same : o ≡ u = some-injective o u eu in
            let (x, m, xs, xk, xe) =
              bio_from-Keeps lids os (record u { end = e }) e (omega arith) h in
            rw r (
              x,
              m,
              xs ∙ ap (λ (t : Span). t.start) (sym same),
              xk ∙ ap (λ (t : Span). t.kind) (sym same),
              omega arith,
            )
      ]

  pub token_covered :
      (lids : List ℕ) (os : List (ℕ × ℕ)) (s e p q lid : ℕ) (prev : Option Span) (k : EntityKind)
      → s < e
      → q ≤ s
      → OpenIn p q prev
      → IsOrdered e os
      → map_label (label_of labels lid) ≡ some k
      → Within s e k (bio_from ((s, e) ∷ os) (lid ∷ lids) labels prev)
  unfolding bio_from
  token_covered lids os s e p q lid prev k l qs o h m =
      let (u, eu, uk, ue, us) = token_tagged labels s e lid prev k l m in
      let (x, mx, xs, xk, xe) = bio_from-Keeps lids os u e (omega arith) h in
      rw eu (x, Elem-append_right x _ _ mx, xk ∙ uk, starts u x us xs, omega arith)
    where
      starts :
          (u x : Span)
          → ((u.start ≡ s) ⊎ ((w : Span) × (prev ≡ some w) × (u.start ≡ w.start)))
          → x.start ≡ u.start
          → x.start ≤ s
      starts u x (inl e') xs = omega arith
      starts u x (inr (w, ew, sw)) xs = let (a, b, c) = subst (OpenIn p q) ew o in omega arith
