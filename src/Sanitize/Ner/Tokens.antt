-- ===== src/Sanitize/Ner/Tokens.antt =====
-- `bio_merge` on the offsets of a tokenizer: its spans are in order and apart, and each token with a
-- kind lies in a span of that kind.
pub use mcp_data_gateway.Sanitize.Ner.Cover.{IsOrdered, Within}
use mcp_data_gateway.Prelude.{
  ℕ, zero, suc, ◌≤◌, ◌<◌, ◌≡◌, subst, ap, String, inl, inr, List, [], ◌∷◌, ◌++◌, Option, none, some,
  some-injective, arith, get_elem?, Elem-append_right,
}
use mcp_data_gateway.Sanitize.{EntityKind, Span}
use mcp_data_gateway.Sanitize.Merge.Order.{Disjoint}
use mcp_data_gateway.Sanitize.Ner.{map_label, label_of, token_step, bio_from, bio_merge}
use mcp_data_gateway.Sanitize.Ner.Steps.{token_cases}
use mcp_data_gateway.Sanitize.Ner.Cover.{OpenIn, special_step, bio_from-Disjoint, token_covered}

-- The span that is open behind a token lies between bounds, and the other tokens behind them.
abbrev Continues : List (ℕ × ℕ) → Option Span → Type 0
Continues os next = (p : ℕ) × (q : ℕ) × (p ≤ q) × OpenIn p q next × IsOrdered q os

token-Continues :
    (labels : List String) (s e lid p q : ℕ) (os : List (ℕ × ℕ)) (prev : Option Span)
    → p ≤ q
    → OpenIn p q prev
    → IsOrdered q ((s, e) ∷ os)
    → Continues os (token_step labels (s, e) lid prev).1
token-Continues labels s e lid p q os prev l o (inl (sp, h)) =
    rw (special_step labels s e lid prev sp) (q, q, omega arith, tt, h)
token-Continues labels s e lid p q os prev l o (inr (a, b, h)) =
    elim (token_cases labels s e lid prev) [
      | inl r ↦ rw r (e, e, omega arith, tt, h)
      | inr (inl (k, r)) ↦ rw r (q, e, omega arith, (a, omega arith, omega arith), h)
      | inr (inr (u, eu, r)) ↦
          let (o₁, o₂, o₃) = subst (OpenIn p q) eu o in
          rw r (p, e, omega arith, (o₁, omega arith, omega arith), h)
    ]

module _ (labels : List String) where
  Within-later :
      (s e : ℕ) (k : EntityKind) (closed rest : List Span)
      → Within s e k rest
      → Within s e k (closed ++ rest)
  Within-later s e k closed rest (x, m, kx, a, b) = (x, Elem-append_right x closed rest m, kx, a, b)

  bio_from-Within :
      (i : ℕ) (lids : List ℕ) (offsets : List (ℕ × ℕ)) (prev : Option Span) (p q s e lid : ℕ)
      (k : EntityKind)
      → p ≤ q
      → OpenIn p q prev
      → IsOrdered q offsets
      → s < e
      → get_elem? offsets i ≡ some (s, e)
      → get_elem? lids i ≡ some lid
      → map_label (label_of labels lid) ≡ some k
      → Within s e k (bio_from offsets lids labels prev)
  unfolding bio_from
  bio_from-Within i [] offsets prev p q s e lid k l o h lt eo el m = cc
  bio_from-Within i (d ∷ lids) [] prev p q s e lid k l o h lt eo el m = cc
  bio_from-Within zero (d ∷ lids) ((s', e') ∷ os) prev p q s e lid k l o (inl (sp, h)) lt eo el m =
      absurd (
        omega (
          arith,
          ap (λ (t : ℕ × ℕ). t.0) (some-injective _ _ eo),
          ap (λ (t : ℕ × ℕ). t.1) (some-injective _ _ eo),
        ))
  bio_from-Within zero (d ∷ lids) ((s', e') ∷ os) prev p q s e lid k l o (inr (a, b, h)) lt eo el
        m =
      let es : s' ≡ s = ap (λ (t : ℕ × ℕ). t.0) (some-injective _ _ eo) in
      let ee : e' ≡ e = ap (λ (t : ℕ × ℕ). t.1) (some-injective _ _ eo) in
      let ed : d ≡ lid = some-injective _ _ el in
      subst (λ t. Within t e k (bio_from ((s', e') ∷ os) (d ∷ lids) labels prev)) es
        (subst (λ t. Within s' t k (bio_from ((s', e') ∷ os) (d ∷ lids) labels prev)) ee
          (token_covered labels lids os s' e' p q d prev k b a o h (rw ed m)))
  bio_from-Within (suc i) (d ∷ lids) ((s', e') ∷ os) prev p q s e lid k l o h lt eo el m =
      let (p', q', l', o', h') = token-Continues labels s' e' d p q os prev l o h in
      Within-later s e k (token_step labels (s', e') d prev).0 _ (
        bio_from-Within i lids os (token_step labels (s', e') d prev).1 p' q' s e lid k l' o' h' lt
          eo el m)

  -- On ordered offsets the spans are in order, none starting before the one in front of it ends.
  pub bio_merge-Disjoint :
      (offsets : List (ℕ × ℕ)) (label_ids : List ℕ)
      → IsOrdered 0 offsets
      → Disjoint 0 (bio_merge offsets label_ids labels)
  unfolding bio_merge
  bio_merge-Disjoint offsets label_ids h =
      bio_from-Disjoint labels label_ids offsets none 0 0 (omega arith) h tt

  -- On ordered offsets each token whose label has a kind, that is each that the model takes for a
  -- person, an organisation or a location, lies in a span of that kind.
  pub bio_merge_covers :
      (offsets : List (ℕ × ℕ)) (label_ids : List ℕ) (i s e lid : ℕ) (k : EntityKind)
      → IsOrdered 0 offsets
      → get_elem? offsets i ≡ some (s, e)
      → s < e
      → get_elem? label_ids i ≡ some lid
      → map_label (label_of labels lid) ≡ some k
      → Within s e k (bio_merge offsets label_ids labels)
  unfolding bio_merge
  bio_merge_covers offsets label_ids i s e lid k h eo lt el m =
      bio_from-Within i label_ids offsets none 0 0 s e lid k (omega arith) tt h lt eo el m
