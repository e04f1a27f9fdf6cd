-- ===== src/Sanitize/Merge/Order.antt =====
-- What `merge_and_dedup` returns: disjoint spans of the input in order, and for each span of the input
-- one that is kept and covers its start.
use mcp_data_gateway.Prelude.{
  ℕ, ◌≤◌, ◌<◌, ◌≡◌, refl, ◌⊎◌, inl, inr, List, [], ◌∷◌, arith, Bool-cases, ltb, ltb→lt, Elem,
  All-elem,
}
use mcp_data_gateway.Sanitize.{Span, len}
use mcp_data_gateway.Sanitize.Merge.{sort, dedup, merge_and_dedup}
use mcp_data_gateway.Sanitize.Merge.Sorted.{
  Before, IsSorted, sort-IsSorted, Elem-sort, Elem-sort_of, Elem-cons_map,
}

-- In order, none starting before the one in front of it ends, and none before `cursor`.
abbrev pub Disjoint : ℕ → List Span → Type 0
Disjoint cursor [] = Unit
Disjoint cursor (s ∷ ss) = (cursor ≤ s.start) × Disjoint s.end ss

-- The loop.
dedup-Disjoint : (ss : List Span) (cursor : ℕ) → Disjoint cursor (dedup ss cursor)
unfolding dedup
dedup-Disjoint [] cursor = tt
dedup-Disjoint (s ∷ ss) cursor = elim (Bool-cases (ltb s.start cursor)) [
  | inl b ↦ rw b (dedup-Disjoint ss cursor)
  | inr b ↦ rw b (ground arith, dedup-Disjoint ss s.end)
]

Elem-dedup : (x : Span) (ss : List Span) (cursor : ℕ) → Elem x (dedup ss cursor) → Elem x ss
unfolding dedup
Elem-dedup x [] cursor h = h
Elem-dedup x (s ∷ ss) cursor h = elim (Bool-cases (ltb s.start cursor)) [
  | inl b ↦ inr (Elem-dedup x ss cursor (rw b at h))
  | inr b ↦ Elem-cons_map x s (dedup ss s.end) ss (Elem-dedup x ss s.end) (rw b at h)
]

-- Some span of `out` covers the start of `x`, begins no later, and on a tie is no shorter.
abbrev pub Covers : List Span → Span → Type 0
Covers out x =
    (k : Span) × Elem k out
    × (k.start ≤ x.start)
    × (x.start < k.end)
    × (k.start ≡ x.start → len x ≤ len k)

abbrev Outcome : List Span → ℕ → Span → Type 0
Outcome out cursor x = Elem x out ⊎ (x.start < cursor) ⊎ Covers out x

dedup_kept :
    (s x : Span) (out : List Span) (cursor : ℕ)
    → Before s x
    → Outcome out s.end x
    → Outcome (s ∷ out) cursor x
dedup_kept s x out cursor b (inl e) = inl (inr e)
dedup_kept s x out cursor b (inr (inl l)) = inr (inr (s, inl refl, b.0, l, b.1))
dedup_kept s x out cursor b (inr (inr (k, e, l, u, t))) = inr (inr (k, inr e, l, u, t))

dedup-Outcome :
    (ss : List Span) (cursor : ℕ) (x : Span)
    → IsSorted ss
    → Elem x ss
    → Outcome (dedup ss cursor) cursor x
unfolding dedup
dedup-Outcome [] cursor x h e = elim e [ ]
dedup-Outcome (s ∷ ss) cursor x h (inl e) = elim (Bool-cases (ltb s.start cursor)) [
  | inl b ↦ inr (inl (rw e (ltb→lt _ _ b)))
  | inr b ↦ rw b (inl (inl e))
]
dedup-Outcome (s ∷ ss) cursor x h (inr e) = elim (Bool-cases (ltb s.start cursor)) [
  | inl b ↦ rw b (dedup-Outcome ss cursor x h.1 e)
  | inr b ↦ rw b (
      dedup_kept s x (dedup ss s.end) cursor (All-elem (Before s) x ss h.0 e)
        (dedup-Outcome ss s.end x h.1 e))
]

merge_lem : (spans : List Span) → merge_and_dedup spans ≡ dedup (sort spans) 0
unfolding merge_and_dedup
merge_lem [] = refl
merge_lem (s ∷ ss) = refl

-- The spans returned are in order, and none starts before the one in front of it ends.
pub merge_and_dedup-Disjoint : (spans : List Span) → Disjoint 0 (merge_and_dedup spans)
merge_and_dedup-Disjoint spans = rw (merge_lem spans) (dedup-Disjoint (sort spans) 0)

-- Each span returned is one of those given.
pub Elem-merge_and_dedup :
    (spans : List Span) (x : Span) → Elem x (merge_and_dedup spans) → Elem x spans
Elem-merge_and_dedup spans x h =
    Elem-sort x spans (Elem-dedup x (sort spans) 0 (rw (merge_lem spans) at h))

at_zero : (out : List Span) (x : Span) → Outcome out 0 x → Elem x out ⊎ Covers out x
at_zero out x (inl e) = inl e
at_zero out x (inr (inl l)) = absurd (omega arith)
at_zero out x (inr (inr c)) = inr c

-- Each span given is returned, or its first byte lies in a span returned that starts no later
-- and, where the two start together, is at least as long.
pub merge_and_dedup-Covers :
    (spans : List Span) (x : Span)
    → Elem x spans
    → Elem x (merge_and_dedup spans) ⊎ Covers (merge_and_dedup spans) x
merge_and_dedup-Covers spans x e = rw (merge_lem spans) (
    at_zero (dedup (sort spans) 0) x
      (dedup-Outcome (sort spans) 0 x (sort-IsSorted spans) (Elem-sort_of x spans e)))

-- No span given begins inside another and ends behind it.
abbrev pub IsNested : List Span → Type 0
IsNested spans =
    (a b : Span) → Elem a spans → Elem b spans → a.start ≤ b.start → b.start < a.end → b.end ≤ a.end

covered_by :
    (spans : List Span) (x : Span) (p : ℕ)
    → IsNested spans
    → Elem x spans
    → x.start ≤ p
    → p < x.end
    → Elem x (merge_and_dedup spans) ⊎ Covers (merge_and_dedup spans) x
    → (k : Span) × Elem k (merge_and_dedup spans) × (k.start ≤ p) × (p < k.end)
covered_by spans x p n e l u (inl kept) = (x, kept, l, u)
covered_by spans x p n e l u (inr (k, ek, b, c, _)) =
    let inside = n k x (Elem-merge_and_dedup spans k ek) e b c in (k, ek, omega arith, omega arith)

-- Where the spans given are nested or apart, each byte of a span given lies in a span returned.
pub merge_and_dedup_covers_bytes :
    (spans : List Span) (x : Span) (p : ℕ)
    → IsNested spans
    → Elem x spans
    → x.start ≤ p
    → p < x.end
    → (k : Span) × Elem k (merge_and_dedup spans) × (k.start ≤ p) × (p < k.end)
merge_and_dedup_covers_bytes spans x p n e l u =
    covered_by spans x p n e l u (merge_and_dedup-Covers spans x e)
