-- ===== src/Sanitize/Merge/Sorted.antt =====
-- The sort of `merge_and_dedup` sorts, and keeps the spans.
use mcp_data_gateway.Prelude.{
  ◌≤◌, ◌≡◌, true, false, inl, inr, List, [], ◌∷◌, arith, Bool-cases, Elem, All,
}
use mcp_data_gateway.Sanitize.{Span, len}
use mcp_data_gateway.Sanitize.Merge.{before, insert, sort}

-- What the sort establishes: `s` before all that follow it.
abbrev pub Before : Span → Span → Type 0
Before s t = (s.start ≤ t.start) × (s.start ≡ t.start → len t ≤ len s)

abbrev pub IsSorted : List Span → Type 0
IsSorted [] = Unit
IsSorted (s ∷ ss) = All (Before s) ss × IsSorted ss

Before-trans : (a b c : Span) → Before a b → Before b c → Before a c
Before-trans a b c p q = (omega arith, λ e. omega (arith, p.1 (omega arith), q.1 (omega arith)))

Before-weaken : (a b : Span) (ss : List Span) → Before a b → All (Before b) ss → All (Before a) ss
Before-weaken a b [] p h = tt
Before-weaken a b (s ∷ ss) p h = (Before-trans a b s p h.0, Before-weaken a b ss p h.1)

before-true : (a b : Span) → before a b ≡ true → Before a b
unfolding before
before-true a b h = (ground arith, λ e. ground arith)

before-false : (a b : Span) → before a b ≡ false → Before b a
unfolding before
before-false a b h = (ground arith, λ e. ground arith)

All-insert : (P : Span → Type 0) (s : Span) (ts : List Span) → P s → All P ts → All P (insert s ts)
unfolding insert
All-insert P s [] p h = (p, tt)
All-insert P s (t ∷ ts) p h = elim (Bool-cases (before s t)) [
  | inl b ↦ rw b (p, h)
  | inr b ↦ rw b (h.0, All-insert P s ts p h.1)
]

insert-IsSorted : (s : Span) (ts : List Span) → IsSorted ts → IsSorted (insert s ts)
unfolding insert
insert-IsSorted s [] h = (tt, tt)
insert-IsSorted s (t ∷ ts) h = elim (Bool-cases (before s t)) [
  | inl b ↦ let p = before-true s t b in rw b ((p, Before-weaken s t ts p h.0), h)
  | inr b ↦ rw b (All-insert (Before t) s ts (before-false s t b) h.0, insert-IsSorted s ts h.1)
]

pub sort-IsSorted : (ss : List Span) → IsSorted (sort ss)
unfolding sort
sort-IsSorted [] = tt
sort-IsSorted (s ∷ ss) = insert-IsSorted s (sort ss) (sort-IsSorted ss)

Elem-insert_later :
    (x s t : Span) (ts : List Span)
    → (Elem x (insert s ts) → Elem x (s ∷ ts))
    → Elem x (t ∷ insert s ts)
    → Elem x (s ∷ t ∷ ts)
Elem-insert_later x s t ts ih (inl e) = inr (inl e)
Elem-insert_later x s t ts ih (inr h) = elim (ih h) [ inl e ↦ inl e | inr h' ↦ inr (inr h') ]

Elem-swap :
    (x s t : Span) (ts : List Span)
    → (Elem x (s ∷ ts) → Elem x (insert s ts))
    → Elem x (s ∷ t ∷ ts)
    → Elem x (t ∷ insert s ts)
Elem-swap x s t ts ih (inl e) = inr (ih (inl e))
Elem-swap x s t ts ih (inr (inl e)) = inl e
Elem-swap x s t ts ih (inr (inr h)) = inr (ih (inr h))

pub Elem-cons_map :
    (x s : Span) (xs ys : List Span) → (Elem x xs → Elem x ys) → Elem x (s ∷ xs) → Elem x (s ∷ ys)
Elem-cons_map x s xs ys f (inl e) = inl e
Elem-cons_map x s xs ys f (inr h) = inr (f h)

Elem-insert : (x s : Span) (ts : List Span) → Elem x (insert s ts) → Elem x (s ∷ ts)
unfolding insert
Elem-insert x s [] h = h
Elem-insert x s (t ∷ ts) h = elim (Bool-cases (before s t)) [
  | inl b ↦ rw b at h
  | inr b ↦ Elem-insert_later x s t ts (Elem-insert x s ts) (rw b at h)
]

Elem-insert_of : (x s : Span) (ts : List Span) → Elem x (s ∷ ts) → Elem x (insert s ts)
unfolding insert
Elem-insert_of x s [] h = h
Elem-insert_of x s (t ∷ ts) h = elim (Bool-cases (before s t)) [
  | inl b ↦ rw b h
  | inr b ↦ rw b (Elem-swap x s t ts (Elem-insert_of x s ts) h)
]

pub Elem-sort : (x : Span) (ss : List Span) → Elem x (sort ss) → Elem x ss
unfolding sort
Elem-sort x [] h = h
Elem-sort x (s ∷ ss) h =
    Elem-cons_map x s (sort ss) ss (Elem-sort x ss) (Elem-insert x s (sort ss) h)

pub Elem-sort_of : (x : Span) (ss : List Span) → Elem x ss → Elem x (sort ss)
unfolding sort
Elem-sort_of x [] h = h
Elem-sort_of x (s ∷ ss) h =
    Elem-insert_of x s (sort ss) (Elem-cons_map x s ss (sort ss) (Elem-sort_of x ss) h)
