-- ===== src/Connector/Zoho/Bfs/Count.antt =====
-- Lists of folder identifiers without repetition, counted against a list that holds them all.
use mcp_data_gateway.Prelude.{
  suc, ◌≤◌, ◌≡◌, refl, sym, ap, subst, ◌∙◌, ◌⊎◌, String, inl, inr, List, [], ◌∷◌, arith, length,
  Elem,
}
use mcp_data_gateway.Connector.Zoho.Bfs.Visits.{Distinct}

-- the list without the entry that is pointed at
without : (x : String) (ys : List String) → Elem x ys → List String
without x [] h = elim h [ ]
without x (y ∷ ys) (inl e) = ys
without x (y ∷ ys) (inr h) = y ∷ without x ys h

length-without :
    (x : String) (ys : List String) (h : Elem x ys) → length ys ≡ suc (length (without x ys h))
unfolding without
length-without x [] h = elim h [ ]
length-without x (y ∷ ys) (inl e) = omega arith
length-without x (y ∷ ys) (inr h) = ap suc (length-without x ys h)

Elem-without :
    (x z : String) (ys : List String) (h : Elem x ys)
    → Elem z ys
    → (z ≡ x) ⊎ Elem z (without x ys h)
unfolding without
Elem-without x z [] h g = elim h [ ]
Elem-without x z (y ∷ ys) (inl e) (inl g) = inl (g ∙ sym e)
Elem-without x z (y ∷ ys) (inl e) (inr g) = inr g
Elem-without x z (y ∷ ys) (inr h) (inl g) = inr (inl g)
Elem-without x z (y ∷ ys) (inr h) (inr g) = elim (Elem-without x z ys h g) [
  | inl e ↦ inl e
  | inr r ↦ inr (inr r)
]

-- Distinct texts that all stand in a list are no more than its entries.
pub Distinct-length :
    (xs ys : List String)
    → Distinct xs
    → ((x : String) → Elem x xs → Elem x ys)
    → length xs ≤ length ys
Distinct-length [] ys d h = omega arith
Distinct-length (x ∷ xs) ys (n, d) h =
    let at = h x (inl refl) in
    let left : (z : String) → Elem z xs → Elem z (without x ys at) = λ z g.
      elim (Elem-without x z ys at (h z (inr g))) [ inl e ↦ absurd (n (moved e g)) | inr r ↦ r ] in
    omega (arith, length-without x ys at, Distinct-length xs (without x ys at) d left)
  where
    moved : {z : String} → z ≡ x → Elem z xs → Elem x xs
    moved e g = subst (λ u. Elem u xs) e g
