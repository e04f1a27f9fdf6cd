-- ===== src/KeyRotation/Table.antt =====
-- The table in the order of its ids, and an update of one row.
use mcp_data_gateway.Prelude.{
  ℕ, suc, ◌+◌, ◌≤◌, ◌<◌, ◌≡◌, refl, ap, sym, subst, List, [], ◌∷◌, ◌++◌, arith, ==-of_eq, ==-of_ne,
}
use mcp_data_gateway.KeyRotation.{Chunk, Counts, update_where}

-- The rows stand in the order of their ids, which are distinct, from `lo` on.
abbrev pub IsOrdered : ℕ → List Chunk → Type 0
IsOrdered lo [] = Unit
IsOrdered lo (c ∷ cs) = (lo ≤ c.id) × IsOrdered (suc c.id) cs

IsOrdered-bound :
    (lo : ℕ) (xs : List Chunk) (c : Chunk) (ys : List Chunk)
    → IsOrdered lo (xs ++ c ∷ ys)
    → lo ≤ c.id
IsOrdered-bound lo [] c ys h = h.0
IsOrdered-bound lo (x ∷ xs) c ys (l, h) = omega (arith, IsOrdered-bound (suc x.id) xs c ys h)

pub IsOrdered-replace :
    (lo : ℕ) (xs : List Chunk) (c d : Chunk) (ys : List Chunk)
    → d.id ≡ c.id
    → IsOrdered lo (xs ++ c ∷ ys)
    → IsOrdered lo (xs ++ d ∷ ys)
IsOrdered-replace lo [] c d ys e (l, h) = (omega arith, subst (λ i. IsOrdered (suc i) ys) (sym e) h)
IsOrdered-replace lo (x ∷ xs) c d ys e (l, h) = (l, IsOrdered-replace (suc x.id) xs c d ys e h)

update_none :
    (f : Chunk → Chunk) (id lo : ℕ) (ys : List Chunk)
    → id < lo
    → IsOrdered lo ys
    → update_where f id ys ≡ ys
unfolding update_where
update_none f id lo [] l h = refl
update_none f id lo (y ∷ ys) l (m, h) =
    rw (==-of_ne y.id id (λ e. absurd (omega arith)))
      (ap (◌∷◌ y) (update_none f id (suc y.id) ys (omega arith) h))

-- UPDATE … WHERE id writes the one row with this id.
pub update_one :
    (f : Chunk → Chunk) (lo : ℕ) (xs : List Chunk) (c : Chunk) (ys : List Chunk)
    → IsOrdered lo (xs ++ c ∷ ys)
    → update_where f c.id (xs ++ c ∷ ys) ≡ xs ++ f c ∷ ys
unfolding update_where
update_one f lo [] c ys (l, h) =
    rw (==-of_eq c.id c.id refl) (ap (◌∷◌ (f c)) (update_none f c.id (suc c.id) ys (omega arith) h))
update_one f lo (x ∷ xs) c ys (l, h) =
    let b = IsOrdered-bound (suc x.id) xs c ys h in
    rw (==-of_ne x.id c.id (λ e. absurd (omega (arith, b))))
      (ap (◌∷◌ x) (update_one f (suc x.id) xs c ys h))

abbrev pub Pairs : (Chunk → Chunk → Type 0) → List Chunk → List Chunk → Type 0
Pairs R [] [] = Unit
Pairs R (x ∷ xs) (y ∷ ys) = R x y × Pairs R xs ys
Pairs R _ _ = ⊥

abbrev pub total : Counts → ℕ
total n = n.rotated + n.skipped
