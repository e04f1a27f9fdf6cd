-- ===== src/KeyRotation/Pairs.antt =====
-- Rows beside the rows that they become.
use mcp_data_gateway.Prelude.{◌≡◌, refl, List, [], ◌∷◌, ◌++◌, arith, length, drop}
use mcp_data_gateway.KeyRotation.Table.{Pairs}
use mcp_data_gateway.KeyRotation.{Chunk}

pub drop-length : (xs ys : List Chunk) → drop (length xs) (xs ++ ys) ≡ ys
drop-length [] ys = refl
drop-length (x ∷ xs) ys = drop-length xs ys

pub Pairs-append :
    (R : Chunk → Chunk → Type 0) (us vs cs ds : List Chunk)
    → Pairs R us vs
    → Pairs R cs ds
    → Pairs R (us ++ cs) (vs ++ ds)
Pairs-append R [] [] cs ds p q = q
Pairs-append R [] (b ∷ vs) cs ds p q = elim p [ ]
Pairs-append R (a ∷ us) [] cs ds p q = elim p [ ]
Pairs-append R (a ∷ us) (b ∷ vs) cs ds p q = (p.0, Pairs-append R us vs cs ds p.1 q)

pub Pairs-length :
    (R : Chunk → Chunk → Type 0) (us vs : List Chunk) → Pairs R us vs → length us ≡ length vs
Pairs-length R [] [] p = refl
Pairs-length R [] (b ∷ vs) p = elim p [ ]
Pairs-length R (a ∷ us) [] p = elim p [ ]
Pairs-length R (a ∷ us) (b ∷ vs) p = omega (arith, Pairs-length R us vs p.1)

pub Pairs-map :
    (R S : Chunk → Chunk → Type 0) (us vs : List Chunk)
    → ((a b : Chunk) → R a b → S a b)
    → Pairs R us vs
    → Pairs S us vs
Pairs-map R S [] [] f p = tt
Pairs-map R S [] (b ∷ vs) f p = elim p [ ]
Pairs-map R S (a ∷ us) [] f p = elim p [ ]
Pairs-map R S (a ∷ us) (b ∷ vs) f p = (f a b p.0, Pairs-map R S us vs f p.1)

pub Pairs-same :
    (R : Chunk → Chunk → Type 0) (us : List Chunk) → ((a : Chunk) → R a a) → Pairs R us us
Pairs-same R [] f = tt
Pairs-same R (a ∷ us) f = (f a, Pairs-same R us f)
