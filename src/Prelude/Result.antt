-- ===== src/Prelude/Result.antt =====
-- `Result<T, E>`: a fallible call returns a value or an error.
use mathlib.Core.Path.{◌≡◌, refl}
use mathlib.Core.Logic.{◌⊎◌, inl, inr}

pub data Result {ℓ} (Error Value : Type ℓ) : Type ℓ where
  err : Error → Result Error Value
  ok : Value → Result Error Value

-- The `?` operator.
infixl 5 ◌>>=◌
abbrev pub ◌>>=◌ {ℓ} : {Error V W : Type ℓ} → Result Error V → (V → Result Error W) → Result Error W
err problem >>= rest = err problem
ok value >>= rest = rest value

-- A chain that returns a value has one behind each of its calls.
pub both_ok {ℓ} :
    {Error V W : Type ℓ} (first : Result Error V) (rest : V → Result Error W) {w : W}
    → (first >>= rest) ≡ ok w
    → (v : V) × (first ≡ ok v) × (rest v ≡ ok w)
both_ok (err problem) rest e = cc
both_ok (ok value) rest e = (value, refl, e)

-- Two values of one result.
pub ok_same {ℓ} : {E A : Type ℓ} {r : Result E A} (a b : A) → r ≡ ok a → r ≡ ok b → a ≡ b
ok_same a b p q = cc

pub Result-cases {ℓ} :
    {E A : Type ℓ} (r : Result E A) → ((a : A) × (r ≡ ok a)) ⊎ ((e : E) × (r ≡ err e))
Result-cases (ok a) = inl (a, refl)
Result-cases (err e) = inr (e, refl)
