-- ===== src/Prelude/Decimal.antt =====
-- Numbers in decimal, as SQL casts them to TEXT and `format!` prints them.
use mcp_data_gateway.Prelude.{
  ℕ, zero, suc, ◌+◌, ◌-◌, ◌/◌, ◌%◌, [], ◌∷◌, ◌++◌, if◌then◌else◌, ltb, length, ◌<◌, ◌≡◌, ◌*◌, Bool,
  true, arith, refl, ap, ◌∙◌, Bool-cases, inl, inr,
}
use mcp_data_gateway.Prelude.Bytes.{Bytes, all, is_ascii_digit, digits_value}
use mcp_data_gateway.Prelude.Text.{Text}

-- The fuel is enough: a number has fewer digits than its value and one more.
unfoldable pub decimal_digits : ℕ → ℕ → Text
decimal_digits zero n = []
decimal_digits (suc fuel) n =
    let longer = decimal_digits fuel (n / 10) ++ (48 + n % 10) ∷ [] in
    if ltb n 10 then (48 + n) ∷ [] else longer

abbrev pub decimal : ℕ → Text
decimal n = decimal_digits (suc n) n

-- `{:0w$}`: zeros in front, up to a width
zeros : ℕ → Text
zeros zero = []
zeros (suc n) = b'0' ∷ zeros n

unfoldable pub padded : ℕ → ℕ → Text
unfolding zeros
padded width n = zeros (width - length (decimal n)) ++ decimal n

digits_value-append :
    (acc : ℕ) (s t : Bytes) → digits_value acc (s ++ t) ≡ digits_value (digits_value acc s) t
unfolding digits_value
digits_value-append acc [] t = refl
digits_value-append acc (b ∷ s) t = digits_value-append (acc * 10 + (b - 48)) s t

pub digits_value-decimal : (fuel n : ℕ) → n < fuel → digits_value 0 (decimal_digits fuel n) ≡ n
unfolding decimal_digits digits_value
digits_value-decimal zero n l = absurd (omega arith)
digits_value-decimal (suc fuel) n l = elim (Bool-cases (ltb n 10)) [
  | inl b ↦ rw b (omega arith)
  | inr b ↦
      rw
        (
          b,
          digits_value-append 0 (decimal_digits fuel (n / 10)) ((48 + n % 10) ∷ []),
          digits_value-decimal fuel (n / 10) (ground arith),
        )
        (omega arith)
]

all-append : (p : ℕ → Bool) (s t : Bytes) → all p s ≡ true → all p t ≡ true → all p (s ++ t) ≡ true
all-append p [] t h g = g
all-append p (b ∷ s) t h g = elim (Bool-cases (p b)) [
  | inl e ↦ rw e (all-append p s t (rw e at h) g)
  | inr f ↦ cc (rw f at h)
]

digit : (n : ℕ) → n < 10 → is_ascii_digit (48 + n) ≡ true
digit n h = ground arith

all_digits-decimal : (fuel n : ℕ) → all is_ascii_digit (decimal_digits fuel n) ≡ true
unfolding decimal_digits
all_digits-decimal zero n = refl
all_digits-decimal (suc fuel) n = elim (Bool-cases (ltb n 10)) [
  | inl b ↦ rw (b, digit n (ground arith)) refl
  | inr b ↦ rw b (
      all-append is_ascii_digit (decimal_digits fuel (n / 10)) ((48 + n % 10) ∷ [])
        (all_digits-decimal fuel (n / 10)) (rw (digit (n % 10) (omega arith)) refl))
]

all_digits-zeros : (n : ℕ) → all is_ascii_digit (zeros n) ≡ true
unfolding zeros
all_digits-zeros zero = refl
all_digits-zeros (suc n) = all_digits-zeros n

digits_value-zeros : (n : ℕ) → digits_value 0 (zeros n) ≡ 0
unfolding zeros digits_value
digits_value-zeros zero = refl
digits_value-zeros (suc n) = digits_value-zeros n

pub all_digits-padded : (width n : ℕ) → all is_ascii_digit (padded width n) ≡ true
unfolding padded
all_digits-padded width n =
    all-append is_ascii_digit (zeros (width - length (decimal n))) (decimal n)
      (all_digits-zeros (width - length (decimal n))) (all_digits-decimal (suc n) n)

pub digits_value-padded : (width n : ℕ) → digits_value 0 (padded width n) ≡ n
unfolding padded
digits_value-padded width n =
    digits_value-append 0 (zeros (width - length (decimal n))) (decimal n)
    ∙ ap (λ acc. digits_value acc (decimal n)) (digits_value-zeros (width - length (decimal n)))
    ∙ digits_value-decimal (suc n) n (omega arith)
