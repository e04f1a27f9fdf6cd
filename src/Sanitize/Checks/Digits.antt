-- ===== src/Sanitize/Checks/Digits.antt =====
-- Digits modulo 97, and texts that compacting leaves alone.
use mcp_data_gateway.Prelude.{
  ℕ, zero, suc, ◌+◌, ◌-◌, ◌*◌, ◌%◌, ◌^◌, ◌≤◌, ◌<◌, ◌≡◌, refl, ap, sym, ◌∙◌, Bool, true, false, ◌&&◌,
  ◌||◌, [], ◌∷◌, ◌++◌, some, arith, ◌≢◌, lt→ltb, Bool-cases, inl, inr, subst, length, take, drop,
  take-append-drop,
}
use mcp_data_gateway.Prelude.Text.{is_whitespace}
use mcp_data_gateway.Prelude.Bytes.{
  Bytes, utf8, AllAscii, utf8-ascii, chars-ascii, all, is_ascii_digit, is_ascii_uppercase,
  digits_value, parse_u64,
}
use mcp_data_gateway.Sanitize.Checks.{strip, compact, remainder_from}

abbrev pub is_iban_char : ℕ → Bool
is_iban_char b = is_ascii_uppercase b || is_ascii_digit b

iban_char_facts : (b : ℕ) → is_iban_char b ≡ true → (b < 128) × (is_whitespace b ≡ false)
unfolding is_whitespace
iban_char_facts b h = (ground arith, ground arith)

pub all-AllAscii : (s : Bytes) → all is_iban_char s ≡ true → AllAscii s
all-AllAscii [] h = tt
all-AllAscii (b ∷ s) h = ground (arith, iban_char_facts b, all-AllAscii s)

strip-clean : (s : Bytes) → all is_iban_char s ≡ true → strip s ≡ s
unfolding strip
strip-clean [] h = refl
strip-clean (b ∷ s) h = ground (arith, iban_char_facts b, strip-clean s)

-- A text of letters and digits is compact already.
pub compact-clean : (s : Bytes) → all is_iban_char s ≡ true → compact s ≡ s
compact-clean s h =
    let a = all-AllAscii s h in
    ap (λ t. utf8 (strip t)) (chars-ascii s a) ∙ ap utf8 (strip-clean s h) ∙ utf8-ascii s a

pub all_digits_iban : (s : Bytes) → all is_ascii_digit s ≡ true → all is_iban_char s ≡ true
all_digits_iban [] h = refl
all_digits_iban (b ∷ s) h = ground (arith, all_digits_iban s)

pub all-append : (p : ℕ → Bool) (s t : Bytes) → all p (s ++ t) ≡ all p s && all p t
all-append p [] t = refl
all-append p (b ∷ s) t = ground (arith, all-append p s t)

pub digits_value-append :
    (acc : ℕ) (s t : Bytes) → digits_value acc (s ++ t) ≡ digits_value (digits_value acc s) t
unfolding digits_value
digits_value-append acc [] t = refl
digits_value-append acc (b ∷ s) t = digits_value-append (acc * 10 + (b - 48)) s t

strip-AllAscii : (s : Bytes) → AllAscii s → AllAscii (strip s)
unfolding strip
strip-AllAscii [] h = tt
strip-AllAscii (b ∷ s) h = elim (Bool-cases (is_whitespace b)) [
  | inl w ↦ rw w (strip-AllAscii s h.1)
  | inr w ↦ rw w (h.0, strip-AllAscii s h.1)
]

pub compact-AllAscii : (s : Bytes) → AllAscii s → AllAscii (compact s)
compact-AllAscii s h =
    let k = strip-AllAscii s h in
    subst AllAscii (sym (utf8-ascii (strip s) k) ∙ ap (λ t. utf8 (strip t)) (sym (chars-ascii s h)))
      k

-- 10 has an inverse modulo 97.
pub digits_value_mod_injective :
    (a b : ℕ) (s : Bytes) → digits_value a s % 97 ≡ digits_value b s % 97 → a % 97 ≡ b % 97
unfolding digits_value
digits_value_mod_injective a b [] h = h
digits_value_mod_injective a b (d ∷ s) h =
    omega (arith, digits_value_mod_injective (a * 10 + (d - 48)) (b * 10 + (d - 48)) s h)

-- The value depends on each digit, modulo 97.
pub digits_value_detects :
    (acc x y : ℕ) (pre post : Bytes)
    → is_ascii_digit x ≡ true
    → is_ascii_digit y ≡ true
    → digits_value acc (pre ++ x ∷ post) % 97 ≡ digits_value acc (pre ++ y ∷ post) % 97
    → x ≡ y
unfolding digits_value
digits_value_detects acc x y pre post dx dy h =
    let v = digits_value acc pre in
    let same : (v * 10 + (x - 48)) % 97 ≡ (v * 10 + (y - 48)) % 97 =
      digits_value_mod_injective _ _ post (
        sym (ap (λ n. n % 97) (digits_value-append acc pre (x ∷ post)))
        ∙ h
        ∙ ap (λ n. n % 97) (digits_value-append acc pre (y ∷ post))) in
    ground arith

-- The remainder that is taken digit by digit is that of the whole number.
pub remainder_from-digits_value :
    (acc : ℕ) (s : Bytes) → remainder_from (acc % 97) s ≡ digits_value acc s % 97
unfolding remainder_from digits_value
remainder_from-digits_value acc [] = refl
remainder_from-digits_value acc (d ∷ s) =
    let e : (acc % 97 * 10 + (d - 48)) % 97 ≡ (acc * 10 + (d - 48)) % 97 = omega arith in
    rw e (remainder_from-digits_value (acc * 10 + (d - 48)) s)

-- `k` times the power of ten with as many zeros as the text has digits
shift : ℕ → Bytes → ℕ
shift k [] = k
shift k (_ ∷ s) = shift (k * 10) s

shift_count : ℕ → ℕ → ℕ
shift_count k zero = k
shift_count k (suc n) = shift_count (k * 10) n

shift-length : (k n : ℕ) (s : Bytes) → length s ≡ n → shift k s ≡ shift_count k n
unfolding shift shift_count
shift-length k zero [] h = refl
shift-length k zero (_ ∷ s) h = absurd (omega arith)
shift-length k (suc n) [] h = absurd (omega arith)
shift-length k (suc n) (_ ∷ s) h = shift-length (k * 10) n s (omega arith)

shift_mono : (a b : ℕ) (s : Bytes) → a ≤ b → shift a s ≤ shift b s
unfolding shift
shift_mono a b [] l = l
shift_mono a b (_ ∷ s) l = shift_mono (a * 10) (b * 10) s (omega arith)

digits_value-lt-shift :
    (acc : ℕ) (s : Bytes) → all is_ascii_digit s ≡ true → digits_value acc s < shift (acc + 1) s
unfolding digits_value shift
digits_value-lt-shift acc [] h = omega arith
digits_value-lt-shift acc (d ∷ s) h =
    let l : acc * 10 + (d - 48) + 1 ≤ (acc + 1) * 10 = ground arith in
    omega (
      arith,
      digits_value-lt-shift (acc * 10 + (d - 48)) s (ground arith),
      shift_mono (acc * 10 + (d - 48) + 1) ((acc + 1) * 10) s l,
    )

-- 13 digits and 2 digits are far below 2 ^ 64.
thirteen-lt : (s : Bytes) → length s ≡ 13 → all is_ascii_digit s ≡ true → digits_value 0 s < 2 ^ 64
unfolding shift_count
thirteen-lt s l h = omega (arith, digits_value-lt-shift 0 s h, shift-length 1 13 s l)

two-lt : (s : Bytes) → length s ≡ 2 → all is_ascii_digit s ≡ true → digits_value 0 s < 2 ^ 64
unfolding shift_count
two-lt s l h = omega (arith, digits_value-lt-shift 0 s h, shift-length 1 2 s l)

parse_u64-digits :
    (s : Bytes)
    → s ≢ []
    → all is_ascii_digit s ≡ true
    → digits_value 0 s < 2 ^ 64
    → parse_u64 s ≡ some (digits_value 0 s)
unfolding parse_u64
parse_u64-digits [] ne h l = absurd (ne refl)
parse_u64-digits (d ∷ s) ne h l = rw h (rw (lt→ltb _ _ l))

nonempty : (s : Bytes) (n : ℕ) → length s ≡ suc n → s ≢ []
nonempty s n l e = absurd (omega (arith, ap length e))

pub parse_thirteen :
    (s : Bytes)
    → length s ≡ 13
    → all is_ascii_digit s ≡ true
    → parse_u64 s ≡ some (digits_value 0 s)
parse_thirteen s l h = parse_u64-digits s (nonempty s 12 l) h (thirteen-lt s l h)

pub parse_two :
    (s : Bytes) → length s ≡ 2 → all is_ascii_digit s ≡ true → parse_u64 s ≡ some (digits_value 0 s)
parse_two s l h = parse_u64-digits s (nonempty s 1 l) h (two-lt s l h)

pub all_parts :
    (p : ℕ → Bool) (n : ℕ) (s : Bytes)
    → all p s ≡ true
    → (all p (take n s) ≡ true) × (all p (drop n s) ≡ true)
all_parts p n s h =
    let e = sym (all-append p (take n s) (drop n s)) ∙ ap (all p) (take-append-drop n s) ∙ h in
    ground arith
