-- ===== src/Connector/Zoho/Clock/Fields.antt =====
-- What a rendered time tells: reading its six numbers gives the second back.
use mcp_data_gateway.Prelude.{
  ℕ, ◌+◌, ◌-◌, ◌*◌, ◌/◌, ◌%◌, ◌≤◌, ◌≡◌, ◌↔◌, suc, refl, ap, sym, ◌∙◌, true, false, inl, inr, List,
  [], ◌∷◌, ◌++◌, arith, Bool-cases, if◌then◌else◌,
}
use mcp_data_gateway.Prelude.Bytes.{all, is_ascii_digit, digits_value}
use mcp_data_gateway.Prelude.Decimal.{padded, all_digits-padded, digits_value-padded}
use mcp_data_gateway.Prelude.Text.{Text}
use mcp_data_gateway.Prelude.Int.{ℤ, pos, negsuc}
use mcp_data_gateway.Connector.Zoho.Clock.Seconds.{total_secs-pos, total_secs-negsuc_bounds}
use mcp_data_gateway.Connector.Zoho.Clock.{Stamp, total_secs, stamp, render, format_epoch_ms}

-- the numbers between the other characters of a text
abbrev pub numbers : ℕ → Text → List ℕ
numbers acc [] = acc ∷ []
numbers acc (c ∷ s) =
    let more = numbers (acc * 10 + (c - 48)) s in
    let next = acc ∷ numbers 0 s in if is_ascii_digit c then more else next

-- the second that six numbers stand for, in the calendar of the source
abbrev pub second_of : List ℕ → ℕ
second_of (y ∷ mo ∷ d ∷ h ∷ m ∷ s ∷ ns) =
    ((((y - 1970) * 365 + (mo - 1) * 30 + (d - 1)) * 24 + h) * 60 + m) * 60 + s
second_of _ = 0

numbers-digits :
    (acc c : ℕ) (s rest : Text)
    → all is_ascii_digit s ≡ true
    → is_ascii_digit c ≡ false
    → numbers acc (s ++ c ∷ rest) ≡ digits_value acc s ∷ numbers 0 rest
unfolding digits_value
numbers-digits acc c [] rest h f = rw f refl
numbers-digits acc c (b ∷ s) rest h f = elim (Bool-cases (is_ascii_digit b)) [
  | inl e ↦ rw e (numbers-digits (acc * 10 + (b - 48)) c s rest (rw e at h) f)
  | inr g ↦ cc (rw g at h)
]

-- a padded number in front of a character that is no digit
numbers-padded :
    (width n c : ℕ) (rest : Text)
    → is_ascii_digit c ≡ false
    → numbers 0 (padded width n ++ c ∷ rest) ≡ n ∷ numbers 0 rest
numbers-padded width n c rest f =
    numbers-digits 0 c (padded width n) rest (all_digits-padded width n) f
    ∙ ap (λ v. v ∷ numbers 0 rest) (digits_value-padded width n)

numbers-render :
    (t : Stamp) → numbers 0 (render t) ≡ t.years ∷ t.months ∷ t.dom ∷ t.h ∷ t.m ∷ t.s ∷ 0 ∷ []
unfolding render
numbers-render t =
    let seconds : Text = padded 2 t.s ++ (b'Z' ∷ []) in
    let minutes : Text = padded 2 t.m ++ (b':' ∷ seconds) in
    let hours : Text = padded 2 t.h ++ (b':' ∷ minutes) in
    let days : Text = padded 2 t.dom ++ (b'T' ∷ hours) in
    let months : Text = padded 2 t.months ++ (b'-' ∷ days) in
    numbers-padded 4 t.years b'-' months refl
    ∙ ap (◌∷◌ t.years) (
        numbers-padded 2 t.months b'-' days refl
        ∙ ap (◌∷◌ t.months) (
            numbers-padded 2 t.dom b'T' hours refl
            ∙ ap (◌∷◌ t.dom) (
                numbers-padded 2 t.h b':' minutes refl
                ∙ ap (◌∷◌ t.h) (
                    numbers-padded 2 t.m b':' seconds refl
                    ∙ ap (◌∷◌ t.m) (numbers-padded 2 t.s b'Z' [] refl)))))

days_split :
    (d : ℕ)
    → (1970 + d / 365 - 1970) * 365 + (d % 365 / 30 + 1 - 1) * 30 + (d % 365 % 30 + 1 - 1) ≡ d
days_split d = omega arith

time_split : (n : ℕ) → ((n / 86400 * 24 + n / 3600 % 24) * 60 + n / 60 % 60) * 60 + n % 60 ≡ n
time_split n = omega arith

second_of-stamp :
    (n : ℕ)
    → let t = stamp n in second_of (t.years ∷ t.months ∷ t.dom ∷ t.h ∷ t.m ∷ t.s ∷ 0 ∷ []) ≡ n
unfolding stamp
second_of-stamp n =
    ap (λ d. ((d * 24 + n / 3600 % 24) * 60 + n / 60 % 60) * 60 + n % 60) (days_split (n / 86400))
    ∙ time_split n

second_of-format_epoch_ms :
    (ms : ℤ)
    → (second_of (numbers 0 (format_epoch_ms ms)) ≡ total_secs ms)
      × (((stamp (total_secs ms)).months ≡ 13) ↔ (360 ≤ total_secs ms / 86400 % 365))
      × ((stamp (total_secs ms)).months ≤ 13)
unfolding format_epoch_ms stamp
second_of-format_epoch_ms ms = (
  ap second_of (numbers-render (stamp (total_secs ms))) ∙ second_of-stamp (total_secs ms),
  (λ h. omega arith, λ h. omega arith),
  omega arith,
)

-- The six numbers of the text of a time give its second back, from 1970 on; the month is 13 on the last five
-- of every 365 days, and at most 12 on the others. A time in front of 1970 is printed as one of the first
-- five seconds of 1970: as the first of them where it is a whole number of seconds, and only there.
pub format_epoch_ms_bounds :
    (n : ℕ)
    → (second_of (numbers 0 (format_epoch_ms (pos n))) ≡ n / 1000)
      × (((stamp (total_secs (pos n))).months ≡ 13) ↔ (360 ≤ n / 86400000 % 365))
      × ((stamp (total_secs (pos n))).months ≤ 13)
      × (second_of (numbers 0 (format_epoch_ms (negsuc n))) ≤ 4)
      × ((second_of (numbers 0 (format_epoch_ms (negsuc n))) ≡ 0) ↔ (suc n % 1000 ≡ 0))
format_epoch_ms_bounds n =
    let (e, m, b) = second_of-format_epoch_ms (pos n) in
    let (e', _, _) = second_of-format_epoch_ms (negsuc n) in
    let p = total_secs-pos n in
    let (z, c) = total_secs-negsuc_bounds n in
    (
      e ∙ p,
      (λ h. let k = m.0 h in omega (arith, k, p), λ h. m.1 (omega (arith, p))),
      b,
      omega (arith, e', c),
      (λ h. z.0 (sym e' ∙ h), λ h. e' ∙ z.1 h),
    )
