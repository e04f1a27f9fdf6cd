-- ===== src/Connector/Zoho/Clock/Seconds.antt =====
-- Which seconds a time counts, on either side of 1970.
use mcp_data_gateway.Prelude.{
  ℕ, zero, suc, ◌+◌, ◌-◌, ◌*◌, ◌/◌, ◌%◌, ◌^◌, ◌≤◌, ◌<◌, ◌≡◌, ◌↔◌, refl, ap, sym, ◌∙◌, arith,
}
use mcp_data_gateway.Prelude.Int.{pos, negsuc, neg, as_u32, times, max_0}
use mcp_data_gateway.Connector.Zoho.Clock.{total_secs}

-- the nanoseconds of a time in front of 1970, whose milliseconds are `r`
wrapped : ℕ → ℕ
wrapped r = as_u32 (times (neg r) 1000000) / 1000000000

wrapped_value :
    (r : ℕ) → wrapped (suc r) ≡ (2 ^ 32 - 1 - (r * 1000000 + 999999) % 2 ^ 32) / 1000000000
unfolding wrapped
wrapped_value r =
    let e : suc r * 1000000 ≡ suc (r * 1000000 + 999999) = omega arith in
    ap (λ k. as_u32 (neg k) / 1000000000) e

wrapped_bounds : (r : ℕ) → r < 1000 → ((wrapped r ≡ 0) ↔ (r ≡ 0)) × (wrapped r ≤ 4)
unfolding wrapped
wrapped_bounds zero h = ((λ e. e, λ e. e), omega arith)
wrapped_bounds (suc r) h =
    let v = wrapped_value r in ((λ e. absurd (omega arith), λ e. absurd (omega arith)), omega arith)

zero_plus : (k : ℕ) → 0 + k ≡ k
zero_plus k = omega arith

max_0-neg : (n : ℕ) → max_0 (neg n) ≡ 0
max_0-neg zero = refl
max_0-neg (suc n) = refl

total_secs-negsuc : (n : ℕ) → total_secs (negsuc n) ≡ wrapped (suc n % 1000)
unfolding total_secs wrapped
total_secs-negsuc n =
    ap (λ k. k + wrapped (suc n % 1000)) (max_0-neg (suc n / 1000))
    ∙ zero_plus (wrapped (suc n % 1000))

pub total_secs-pos : (n : ℕ) → total_secs (pos n) ≡ n / 1000
unfolding total_secs
total_secs-pos n = omega arith

-- a time in front of 1970
pub total_secs-negsuc_bounds :
    (n : ℕ) → ((total_secs (negsuc n) ≡ 0) ↔ (suc n % 1000 ≡ 0)) × (total_secs (negsuc n) ≤ 4)
total_secs-negsuc_bounds n =
    let e = total_secs-negsuc n in
    let (z, b) = wrapped_bounds (suc n % 1000) (omega arith) in
    ((λ h. z.0 (sym e ∙ h), λ h. e ∙ z.1 h), omega (arith, e, b))
