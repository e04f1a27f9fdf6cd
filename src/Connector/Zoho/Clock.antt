-- ===== src/Connector/Zoho/Clock.antt =====
-- `format_epoch_ms` of zoho.rs, for every `i64`.
mod Seconds
mod Fields
mod Tests
use mcp_data_gateway.Prelude.{ℕ, ◌+◌, ◌/◌, ◌%◌, [], ◌∷◌, ◌++◌}
use mcp_data_gateway.Prelude.Int.{ℤ, quot, rem, times, max_0, as_u32}
use mcp_data_gateway.Prelude.Decimal.{padded}
use mcp_data_gateway.Prelude.Text.{Text}

pub record Stamp : Type 0 where
  pub years : ℕ
  pub months : ℕ
  pub dom : ℕ
  pub h : ℕ
  pub m : ℕ
  pub s : ℕ

-- The seconds of the duration: `Duration::new` adds the whole seconds among its nanoseconds.
unfoldable pub total_secs : ℤ → ℕ
total_secs ms =
    let secs = quot ms 1000 in
    let nanos = as_u32 (times (rem ms 1000) 1000000) in max_0 secs + nanos / 1000000000

-- The calendar of the source: years of 365 days, and months of 30.
unfoldable pub stamp : ℕ → Stamp
stamp total_secs =
    let days = total_secs / 86400 in
    let day_of_year = days % 365 in
    record {
      years = 1970 + days / 365;
      months = day_of_year / 30 + 1;
      dom = day_of_year % 30 + 1;
      h = total_secs / 3600 % 24;
      m = total_secs / 60 % 60;
      s = total_secs % 60;
    }

-- `{:04}-{:02}-{:02}T{:02}:{:02}:{:02}Z`
unfoldable pub render : Stamp → Text
render t =
    let seconds : Text = padded 2 t.s ++ (b'Z' ∷ []) in
    let minutes : Text = padded 2 t.m ++ (b':' ∷ seconds) in
    let hours : Text = padded 2 t.h ++ (b':' ∷ minutes) in
    let days : Text = padded 2 t.dom ++ (b'T' ∷ hours) in
    let months : Text = padded 2 t.months ++ (b'-' ∷ days) in padded 4 t.years ++ (b'-' ∷ months)

unfoldable pub format_epoch_ms : ℤ → Text
unfolding stamp render total_secs
format_epoch_ms ms = render (stamp (total_secs ms))
