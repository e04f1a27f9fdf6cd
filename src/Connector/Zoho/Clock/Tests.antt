-- ===== src/Connector/Zoho/Clock/Tests.antt =====
-- Times at the ends of years.
use mcp_data_gateway.Prelude.{◌/◌, ◌%◌, ◌≤◌, ◌≡◌, ◌↔◌, refl}
use mcp_data_gateway.Prelude.Decimal.{padded, decimal_digits}
use mcp_data_gateway.Prelude.Text.{codes}
use mcp_data_gateway.Connector.Zoho.Clock.{stamp, total_secs, format_epoch_ms}
use mcp_data_gateway.Prelude.Int.{pos, negsuc}
use mcp_data_gateway.Connector.Zoho.Clock.Fields.{second_of, numbers, format_epoch_ms_bounds}

-- 1970-12-31
new_years_eve : format_epoch_ms (pos 31449600000) ≡ codes "1970-13-05T00:00:00Z"
unfolding format_epoch_ms padded decimal_digits
new_years_eve = refl

-- 2024-01-01
leap_days : format_epoch_ms (pos 1704067200000) ≡ codes "2024-01-14T00:00:00Z"
unfolding format_epoch_ms padded decimal_digits
leap_days = refl

-- a millisecond in front of 1970
wraps : format_epoch_ms (negsuc 0) ≡ codes "1970-01-01T00:00:04Z"
unfolding format_epoch_ms padded decimal_digits
wraps = refl

format_epoch_ms_bounds_example :
    (second_of (numbers 0 (format_epoch_ms (pos 31449600000))) ≡ 31449600000 / 1000)
    × (((stamp (total_secs (pos 31449600000))).months ≡ 13) ↔ (360 ≤ 31449600000 / 86400000 % 365))
    × ((stamp (total_secs (pos 31449600000))).months ≤ 13)
    × (second_of (numbers 0 (format_epoch_ms (negsuc 31449600000))) ≤ 4)
    × ((second_of (numbers 0 (format_epoch_ms (negsuc 31449600000))) ≡ 0)
        ↔ (31449600001 % 1000 ≡ 0))
format_epoch_ms_bounds_example = format_epoch_ms_bounds 31449600000
