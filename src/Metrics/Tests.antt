-- ===== src/Metrics/Tests.antt =====
-- The theorems on the metrics at one event of the outbox.
use customer_data_foundation.Prelude.{◌≤◌, ◌≡◌, ◌↔◌, true, [], ◌∷◌, ok}
use customer_data_foundation.Database.{current_schema, require_current_schema}
use customer_data_foundation.Outbox.{imported, new_row}
use customer_data_foundation.Operations.{Tables}
use customer_data_foundation.Metrics.{main}
use customer_data_foundation.Metrics.Alerts.{IsHealthy, main_iff}

abbrev one_event : Tables
one_event = record { operations = []; outbox = new_row 9 1_000_000 5 imported 3 2 1 ∷ [] }

main_iff_example : (main true current_schema 2_000_000 300 one_event ≡ 0) ↔ (
    (1 ≤ 300)
    × (300 ≤ 86_400)
    × (true ≡ true)
    × (require_current_schema current_schema ≡ ok tt)
    × IsHealthy 2_000_000 300 one_event)
main_iff_example = main_iff true current_schema 2_000_000 300 one_event
