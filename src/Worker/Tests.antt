-- ===== src/Worker/Tests.antt =====
-- The theorems on a round of the worker at a table with one event.
use customer_data_foundation.Prelude.{
  ◌+◌, ◌*◌, ◌≤◌, ◌≡◌, refl, List, [], ◌∷◌, some, arith, ok, inl, inr, In,
}
use customer_data_foundation.Sql.{second, update}
use customer_data_foundation.Database.{current_schema, require_current_schema}
use customer_data_foundation.Outbox.{
  imported, pending, delivered, Row, new_row, event_from_row, claim_row, candidate, claim_candidate,
  claim_next_event, marked,
}
use customer_data_foundation.Worker.{WorkerSettings, response, http_error, process_one}
use customer_data_foundation.Worker.Rounds.{process_one-delivered, process_one-retried}

abbrev settings : WorkerSettings
settings = record {
  max_attempts = 5;
  base_backoff_seconds = 2;
  max_backoff_seconds = 300;
  lease_seconds = 60;
}

abbrev queued : List Row
queued = new_row 11 1000 21 imported 3 2 1 ∷ []

abbrev leased : Row
leased = claim_row 2000 60 (new_row 11 1000 21 imported 3 2 1)

claims_it :
    claim_next_event current_schema 2000 [] 60 queued
    ≡ ok (some (event_from_row leased), leased ∷ [])
unfolding update claim_next_event claim_candidate candidate require_current_schema new_row
claims_it = refl

process_one-delivered_example :
    (rows : List Row) × (process_one settings current_schema 2000 [] 5000
        (response 204)
        (λ q. q)
        queued
      ≡ ok (some (marked delivered), rows))
    × ((r : Row) × In r rows × (r.event_id ≡ 11) × (r.status ≡ delivered))
unfolding new_row claim_row event_from_row
process_one-delivered_example =
    process_one-delivered settings current_schema 2000 [] 5000 204 queued claims_it (omega arith)
      (omega arith)

process_one-retried_example :
    (rows : List Row) × (process_one settings current_schema 2000 [] 5000
        (http_error 503)
        (λ q. q)
        queued
      ≡ ok (some (marked pending), rows))
    × ((r : Row) × In r rows
        × (r.event_id ≡ 11)
        × (r.status ≡ pending)
        × (5000 + 2 * second ≤ r.available_at)
        × (r.available_at ≤ 5000 + 300 * second))
unfolding new_row claim_row event_from_row
process_one-retried_example =
    process_one-retried settings current_schema 2000 [] 5000 (http_error 503) 503 queued
      (omega arith) claims_it (inl refl) (inr (inr (inr (omega arith)))) (omega arith)
