-- ===== src/Worker.antt =====
-- integration_worker.py: one round of the delivery worker. The answer of the partner is an
-- argument; so is what other transactions do to the outbox while the request is on its way.
pub mod Rounds
pub mod Outcomes
mod Tests
use customer_data_foundation.Prelude.{
  ℕ, ◌+◌, ◌*◌, ◌≤◌, Bool, true, false, ◌&&◌, ◌||◌, List, Option, none, some, Result, ok, err, ◌>>=◌,
  leb, ltb, ◌==◌, if◌then◌else◌,
}
use customer_data_foundation.Sql.{Uuid, Timestamp}
use customer_data_foundation.Database.{Schema}
use customer_data_foundation.Outbox.{
  FailureCode, partner_http, partner_timeout, partner_unreachable, partner_unknown_error, Row,
  OutboxEvent, Marked, marked, stale_attempt, delivered, claim_next_event, mark_delivered,
  mark_failed_attempt,
}

-- the fields of WorkerSettings that a round uses
pub record WorkerSettings : Type 0 where
  pub max_attempts : ℕ
  pub base_backoff_seconds : ℕ
  pub max_backoff_seconds : ℕ
  pub lease_seconds : ℕ

-- What `urlopen` does: a response, an HTTPError with its code, a TimeoutError, or a URLError, whose
-- reason is a TimeoutError or not.
pub data HttpOutcome : Type 0 where
  response : ℕ → HttpOutcome
  http_error : ℕ → HttpOutcome
  timeout_error : HttpOutcome
  url_error : Bool → HttpOutcome

pub record DeliveryResult : Type 0 where
  pub delivered : Bool
  pub retryable : Bool
  pub error_code : Option FailureCode

unfoldable pub classify_http_status : ℕ → Bool × FailureCode
classify_http_status status_code =
    if status_code == 408 || status_code == 425 || status_code == 429 || leb 500 status_code
    then (true, partner_http status_code)
    else (false, partner_http status_code)

unfoldable pub refused_delivery : ℕ → DeliveryResult
unfolding classify_http_status
refused_delivery status_code =
    let (retryable, code) = classify_http_status status_code in
    record { delivered = false; retryable = retryable; error_code = some code }

unfoldable pub deliver_event : HttpOutcome → DeliveryResult
unfolding refused_delivery
deliver_event (response status_code) =
    if leb 200 status_code && ltb status_code 300
    then record { delivered = true; retryable = false; error_code = none }
    else refused_delivery status_code
deliver_event (http_error status_code) = refused_delivery status_code
deliver_event timeout_error = record {
  delivered = false;
  retryable = true;
  error_code = some partner_timeout;
}
deliver_event (url_error is_timeout) = record {
  delivered = false;
  retryable = true;
  error_code = some (if is_timeout then partner_timeout else partner_unreachable);
}

-- `result.error_code or "partner_unknown_error"`
abbrev pub code_or_unknown : Option FailureCode → FailureCode
code_or_unknown none = partner_unknown_error
code_or_unknown (some c) = c

-- the second transaction of a round
unfoldable pub record_outcome :
    WorkerSettings
    → Schema
    → Timestamp
    → OutboxEvent
    → DeliveryResult
    → List Row
    → Result (Marked × List Row)
record_outcome settings schema now event result rows =
    if result.delivered
    then (do
      (persisted, rows') ← mark_delivered schema now event rows
      ok (if persisted then marked delivered else stale_attempt, rows'))
    else mark_failed_attempt schema now event (code_or_unknown result.error_code) result.retryable
        settings.max_attempts settings.base_backoff_seconds settings.max_backoff_seconds rows

-- What a round returns: whether there was an event and the final status that it emits. `between`
-- is what other transactions do to the table during the request.
unfoldable pub deliver_claimed :
    WorkerSettings
    → Schema
    → Timestamp
    → HttpOutcome
    → (List Row → List Row)
    → Option OutboxEvent × List Row
    → Result (Option Marked × List Row)
unfolding record_outcome
deliver_claimed settings schema now outcome between (none, rows) = ok (none, rows)
deliver_claimed settings schema now outcome between (some event, rows) = do
  (final_status, rows') ←
      record_outcome settings schema now event (deliver_event outcome) (between rows)
  ok (some final_status, rows')

unfoldable pub process_one :
    WorkerSettings
    → Schema
    → Timestamp
    → List Uuid
    → Timestamp
    → HttpOutcome
    → (List Row → List Row)
    → List Row
    → Result (Option Marked × List Row)
unfolding deliver_claimed
process_one settings schema now locked later outcome between rows = do
  claimed ← claim_next_event schema now locked settings.lease_seconds rows
  deliver_claimed settings schema later outcome between claimed
