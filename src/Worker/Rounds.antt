-- ===== src/Worker/Rounds.antt =====
-- What a round of the worker does with the answer of the partner.
use customer_data_foundation.Prelude.{
  ℕ, ◌+◌, ◌*◌, ◌≤◌, ◌<◌, ◌≡◌, ◌↔◌, refl, true, false, List, some, ok, arith, In, ◌⊎◌, inl, inr,
}
use customer_data_foundation.Sql.{Uuid, Timestamp, second}
use customer_data_foundation.Database.{Schema}
use customer_data_foundation.Outbox.{
  Row, OutboxEvent, claim_row, marked, delivered, claim_next_event, pending,
}
use customer_data_foundation.Outbox.Fencing.{
  mark_delivered-claim, claim_next_event-Claimed, Claimed-holds,
}
use customer_data_foundation.Outbox.Retry.{mark_failed_attempt-Failed}
use customer_data_foundation.Worker.{
  WorkerSettings, HttpOutcome, response, http_error, timeout_error, classify_http_status,
  deliver_event, record_outcome, process_one, code_or_unknown,
}

-- the answers after which the worker tries again
abbrev pub IsTransient : ℕ → Type 0
IsTransient s = (s ≡ 408) ⊎ (s ≡ 425) ⊎ (s ≡ 429) ⊎ (500 ≤ s)

pub classify_http_status-IsTransient : (s : ℕ) → ((classify_http_status s).0 ≡ true) ↔ IsTransient s
unfolding classify_http_status
classify_http_status-IsTransient s = (λ h. ground (arith, h), λ h. ground (arith, h))

delivered_outcome :
    (o : HttpOutcome) (s : ℕ)
    → o ≡ response s
    → 200 ≤ s
    → s < 300
    → (deliver_event o).delivered ≡ true
unfolding deliver_event
delivered_outcome o s e lo hi = rw e (ground arith)

retried_outcome :
    (o : HttpOutcome) (s : ℕ)
    → (o ≡ http_error s) ⊎ (o ≡ timeout_error)
    → IsTransient s
    → ((deliver_event o).delivered ≡ false) × ((deliver_event o).retryable ≡ true)
unfolding deliver_event
retried_outcome o s (inl e) t = rw e (ground (arith, t))
retried_outcome o s (inr e) t = rw e (ground arith)

-- If the reservation returns an event, nobody else touches the table during the request, and the
-- partner answers with a status from 200 to 299, the round ends with the event delivered.
pub process_one-delivered :
    (settings : WorkerSettings) (schema : Schema) (now : Timestamp) (locked : List Uuid)
    (later : Timestamp) (s : ℕ) (rows : List Row) {e : OutboxEvent} {rows' : List Row}
    → claim_next_event schema now locked settings.lease_seconds rows ≡ ok (some e, rows')
    → 200 ≤ s
    → s < 300
    → ((rows'' : List Row) × (process_one settings schema now locked later
            (response s)
            (λ q. q)
            rows
          ≡ ok (some (marked delivered), rows''))
        × ((r : Row) × In r rows'' × (r.event_id ≡ e.event_id) × (r.status ≡ delivered)))
unfolding process_one record_outcome
process_one-delivered settings schema now locked later s rows {e} {rows'} h lo hi =
    let (q, m, r) = mark_delivered-claim schema now later locked settings.lease_seconds rows h in
    (q, rw (h, delivered_outcome (response s) s refl lo hi, m), r)

-- If the reservation returns an event with attempts left, nobody else touches the table during the
-- request, the base backoff is at most the cap, and the partner answers with an error 408, 425, 429
-- or from 500 on, or does not answer in time, the round ends with the event pending again, due
-- between the base and the cap from then.
pub process_one-retried :
    (settings : WorkerSettings) (schema : Schema) (now : Timestamp) (locked : List Uuid)
    (later : Timestamp) (o : HttpOutcome) (s : ℕ) (rows : List Row) {e : OutboxEvent}
    {rows' : List Row}
    → settings.base_backoff_seconds ≤ settings.max_backoff_seconds
    → claim_next_event schema now locked settings.lease_seconds rows ≡ ok (some e, rows')
    → (o ≡ http_error s) ⊎ (o ≡ timeout_error)
    → IsTransient s
    → e.attempt_count < settings.max_attempts
    → ((rows'' : List Row) × (process_one settings schema now locked later o (λ q. q) rows
          ≡ ok (some (marked pending), rows''))
        × ((r : Row) × In r rows''
            × (r.event_id ≡ e.event_id)
            × (r.status ≡ pending)
            × (later + settings.base_backoff_seconds * second ≤ r.available_at)
            × (r.available_at ≤ later + settings.max_backoff_seconds * second)))
unfolding process_one record_outcome
process_one-retried settings schema now locked later o s rows {e} {rows'} hb h ho t left =
    let (d, y) = retried_outcome o s ho t in
    let (sc, (c, k)) = claim_next_event-Claimed schema now locked settings.lease_seconds rows h in
    let (i, w) = Claimed-holds now locked settings.lease_seconds rows e rows' c k in
    let (q, rows'', g, j, f) =
      mark_failed_attempt-Failed schema later e (code_or_unknown (deliver_event o).error_code) true
        settings.max_attempts settings.base_backoff_seconds settings.max_backoff_seconds rows'
        (claim_row now settings.lease_seconds c) sc hb i w in
    let (st, lo, hi) = f.retried (refl, left) in
    (rows'', rw (h, d, y, g, st), (q, j, f.same_event, st, lo, hi))
