-- ===== src/Metrics.antt =====
-- operations.py: the counts of the operations and of the outbox, and the alerts. A number of seconds
-- is kept in microseconds. What is printed is not modelled; the status of the exit is.
pub mod Alerts
mod Tests
use customer_data_foundation.Prelude.{
  ℕ, ◌+◌, ◌-◌, ◌*◌, max, Bool, true, false, not, ◌&&◌, ◌||◌, List, [], ◌∷◌, ◌++◌, Option, none,
  some, String, Result, ok, err, ◌>>=◌, ◌>>◌, leb, if◌then◌else◌, length, select,
}
use customer_data_foundation.Sql.{Timestamp, second}
use customer_data_foundation.Database.{Schema, require_current_schema}
use customer_data_foundation.Outbox
use customer_data_foundation.Outbox.{
  ImportStatus, imported, already_imported, processing, validation_failed, conflict,
  configuration_error, migration_required, database_failed, pending, delivering, delivered,
  dead_letter,
}
use customer_data_foundation.Operations.{Operation, Tables, is_processing}

pub record OperationalSnapshot : Type 0 where
  pub imports_total : ℕ
  pub imports_processing : ℕ
  pub imports_failed : ℕ
  pub expired_processing : ℕ
  pub outbox_pending : ℕ
  pub outbox_delivering : ℕ
  pub outbox_delivered : ℕ
  pub outbox_dead_letter : ℕ
  pub oldest_pending : Timestamp

pub record Alert : Type 0 where
  pub code : String
  pub severity : String
  pub value : ℕ

abbrev pub is_failed : ImportStatus → Bool
is_failed processing = false
is_failed imported = false
is_failed already_imported = false
is_failed _ = true

abbrev pub is_expired : Timestamp → Operation → Bool
is_expired now r = is_processing r.status && leb r.lease_expires_at now

abbrev pub is_pending : Outbox.Row → Bool
is_pending r = Outbox.is_pending r.status

abbrev pub is_delivering : Outbox.Row → Bool
is_delivering r = Outbox.is_delivering r.status

abbrev pub delivered_status : Outbox.Status → Bool
delivered_status delivered = true
delivered_status _ = false

abbrev pub dead_status : Outbox.Status → Bool
dead_status dead_letter = true
dead_status _ = false

abbrev pub is_delivered : Outbox.Row → Bool
is_delivered r = delivered_status r.status

abbrev pub is_dead_letter : Outbox.Row → Bool
is_dead_letter r = dead_status r.status

abbrev pub is_undelivered : Outbox.Row → Bool
is_undelivered r = is_pending r || is_delivering r

-- count(*) FILTER (WHERE test)
abbrev pub count : {A : Type 0} → (A → Bool) → List A → ℕ
count test rows = length (select test rows)

-- the age of the oldest row, which is that of the least creation time; 0 where there is none
abbrev pub oldest : Timestamp → List Outbox.Row → Timestamp
oldest now [] = 0
oldest now (r ∷ rs) = max (now - r.created_at) (oldest now rs)

unfoldable pub take_snapshot : Timestamp → Tables → OperationalSnapshot
take_snapshot now t = record {
  imports_total = length t.operations;
  imports_processing = count (λ (r : Operation). is_processing r.status) t.operations;
  imports_failed = count (λ (r : Operation). is_failed r.status) t.operations;
  expired_processing = count (is_expired now) t.operations;
  outbox_pending = count is_pending t.outbox;
  outbox_delivering = count is_delivering t.outbox;
  outbox_delivered = count is_delivered t.outbox;
  outbox_dead_letter = count is_dead_letter t.outbox;
  oldest_pending = oldest now (select is_undelivered t.outbox);
}

unfoldable pub collect_snapshot : Schema → Timestamp → Tables → Result OperationalSnapshot
unfolding take_snapshot
collect_snapshot schema now t = do require_current_schema schema; ok (take_snapshot now t)

-- an alert if there is something to count
abbrev pub alert_if : Bool → String → String → ℕ → List Alert
alert_if test code severity value =
    if test then record { code = code; severity = severity; value = value } ∷ [] else []

unfoldable pub evaluate_alerts : ℕ → OperationalSnapshot → List Alert
evaluate_alerts pending_warning_seconds s =
    alert_if (leb 1 s.expired_processing) "expired_processing_lease" "critical" s.expired_processing
    ++ alert_if (leb 1 s.outbox_dead_letter) "outbox_dead_letter" "critical" s.outbox_dead_letter
    ++ alert_if (leb (pending_warning_seconds * second) s.oldest_pending) "outbox_delivery_delayed"
        "warning" s.oldest_pending

abbrev pub exit_code : List Alert → ℕ
exit_code [] = 0
exit_code (a ∷ others) = 1

abbrev pub exit_snapshot : ℕ → Result OperationalSnapshot → ℕ
exit_snapshot threshold (err e) = 1
exit_snapshot threshold (ok s) = exit_code (evaluate_alerts threshold s)

-- `main`; `configured` where the secret of the database can be read
unfoldable pub main : Bool → Schema → Timestamp → ℕ → Tables → ℕ
unfolding evaluate_alerts collect_snapshot
main configured schema now threshold t =
    if not (leb 1 threshold && leb threshold 86_400)
    then 1
    else if not configured
    then 1
    else exit_snapshot threshold (collect_snapshot schema now t)
