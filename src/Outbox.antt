-- ===== src/Outbox.antt =====
-- integration_store.py and the migration 0004: the durable outbox of import events. Times are in
-- microseconds; `now` is the transaction's `now()`, and `locked` the rows that other transactions
-- hold at that moment (FOR UPDATE SKIP LOCKED). `occurred_at`, which the program reads from its own
-- clock, is taken to be the same time; no operation looks at it.
pub mod Validity
pub mod Claim
pub mod Fencing
pub mod Order
pub mod Trace
pub mod Retry
mod Tests
use customer_data_foundation.Prelude.{
  ℕ, ◌+◌, ◌-◌, ◌*◌, ◌^◌, min, Bool, true, false, not, ◌&&◌, ◌||◌, List, [], ◌∷◌, ◌++◌, Option, none,
  some, String, Result, ok, err, Error, database_error, ◌>>=◌, ◌>>◌, leb, ltb, ◌==◌, if◌then◌else◌,
  find, any_of,
}
use customer_data_foundation.Sql.{Uuid, Timestamp, second, update}
use customer_data_foundation.Database.{Schema, require_current_schema}

-- the CHECK on integration_outbox.status
pub data Status : Type 0 where
  pending delivering delivered dead_letter : Status

-- the error codes of the worker; `partner_http n` is the text partner_http_{n}
pub data FailureCode : Type 0 where
  partner_http : ℕ → FailureCode
  partner_timeout partner_unreachable partner_unknown_error : FailureCode

pub data ImportStatus : Type 0 where
  processing imported already_imported validation_failed conflict : ImportStatus
  configuration_error migration_required database_failed : ImportStatus

abbrev pub event_type_name : String
event_type_name = "customer_import.completed"

abbrev pub event_schema_version : String
event_schema_version = "1.0"

pub record Payload : Type 0 where
  pub event_id : Uuid
  pub event_type : String
  pub existing_rows : ℕ
  pub inserted_rows : ℕ
  pub occurred_at : Timestamp
  pub operation_id : Uuid
  pub schema_version : String
  pub status : ImportStatus
  pub total_rows : ℕ

-- a row of integration_outbox
pub record Row : Type 0 where
  pub event_id : Uuid
  pub operation_id : Uuid
  pub event_type : String
  pub payload : Payload
  pub status : Status
  pub attempt_count : ℕ
  pub available_at : Timestamp
  pub lease_expires_at : Option Timestamp
  pub last_failure_code : Option FailureCode
  pub delivered_at : Option Timestamp
  pub created_at : Timestamp
  pub updated_at : Timestamp

-- the dataclass OutboxEvent
pub record OutboxEvent : Type 0 where
  pub event_id : Uuid
  pub operation_id : Uuid
  pub event_type : String
  pub payload : Payload
  pub status : Status
  pub attempt_count : ℕ
  pub available_at : Timestamp
  pub lease_expires_at : Option Timestamp
  pub last_failure_code : Option FailureCode
  pub delivered_at : Option Timestamp

unfoldable pub event_from_row : Row → OutboxEvent
event_from_row r = record {
  event_id = r.event_id;
  operation_id = r.operation_id;
  event_type = r.event_type;
  payload = r.payload;
  status = r.status;
  attempt_count = r.attempt_count;
  available_at = r.available_at;
  lease_expires_at = r.lease_expires_at;
  last_failure_code = r.last_failure_code;
  delivered_at = r.delivered_at;
}

abbrev pub is_pending : Status → Bool
is_pending pending = true
is_pending _ = false

abbrev pub is_delivering : Status → Bool
is_delivering delivering = true
is_delivering _ = false

unfoldable pub new_row : Uuid → Timestamp → Uuid → ImportStatus → ℕ → ℕ → ℕ → Row
new_row event_id now operation_id import_status total inserted existing = record {
  event_id = event_id;
  operation_id = operation_id;
  event_type = event_type_name;
  payload = record {
    event_id = event_id;
    event_type = event_type_name;
    existing_rows = existing;
    inserted_rows = inserted;
    occurred_at = now;
    operation_id = operation_id;
    schema_version = event_schema_version;
    status = import_status;
    total_rows = total;
  };
  status = pending;
  attempt_count = 0;
  available_at = now;
  lease_expires_at = none;
  last_failure_code = none;
  delivered_at = none;
  created_at = now;
  updated_at = now;
}

-- INSERT ... ON CONFLICT (operation_id) DO UPDATE SET operation_id = EXCLUDED.operation_id: the row
-- that has the operation stays as it is and its event_id is returned. A second row with the drawn
-- event_id would break the primary key.
unfoldable pub enqueue_completed_import :
    Uuid → Timestamp → Uuid → ImportStatus → ℕ → ℕ → ℕ → List Row → Result (Uuid × List Row)
enqueue_completed_import event_id now operation_id import_status total inserted existing rows =
    elim (find (λ (r : Row). r.operation_id == operation_id) rows) [
      | some r ↦ ok (r.event_id, rows)
      | none ↦
          if any_of (λ (r : Row). r.event_id == event_id) rows
          then err database_error
          else ok (
            event_id,
            rows ++ new_row event_id now operation_id import_status total inserted existing ∷ [],
          )
    ]

abbrev pub expired : Timestamp → Option Timestamp → Bool
expired now none = false
expired now (some t) = leb t now

-- the WHERE of the candidate
abbrev pub claimable : Timestamp → Row → Bool
claimable now r =
    leb r.available_at now
    && (is_pending r.status || (is_delivering r.status && expired now r.lease_expires_at))

-- ORDER BY available_at, created_at: `a` stands strictly before `b`
abbrev pub sorts_before : Row → Row → Bool
sorts_before a b =
    ltb a.available_at b.available_at
    || (a.available_at == b.available_at && ltb a.created_at b.created_at)

abbrev pub is_locked : List Uuid → Row → Bool
is_locked locked r = any_of (λ (u : Uuid). u == r.event_id) locked

-- the first of the claimable rows in that order that nobody else has locked (LIMIT 1)
unfoldable pub candidate : Timestamp → List Uuid → List Row → Option Row
candidate now locked [] = none
candidate now locked (r ∷ rs) =
    let rest = candidate now locked rs in
    if claimable now r && not (is_locked locked r)
    then some (elim rest [ none ↦ r | some b ↦ if sorts_before b r then b else r ])
    else rest

unfoldable pub claim_row : Timestamp → ℕ → Row → Row
claim_row now lease_seconds r = record r {
  status = delivering;
  attempt_count = r.attempt_count + 1;
  lease_expires_at = some (now + lease_seconds * second);
  updated_at = now;
}

-- the UPDATE of the candidate, and the row that it returns
unfoldable pub claim_candidate :
    Timestamp → ℕ → List Row → Option Row → Option OutboxEvent × List Row
claim_candidate now lease_seconds rows none = (none, rows)
claim_candidate now lease_seconds rows (some c) = (
  some (event_from_row (claim_row now lease_seconds c)),
  update (λ (r : Row). r.event_id == c.event_id) (claim_row now lease_seconds) rows,
)

unfoldable pub claim_next_event :
    Schema → Timestamp → List Uuid → ℕ → List Row → Result (Option OutboxEvent × List Row)
claim_next_event schema now locked lease_seconds rows = do
  require_current_schema schema
  ok (claim_candidate now lease_seconds rows (candidate now locked rows))

-- WHERE event_id = ... AND status = 'delivering' AND attempt_count = ...: the fencing token
abbrev pub holds_lease : OutboxEvent → Row → Bool
holds_lease e r =
    r.event_id == e.event_id && is_delivering r.status && r.attempt_count == e.attempt_count

unfoldable pub deliver_row : Timestamp → Row → Row
deliver_row now r = record r {
  status = delivered;
  lease_expires_at = none;
  delivered_at = some now;
  updated_at = now;
}

unfoldable pub mark_delivered :
    Schema → Timestamp → OutboxEvent → List Row → Result (Bool × List Row)
mark_delivered schema now event rows = do
  require_current_schema schema
  ok (any_of (holds_lease event) rows, update (holds_lease event) (deliver_row now) rows)

unfoldable pub backoff_seconds : ℕ → ℕ → ℕ → ℕ
backoff_seconds attempt_count base cap = min cap (base * 2 ^ (attempt_count - 1))

unfoldable pub next_status : ℕ → Bool → ℕ → Status
next_status attempt_count retryable max_attempts =
    if retryable && not (leb max_attempts attempt_count) then pending else dead_letter

unfoldable pub fail_row : Timestamp → Status → ℕ → FailureCode → Row → Row
fail_row now next backoff error_code r = record r {
  status = next;
  available_at = if is_pending next then now + backoff * second else r.available_at;
  lease_expires_at = none;
  last_failure_code = some error_code;
  updated_at = now;
}

-- what `mark_failed_attempt` returns
pub data Marked : Type 0 where
  stale_attempt : Marked
  marked : Status → Marked

unfoldable pub mark_failed_attempt :
    Schema
    → Timestamp
    → OutboxEvent
    → FailureCode
    → Bool
    → ℕ
    → ℕ
    → ℕ
    → List Row
    → Result (Marked × List Row)
unfolding next_status backoff_seconds
mark_failed_attempt schema now event error_code retryable max_attempts base cap rows =
    let next = next_status event.attempt_count retryable max_attempts in
    let backoff = backoff_seconds event.attempt_count base cap in
    do
      require_current_schema schema
      ok (
        if any_of (holds_lease event) rows then marked next else stale_attempt,
        update (holds_lease event) (fail_row now next backoff error_code) rows,
      )

unfoldable pub get_event_for_operation : Schema → Uuid → List Row → Result (Option OutboxEvent)
get_event_for_operation schema operation_id rows = do
  require_current_schema schema
  ok (elim (find (λ (r : Row). r.operation_id == operation_id) rows) [
    | none ↦ none
    | some r ↦ some (event_from_row r)
  ])
