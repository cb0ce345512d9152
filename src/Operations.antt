-- ===== src/Operations.antt =====
-- api_store.py and the migrations 0002 and 0003: idempotent operations with recovery leases, and the
-- outbox event that the result of an accepted import leaves in the same transaction.
pub mod Replay
pub mod Existing
pub mod Completion
pub mod Exclusive
mod Tests
use customer_data_foundation.Prelude.{
  ℕ, ◌+◌, ◌*◌, Bool, true, false, not, ◌&&◌, ◌||◌, List, [], ◌∷◌, ◌++◌, map, Option, none, some,
  String, Result, ok, err, database_error, ◌>>=◌, ◌>>◌, or_raise, leb, ◌==◌, if◌then◌else◌, find,
  any_of, is_some,
}
use customer_data_foundation.Sql.{Uuid, Digest, Timestamp, second, update}
use customer_data_foundation.Database.{Schema, require_current_schema, recovery_lease_seconds}
use customer_data_foundation.Text.{Text, codes}
use customer_data_foundation.Outbox
use customer_data_foundation.Outbox.{ImportStatus, processing, enqueue_completed_import}
use customer_data_foundation.Validation.Fields.{ValidationIssue}
use customer_data_foundation.Validation.Headers.{sorted_set}
use customer_data_foundation.Importer.{ImportResult}

-- a row of api_operations; StoredOperation has its fields up to the lease but for the key
pub record Operation : Type 0 where
  pub operation_id : Uuid
  pub actor_hash : Digest
  pub idempotency_key_hash : Digest
  pub request_sha256 : Digest
  pub status : ImportStatus
  pub accepted : Bool
  pub total_rows : ℕ
  pub inserted_rows : ℕ
  pub existing_rows : ℕ
  pub duration_ms : ℕ
  pub error_codes : List Text
  pub issues : List ValidationIssue
  pub attempt_count : ℕ
  pub lease_expires_at : Timestamp
  pub completed_at : Option Timestamp
  pub recovered_at : Option Timestamp

pub record Reservation : Type 0 where
  pub created : Bool
  pub recovered : Bool
  pub operation : Operation

unfoldable pub should_process : Reservation → Bool
should_process r = r.created || r.recovered

abbrev pub is_processing : ImportStatus → Bool
is_processing processing = true
is_processing _ = false

-- WHERE actor_hash = ... AND idempotency_key_hash = ...
abbrev pub has_key : Digest → Digest → Operation → Bool
has_key actor key r = r.actor_hash == actor && r.idempotency_key_hash == key

-- the rest of the WHERE of the recovery
abbrev pub abandoned : Digest → Timestamp → Operation → Bool
abandoned request_sha256 now r =
    r.request_sha256 == request_sha256 && is_processing r.status && leb r.lease_expires_at now

abbrev pub recoverable : Digest → Digest → Digest → Timestamp → Operation → Bool
recoverable actor key request_sha256 now r = has_key actor key r && abandoned request_sha256 now r

unfoldable pub new_operation : Timestamp → Uuid → Digest → Digest → Digest → Operation
new_operation now operation_id actor key request_sha256 = record {
  operation_id = operation_id;
  actor_hash = actor;
  idempotency_key_hash = key;
  request_sha256 = request_sha256;
  status = processing;
  accepted = false;
  total_rows = 0;
  inserted_rows = 0;
  existing_rows = 0;
  duration_ms = 0;
  error_codes = [];
  issues = [];
  attempt_count = 1;
  lease_expires_at = now + recovery_lease_seconds * second;
  completed_at = none;
  recovered_at = none;
}

unfoldable pub recover_row : Timestamp → Operation → Operation
recover_row now r = record r {
  lease_expires_at = now + recovery_lease_seconds * second;
  attempt_count = r.attempt_count + 1;
  recovered_at = some now;
}

-- the operation that the key has already: recovered if it was abandoned, otherwise as it is
unfoldable pub reserve_existing :
    Timestamp
    → Digest
    → Digest
    → Digest
    → List Operation
    → Option Operation
    → Result (Reservation × List Operation)
reserve_existing now actor key request_sha256 rows (some r) = ok (
  record { created = false; recovered = true; operation = recover_row now r },
  update (recoverable actor key request_sha256 now) (recover_row now) rows,
)
reserve_existing now actor key request_sha256 rows none = do
  r ← or_raise (find (has_key actor key) rows) database_error
  ok (record { created = false; recovered = false; operation = r }, rows)

unfoldable pub reserve_row :
    Timestamp
    → Uuid
    → Digest
    → Digest
    → Digest
    → List Operation
    → Result (Reservation × List Operation)
reserve_row now operation_id actor key request_sha256 rows =
    if any_of (has_key actor key) rows
    then reserve_existing now actor key request_sha256 rows
        (find (recoverable actor key request_sha256 now) rows)
    else if any_of (λ (r : Operation). r.operation_id == operation_id) rows
    then err database_error
    else ok (
      record {
        created = true;
        recovered = false;
        operation = new_operation now operation_id actor key request_sha256;
      },
      rows ++ new_operation now operation_id actor key request_sha256 ∷ [],
    )

-- `protected_hash(identifier_hash_key, namespace, value)` is the first argument
unfoldable pub reserve_operation :
    (String → String → Digest)
    → Schema
    → Timestamp
    → Uuid
    → String
    → String
    → Digest
    → List Operation
    → Result (Reservation × List Operation)
reserve_operation protected_hash schema now operation_id subject idempotency_key request_sha256
      rows =
    do
      require_current_schema schema
      reserve_row now operation_id (protected_hash "actor" subject)
          (protected_hash "idempotency" idempotency_key) request_sha256 rows

pub record Tables : Type 0 where
  pub operations : List Operation
  pub outbox : List Outbox.Row

-- WHERE operation_id = ... AND attempt_count = ... AND status = 'processing'
abbrev pub holds_attempt : Uuid → ℕ → Operation → Bool
holds_attempt operation_id attempt r =
    r.operation_id == operation_id && r.attempt_count == attempt && is_processing r.status

abbrev pub code_of : ValidationIssue → Text
code_of i = codes i.code

unfoldable pub complete_row : Timestamp → ImportResult → ℕ → Operation → Operation
unfolding sorted_set
complete_row now result duration_ms r = record r {
  status = result.status;
  accepted = result.accepted;
  total_rows = result.total_rows;
  inserted_rows = result.inserted_rows;
  existing_rows = result.existing_rows;
  duration_ms = duration_ms;
  error_codes = sorted_set (map code_of result.issues);
  issues = result.issues;
  completed_at = some now;
}

-- the event of an accepted result
unfoldable pub notify :
    Timestamp → Uuid → Uuid → ImportResult → List Outbox.Row → Result (List Outbox.Row)
notify now event_id operation_id result outbox =
    if result.accepted
    then (do
      (_, outbox') ←
          enqueue_completed_import event_id now operation_id result.status result.total_rows
            result.inserted_rows result.existing_rows outbox
      ok outbox')
    else ok outbox

-- the row that was updated, or, if the attempt was not the current one, the row as it is
unfoldable pub complete_found :
    Timestamp
    → Uuid
    → Uuid
    → ℕ
    → ImportResult
    → ℕ
    → Tables
    → Option Operation
    → Result (Operation × Tables)
complete_found now event_id operation_id attempt result duration_ms t none = do
  r ←
      or_raise (find (λ (r : Operation). r.operation_id == operation_id) t.operations)
        database_error
  ok (r, t)
complete_found now event_id operation_id attempt result duration_ms t (some r) = do
  outbox ← notify now event_id operation_id result t.outbox
  ok (
    complete_row now result duration_ms r,
    record {
      operations =
          update (holds_attempt operation_id attempt) (complete_row now result duration_ms)
            t.operations;
      outbox = outbox;
    },
  )

unfoldable pub complete_operation :
    Schema → Timestamp → Uuid → Uuid → ℕ → ImportResult → ℕ → Tables → Result (Operation × Tables)
complete_operation schema now event_id operation_id attempt result duration_ms t = do
  require_current_schema schema
  complete_found now event_id operation_id attempt result duration_ms t
      (find (holds_attempt operation_id attempt) t.operations)

unfoldable pub get_operation : Schema → Uuid → List Operation → Result (Option Operation)
get_operation schema operation_id rows = do
  require_current_schema schema
  ok (find (λ (r : Operation). r.operation_id == operation_id) rows)
