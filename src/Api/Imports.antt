-- ===== src/Api/Imports.antt =====
-- The handlers of imports: `create_import`, `read_import` and `read_integration`. The principal of
-- `create_import` is one that `require_operator` has let through, that of the others any that
-- `authenticate` has.
use customer_data_foundation.Prelude.{
  ℕ, ◌+◌, ◌-◌, ◌/◌, min, max, Bool, true, false, not, ◌&&◌, List, Option, none, some, String,
  Result, ok, err, Error, schema_not_current, database_error, if◌then◌else◌, ◌==◌,
}
use customer_data_foundation.Sql.{Uuid, Digest, Timestamp, second}
use customer_data_foundation.Database.{Schema, recovery_lease_seconds}
use customer_data_foundation.Text.{Text, Unicode}
use customer_data_foundation.Outbox.{
  ImportStatus, processing, imported, already_imported, validation_failed, conflict,
  configuration_error, migration_required, database_failed, OutboxEvent, get_event_for_operation,
  FailureCode,
}
use customer_data_foundation.Outbox
use customer_data_foundation.Validation.Fields.{ValidationIssue}
use customer_data_foundation.Validation.Batch.{File}
use customer_data_foundation.Importer
use customer_data_foundation.Importer.{ImportResult, import_csv}
use customer_data_foundation.Operations
use customer_data_foundation.Operations.{
  Operation, Reservation, should_process, is_processing, reserve_operation, complete_operation,
  get_operation,
}
use customer_data_foundation.Api.{Answer, answer, refused, Principal, has_role}
use customer_data_foundation.Api.Uploads.{validate_idempotency_key, persist_bounded_upload}

pub record OperationResponse : Type 0 where
  pub operation_id : Uuid
  pub accepted : Bool
  pub status : ImportStatus
  pub total_rows : ℕ
  pub inserted_rows : ℕ
  pub existing_rows : ℕ
  pub duration_ms : ℕ
  pub attempt_count : ℕ
  pub error_codes : List Text
  pub issues : List ValidationIssue

unfoldable pub public_operation : Operation → OperationResponse
public_operation r = record {
  operation_id = r.operation_id;
  accepted = r.accepted;
  status = r.status;
  total_rows = r.total_rows;
  inserted_rows = r.inserted_rows;
  existing_rows = r.existing_rows;
  duration_ms = r.duration_ms;
  attempt_count = r.attempt_count;
  error_codes = r.error_codes;
  issues = r.issues;
}

pub record IntegrationResponse : Type 0 where
  pub event_id : Uuid
  pub operation_id : Uuid
  pub event_type : String
  pub status : Outbox.Status
  pub attempt_count : ℕ
  pub available_at : Timestamp
  pub last_failure_code : Option FailureCode
  pub delivered_at : Option Timestamp

unfoldable pub public_integration : OutboxEvent → IntegrationResponse
public_integration e = record {
  event_id = e.event_id;
  operation_id = e.operation_id;
  event_type = e.event_type;
  status = e.status;
  attempt_count = e.attempt_count;
  available_at = e.available_at;
  last_failure_code = e.last_failure_code;
  delivered_at = e.delivered_at;
}

unfoldable pub response_status : ImportStatus → ℕ
response_status processing = 202
response_status imported = 200
response_status already_imported = 200
response_status validation_failed = 422
response_status conflict = 409
response_status configuration_error = 503
response_status migration_required = 503
response_status database_failed = 503

pub record JsonResponse : Type 0 where
  pub status_code : ℕ
  pub retry_after : Option ℕ
  pub content : OperationResponse

-- the rest of the lease in whole seconds, rounded up; at least 1, which is also what a lease in the
-- past gives
unfoldable pub retry_seconds : Timestamp → Timestamp → ℕ
retry_seconds now lease_expires_at =
    max 1 (min ((lease_expires_at - now + (second - 1)) / second) recovery_lease_seconds)

unfoldable pub operation_json_response : Timestamp → Operation → JsonResponse
unfolding public_operation response_status retry_seconds
operation_json_response now r = record {
  status_code = response_status r.status;
  retry_after =
      if is_processing r.status then some (retry_seconds now r.lease_expires_at) else none;
  content = public_operation r;
}

-- the tables that an import uses
pub record Store : Type 0 where
  pub imports : Importer.Tables
  pub jobs : Operations.Tables

-- One request: the identifiers that it draws, the clock, what each of its three transactions finds
-- of PostgreSQL and its schema, and what others do to the tables between them.
pub record Run : Type 0 where
  pub operation_id : Uuid
  pub batch_id : Uuid
  pub event_id : Uuid
  pub reserved_at : Timestamp
  pub completed_at : Timestamp
  pub answered_at : Timestamp
  pub duration_ms : ℕ
  pub reserve_connected : Bool
  pub reserve_schema : Schema
  pub import_connected : Bool
  pub import_schema : Schema
  pub complete_connected : Bool
  pub complete_schema : Schema
  pub before_import : Store → Store
  pub before_complete : Store → Store

-- a `psycopg.Error` where PostgreSQL does not answer
abbrev pub transact : {A : Type 0} → Bool → Result A → Result A
transact false m = err database_error
transact true m = m

unfoldable pub after_complete :
    Run → Store → Result (Operation × Operations.Tables) → Answer JsonResponse × Store
unfolding operation_json_response
after_complete v s (err e) = (refused 503 "database_error", s)
after_complete v s (ok (r, jobs)) =
    (answer (operation_json_response v.answered_at r), record s { jobs = jobs })

-- the handlers of the exceptions of the reservation
unfoldable pub refuse_reserve : Error → Answer JsonResponse
refuse_reserve schema_not_current = refused 503 "migration_required"
refuse_reserve _ = refused 503 "database_error"

-- a reservation that is not to be processed
unfoldable pub replay : Run → Digest → Operation → Answer JsonResponse
unfolding operation_json_response
replay v request_sha256 r =
    if r.request_sha256 == request_sha256
    then answer (operation_json_response v.answered_at r)
    else refused 409 "idempotency_key_reused"

module _ (u : Unicode) (pg_lower : Text → Text) (protected_hash : String → String → Digest)
    (sha256 : List ℕ → Digest) (read_file : List ℕ → File) where
  -- the end of the request, for the result of the import
  unfoldable pub complete_import :
      Run → Operation → Store → ImportResult × Importer.Tables → Answer JsonResponse × Store
  unfolding after_complete
  complete_import v r s (result, imports) =
      let t = v.before_complete (record s { imports = imports }) in
      after_complete v t (
        transact v.complete_connected (
          complete_operation v.complete_schema v.completed_at v.event_id r.operation_id
            r.attempt_count result v.duration_ms t.jobs))

  -- the import of a request that is to be processed
  unfoldable pub process_import : Run → List ℕ → Operation → Store → Answer JsonResponse × Store
  unfolding complete_import
  process_import v body r s = complete_import v r (v.before_import s) (
      import_csv u pg_lower v.import_connected v.import_schema v.batch_id (read_file body)
        (sha256 body) (v.before_import s).imports)

  unfoldable pub after_reserve :
      Run → List ℕ → Store → Result (Reservation × List Operation) → Answer JsonResponse × Store
  unfolding process_import replay refuse_reserve
  after_reserve v body s (err e) = (refuse_reserve e, s)
  after_reserve v body s (ok (r, rows)) =
      let t = record s { jobs = record s.jobs { operations = rows } } in
      if should_process r
      then process_import v body r.operation t
      else (replay v (sha256 body) r.operation, t)

  unfoldable pub after_upload :
      Run → Principal → String → Store → Option (List ℕ) → Answer JsonResponse × Store
  after_upload v p key s none = (refused 413 "file_too_large", s)
  after_upload v p key s (some body) = after_reserve v body s (
      transact v.reserve_connected (
        reserve_operation protected_hash v.reserve_schema v.reserved_at v.operation_id p.subject key
          (sha256 body) s.jobs.operations))

  unfoldable pub after_key :
      Run → Principal → List (List ℕ) → Store → Answer String → Answer JsonResponse × Store
  unfolding after_upload
  after_key v p chunks s (refused c code) = (refused c code, s)
  after_key v p chunks s (answer key) = after_upload v p key s (persist_bounded_upload 0 chunks)

  unfoldable pub create_import :
      Run → Principal → Option String → List (List ℕ) → Store → Answer JsonResponse × Store
  unfolding after_key
  create_import v p header chunks s = after_key v p chunks s (validate_idempotency_key u header)

-- only an auditor, or the caller that made the request
abbrev pub may_read : (String → String → Digest) → Principal → Operation → Bool
may_read protected_hash p r =
    not (not (has_role "auditor" p) && not (r.actor_hash == protected_hash "actor" p.subject))

unfoldable pub answer_import :
    (String → String → Digest) → Principal → Result (Option Operation) → Answer OperationResponse
unfolding public_operation
answer_import protected_hash p (err e) = refused 503 "database_error"
answer_import protected_hash p (ok none) = refused 404 "not_found"
answer_import protected_hash p (ok (some r)) =
    if may_read protected_hash p r then answer (public_operation r) else refused 404 "not_found"

unfoldable pub read_import :
    (String → String → Digest)
    → Bool
    → Schema
    → Uuid
    → Principal
    → List Operation
    → Answer OperationResponse
unfolding answer_import
read_import protected_hash connected schema operation_id p rows =
    answer_import protected_hash p (transact connected (get_operation schema operation_id rows))

unfoldable pub answer_integration :
    (String → String → Digest)
    → Principal
    → Result (Option Operation)
    → Result (Option OutboxEvent)
    → Answer IntegrationResponse
unfolding public_integration
answer_integration protected_hash p (ok none) (ok _) = refused 404 "not_found"
answer_integration protected_hash p (ok (some r)) (ok none) = refused 404 "not_found"
answer_integration protected_hash p (ok (some r)) (ok (some e)) =
    if may_read protected_hash p r then answer (public_integration e) else refused 404 "not_found"
answer_integration protected_hash p _ _ = refused 503 "database_error"

-- two transactions, each on the tables that it finds
unfoldable pub read_integration :
    (String → String → Digest)
    → Bool
    → Schema
    → Uuid
    → Principal
    → List Operation
    → List Outbox.Row
    → Answer IntegrationResponse
unfolding answer_integration
read_integration protected_hash connected schema operation_id p rows outbox =
    answer_integration protected_hash p
      (transact connected (get_operation schema operation_id rows))
      (transact connected (get_event_for_operation schema operation_id outbox))
