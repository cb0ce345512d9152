-- ===== src/Actions/Tests.antt =====
-- The theorems on controlled actions at one action of one requester.
use customer_data_foundation.Prelude.{
  ℕ, ◌≡◌, ◌≢◌, refl, true, [], ◌∷◌, none, some, String, str_eq, ok, inl, any_of, if◌then◌else◌,
}
use customer_data_foundation.Sql.{Digest, update}
use customer_data_foundation.Database.{current_schema, require_current_schema}
use customer_data_foundation.Validation.Tests.{small_unicode}
use customer_data_foundation.Actions.Planner.{
  plan_locally, find_reference, reference_at, reference_run, find_template, find_reason, mentions,
}
use customer_data_foundation.Actions.{
  information_request, information_requested, PlannedAction, ActionArguments, case_update,
  status_update, PlannedAction, ActionRecord, AuditEvent, proposed, approval, execution, approved,
  executed, Tables, simulated_followup_queued, new_request, approve_row, execute_row, record_audit,
  change_action, create_action_request, approve_current, approve_action, execute_current,
  execute_action,
}
use customer_data_foundation.Actions.Audit.{Approved, executes}
use customer_data_foundation.Actions.Trace.{
  Reach, here, next, creates, approves, executes_action, executed-Approved,
}

abbrev principal : String → Digest
principal subject = if str_eq subject "ana" then 1 else 2

abbrev sha256 : ActionArguments → Digest
sha256 arguments = 77

abbrev planned : PlannedAction
planned = record {
  action_type = "send_customer_followup";
  arguments = record {
    customer_reference = "CUST-1";
    template = case_update;
    reason = status_update;
  };
  provider = "deterministic";
  model = "rules";
  provider_response_id = "r1";
}

abbrev requested : ActionRecord
requested = new_request principal sha256 1000 5 "ana" planned

abbrev allowed : ActionRecord
allowed = approve_row 2000 2 requested

abbrev done : ActionRecord
done = execute_row 3000 allowed

abbrev event : ℕ → Digest → ℕ → AuditEvent
event id actor now = record {
  event_id = id;
  action_id = 5;
  actor_hash = actor;
  event_type = proposed;
  arguments_sha256 = 77;
  result_code = none;
  created_at = now;
}

abbrev approval_event : AuditEvent
approval_event = record (event 31 2 2000) { event_type = approval }

abbrev execution_event : AuditEvent
execution_event = record (event 32 2 3000) {
  event_type = execution;
  result_code = some simulated_followup_queued;
}

abbrev empty_tables : Tables
empty_tables = record { requests = []; audit = [] }

abbrev requested_tables : Tables
requested_tables = record { requests = requested ∷ []; audit = event 30 1 1000 ∷ [] }

abbrev allowed_tables : Tables
allowed_tables = record { requests = allowed ∷ []; audit = event 30 1 1000 ∷ approval_event ∷ [] }

abbrev done_tables : Tables
done_tables = record {
  requests = done ∷ [];
  audit = event 30 1 1000 ∷ approval_event ∷ execution_event ∷ [];
}

is_current : require_current_schema current_schema ≡ ok tt
unfolding require_current_schema
is_current = refl

creates_it :
    create_action_request principal sha256 current_schema 1000 5 30 "ana" planned empty_tables
    ≡ ok (requested, requested_tables)
unfolding create_action_request require_current_schema record_audit
creates_it = refl

approves_it :
    approve_action principal current_schema 2000 31 "luis" 5 requested_tables
    ≡ ok (allowed, allowed_tables)
unfolding approve_action approve_current change_action require_current_schema record_audit update
    new_request
approves_it = refl

executes_it :
    execute_action principal current_schema 3000 32 "luis" 5 allowed_tables ≡ ok (done, done_tables)
unfolding execute_action execute_current change_action require_current_schema record_audit update
    new_request approve_row
executes_it = refl

trace : Reach principal sha256 empty_tables done_tables
trace =
    next
      (next (next here (creates current_schema 1000 5 30 "ana" planned requested creates_it))
        (approves current_schema 2000 31 "luis" 5 allowed approves_it))
      (executes_action current_schema 3000 32 "luis" 5 done executes_it)

executed-Approved_example :
    Approved done_tables.audit done × (any_of (executes done) done_tables.audit ≡ true)
unfolding execute_row
executed-Approved_example = executed-Approved principal sha256 done trace (inl refl) refl

still_pending : (requested.status ≢ approved) × (requested.status ≢ executed)
unfolding new_request
still_pending = (λ e. cc, λ e. cc)

-- an instruction that asks for a resolution notice, and gives information_requested as its reason
abbrev notice : String
notice = "CUST-ABC resolution_notice information_requested"

abbrev notice_planned : PlannedAction
notice_planned = record {
  action_type = "send_customer_followup";
  arguments = record {
    customer_reference = "CUST-ABC";
    template = information_request;
    reason = information_requested;
  };
  provider = "deterministic_local";
  model = "controlled-parser-v1";
  provider_response_id = "local-r";
}

plans_another : plan_locally small_unicode (λ t. t) notice "r" ≡ ok notice_planned
unfolding plan_locally find_reference reference_at reference_run find_template find_reason mentions
plans_another = refl
