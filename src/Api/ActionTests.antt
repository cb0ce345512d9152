-- ===== src/Api/ActionTests.antt =====
-- The theorems on the handlers of actions at one action of one requester.
use customer_data_foundation.Prelude.{◌≡◌, refl, true, [], ◌∷◌, none, String, str_eq, if◌then◌else◌}
use customer_data_foundation.Sql.{Digest, update}
use customer_data_foundation.Database.{current_schema, require_current_schema}
use customer_data_foundation.Actions.{
  case_update, status_update, pending, ActionRecord, Tables, approve_row, record_audit,
  change_action, approve_current, approve_action, get_action,
}
use customer_data_foundation.Api.{answer, Principal, has_role}
use customer_data_foundation.Api.ActionCalls.{
  answer_approval, approve_controlled_action, answer_record, read_controlled_action,
}
use customer_data_foundation.Api.Separation.{ApprovedBy, approve_controlled_action-ApprovedBy}

abbrev principal : String → Digest
principal subject = if str_eq subject "ana" then 1 else 2

abbrev requested : ActionRecord
requested = record {
  action_id = 5;
  requester_hash = 1;
  action_type = "send_customer_followup";
  arguments = record {
    customer_reference = "CUST-123";
    template = case_update;
    reason = status_update;
  };
  arguments_sha256 = 77;
  status = pending;
  planner_provider = "deterministic_local";
  planner_model = "rules";
  approver_hash = none;
  approved_at = none;
  executed_at = none;
  result_code = none;
  created_at = 1000;
}

abbrev tables : Tables
tables = record { requests = requested ∷ []; audit = [] }

abbrev luis : Principal
luis = record { subject = "luis"; roles = "auditor" ∷ [] }

abbrev ana : Principal
ana = record { subject = "ana"; roles = "operator" ∷ [] }

luis_approves :
    (approve_controlled_action principal true current_schema 2000 31 luis 5 tables).0
    ≡ answer (approve_row 2000 2 requested)
unfolding approve_controlled_action answer_approval approve_action approve_current change_action
    record_audit require_current_schema update
luis_approves = refl

approve_controlled_action-ApprovedBy_example :
    (has_role "auditor" luis ≡ true)
    × ApprovedBy principal luis 5
        (approve_row 2000 2 requested)
        (approve_controlled_action principal true current_schema 2000 31 luis 5 tables).1
approve_controlled_action-ApprovedBy_example =
    approve_controlled_action-ApprovedBy principal true current_schema 2000 31 luis 5 tables
      luis_approves

ana_reads : read_controlled_action principal true current_schema 5 ana tables ≡ answer requested
unfolding read_controlled_action answer_record get_action require_current_schema
ana_reads = refl
