-- ===== src/Actions.antt =====
-- actions.py and the migration 0007: controlled actions that are requested, approved and executed
-- by principals that are known by a keyed hash of their subject. FOR UPDATE serialises the
-- transactions on one action, so each is one step on the tables.
pub mod Audit
pub mod Approval
pub mod Trace
pub mod Replay
pub mod Planner
pub mod Planned
mod Tests
use customer_data_foundation.Prelude.{
  ℕ, ◌+◌, ◌-◌, ◌*◌, Bool, true, false, not, ◌&&◌, ◌||◌, List, [], ◌∷◌, ◌++◌, Option, none, some,
  String, Result, ok, err, Error, database_error, value_error, action_not_found, action_transition,
  self_approval, action_rate_limit, ◌>>=◌, ◌>>◌, guard, or_raise, leb, ltb, ◌==◌, if◌then◌else◌,
  find, any_of, length, select,
}
use customer_data_foundation.Sql.{Uuid, Digest, Timestamp, second, update}
use customer_data_foundation.Database.{Schema, require_current_schema}

pub data Template : Type 0 where
  case_update information_request resolution_notice : Template

pub data Reason : Type 0 where
  status_update information_requested case_resolved : Reason

pub record ActionArguments : Type 0 where
  pub customer_reference : String
  pub template : Template
  pub reason : Reason

pub record PlannedAction : Type 0 where
  pub action_type : String
  pub arguments : ActionArguments
  pub provider : String
  pub model : String
  pub provider_response_id : String

pub data Status : Type 0 where
  pending approved executed rejected expired : Status

-- a row of action_requests; ActionRecord has the same fields
pub record ActionRecord : Type 0 where
  pub action_id : Uuid
  pub requester_hash : Digest
  pub action_type : String
  pub arguments : ActionArguments
  pub arguments_sha256 : Digest
  pub status : Status
  pub planner_provider : String
  pub planner_model : String
  pub approver_hash : Option Digest
  pub approved_at : Option Timestamp
  pub executed_at : Option Timestamp
  pub result_code : Option String
  pub created_at : Timestamp

pub data EventType : Type 0 where
  proposed approval execution : EventType

-- a row of action_audit_events
pub record AuditEvent : Type 0 where
  pub event_id : Uuid
  pub action_id : Uuid
  pub actor_hash : Digest
  pub event_type : EventType
  pub arguments_sha256 : Digest
  pub result_code : Option String
  pub created_at : Timestamp

pub record Tables : Type 0 where
  pub requests : List ActionRecord
  pub audit : List AuditEvent

abbrev pub simulated_followup_queued : String
simulated_followup_queued = "simulated_followup_queued"

abbrev pub same_digest : Option Digest → Digest → Bool
same_digest none d = false
same_digest (some c) d = c == d

abbrev pub is_pending : Status → Bool
is_pending pending = true
is_pending _ = false

abbrev pub is_approved : Status → Bool
is_approved approved = true
is_approved _ = false

abbrev pub is_executed : Status → Bool
is_executed executed = true
is_executed _ = false

-- INSERT INTO action_audit_events; a drawn identifier that is taken breaks the primary key
unfoldable pub record_audit : AuditEvent → List AuditEvent → Result (List AuditEvent)
record_audit a audit =
    if any_of (λ (b : AuditEvent). b.event_id == a.event_id) audit
    then err database_error
    else ok (audit ++ a ∷ [])

-- `protected_hash(key, "action-principal", subject)` and the SHA-256 of the canonical JSON of the
-- arguments
module _ (principal : String → Digest) (sha256 : ActionArguments → Digest) where
  unfoldable pub new_request : Timestamp → Uuid → String → PlannedAction → ActionRecord
  new_request now action_id subject planned = record {
    action_id = action_id;
    requester_hash = principal subject;
    action_type = planned.action_type;
    arguments = planned.arguments;
    arguments_sha256 = sha256 planned.arguments;
    status = pending;
    planner_provider = planned.provider;
    planner_model = planned.model;
    approver_hash = none;
    approved_at = none;
    executed_at = none;
    result_code = none;
    created_at = now;
  }

  unfoldable pub create_action_request :
      Schema
      → Timestamp
      → Uuid
      → Uuid
      → String
      → PlannedAction
      → Tables
      → Result (ActionRecord × Tables)
  unfolding new_request
  create_action_request schema now action_id event_id subject planned t = do
    require_current_schema schema
    guard (not (any_of (λ (r : ActionRecord). r.action_id == action_id) t.requests)) database_error
    let r = new_request now action_id subject planned
    audit ←
        record_audit
          (record {
            event_id = event_id;
            action_id = action_id;
            actor_hash = principal subject;
            event_type = proposed;
            arguments_sha256 = sha256 planned.arguments;
            result_code = none;
            created_at = now;
          })
          t.audit
    ok (r, record { requests = t.requests ++ r ∷ []; audit = audit })

-- SELECT count(*) ... WHERE requester_hash = actor AND created_at >= now() - interval '1 minute'
unfoldable pub recent_requests : Timestamp → Digest → List ActionRecord → ℕ
recent_requests now actor requests = length (
    select (λ (r : ActionRecord). r.requester_hash == actor && leb now (r.created_at + 60 * second))
      requests)

unfoldable pub enforce_action_rate_limit :
    (String → Digest) → Schema → Timestamp → String → ℕ → Tables → Result (Unit {0})
unfolding recent_requests
enforce_action_rate_limit principal schema now subject requests_per_minute t = do
  guard (leb 1 requests_per_minute && leb requests_per_minute 1000) value_error
  require_current_schema schema
  guard (ltb (recent_requests now (principal subject) t.requests) requests_per_minute)
      action_rate_limit

unfoldable pub get_action : Schema → Uuid → Tables → Result (Option ActionRecord)
get_action schema action_id t = do
  require_current_schema schema
  ok (find (λ (r : ActionRecord). r.action_id == action_id) t.requests)

unfoldable pub approve_row : Timestamp → Digest → ActionRecord → ActionRecord
approve_row now approver r = record r {
  status = approved;
  approver_hash = some approver;
  approved_at = some now;
}

unfoldable pub execute_row : Timestamp → ActionRecord → ActionRecord
execute_row now r = record r {
  status = executed;
  executed_at = some now;
  result_code = some simulated_followup_queued;
}

-- the UPDATE of one action and the audit event that goes with it
unfoldable pub change_action :
    Uuid
    → (ActionRecord → ActionRecord)
    → AuditEvent
    → ActionRecord
    → Tables
    → Result (ActionRecord × Tables)
unfolding record_audit
change_action action_id f event current t = do
  audit ← record_audit event t.audit
  ok (
    f current,
    record {
      requests = update (λ (r : ActionRecord). r.action_id == action_id) f t.requests;
      audit = audit;
    },
  )

-- the checks of `approve_action` on the row that it has locked, and its writes
unfoldable pub approve_current :
    Timestamp → Uuid → Digest → Uuid → Tables → ActionRecord → Result (ActionRecord × Tables)
unfolding change_action
approve_current now event_id approver action_id t current =
    if current.requester_hash == approver
    then err self_approval
    else if is_approved current.status && same_digest current.approver_hash approver
    then ok (current, t)
    else if not (is_pending current.status)
    then err action_transition
    else change_action action_id (approve_row now approver)
        (record {
          event_id = event_id;
          action_id = action_id;
          actor_hash = approver;
          event_type = approval;
          arguments_sha256 = current.arguments_sha256;
          result_code = none;
          created_at = now;
        })
        current t

unfoldable pub approve_action :
    (String → Digest)
    → Schema
    → Timestamp
    → Uuid
    → String
    → Uuid
    → Tables
    → Result (ActionRecord × Tables)
unfolding approve_current
approve_action principal schema now event_id subject action_id t = do
  require_current_schema schema
  current ←
      or_raise (find (λ (r : ActionRecord). r.action_id == action_id) t.requests) action_not_found
  approve_current now event_id (principal subject) action_id t current

unfoldable pub execute_current :
    Timestamp → Uuid → Digest → Uuid → Tables → ActionRecord → Result (ActionRecord × Tables)
unfolding change_action
execute_current now event_id executor action_id t current =
    if is_executed current.status
    then ok (current, t)
    else if not (is_approved current.status)
    then err action_transition
    else change_action action_id (execute_row now)
        (record {
          event_id = event_id;
          action_id = action_id;
          actor_hash = executor;
          event_type = execution;
          arguments_sha256 = current.arguments_sha256;
          result_code = some simulated_followup_queued;
          created_at = now;
        })
        current t

unfoldable pub execute_action :
    (String → Digest)
    → Schema
    → Timestamp
    → Uuid
    → String
    → Uuid
    → Tables
    → Result (ActionRecord × Tables)
unfolding execute_current
execute_action principal schema now event_id subject action_id t = do
  require_current_schema schema
  current ←
      or_raise (find (λ (r : ActionRecord). r.action_id == action_id) t.requests) action_not_found
  execute_current now event_id (principal subject) action_id t current
