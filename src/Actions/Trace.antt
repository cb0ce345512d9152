-- ===== src/Actions/Trace.antt =====
-- Every sequence of requests, approvals and executions, refused ones included.
use customer_data_foundation.Prelude.{◌≡◌, [], ok, In, String, any_of, true, All-In}
use customer_data_foundation.Sql.{Uuid, Digest, Timestamp}
use customer_data_foundation.Database.{Schema}
use customer_data_foundation.Actions.{
  ActionRecord, ActionArguments, PlannedAction, executed, Tables, create_action_request,
  approve_action, execute_action,
}
use customer_data_foundation.Actions.Audit.{IsValid, IsRowValid, Approved, executes}
use customer_data_foundation.Actions.Approval.{
  create_action_request-IsValid, approve_action-IsValid, execute_action-IsValid,
}

module _ (principal : String → Digest) (sha256 : ActionArguments → Digest) where
  -- a committed transaction; one that raises leaves the tables as they are
  pub data Step (t : Tables) : Tables → Type 0 where
    creates :
        (schema : Schema) (now : Timestamp) (u ev : Uuid) (subject : String)
        (planned : PlannedAction) (r : ActionRecord) {t' : Tables}
        → create_action_request principal sha256 schema now u ev subject planned t ≡ ok (r, t')
        → Step t t'
    approves :
        (schema : Schema) (now : Timestamp) (ev : Uuid) (subject : String) (u : Uuid)
        (r : ActionRecord) {t' : Tables}
        → approve_action principal schema now ev subject u t ≡ ok (r, t')
        → Step t t'
    executes_action :
        (schema : Schema) (now : Timestamp) (ev : Uuid) (subject : String) (u : Uuid)
        (r : ActionRecord) {t' : Tables}
        → execute_action principal schema now ev subject u t ≡ ok (r, t')
        → Step t t'

  pub data Reach (t : Tables) : Tables → Type 0 where
    here : Reach t t
    next : {q p : Tables} → Reach t q → Step q p → Reach t p

  pub Step-IsValid : {t t' : Tables} → Step t t' → IsValid t → IsValid t'
  Step-IsValid {t} (creates schema now u ev subject planned r h) v =
      create_action_request-IsValid principal sha256 schema now u ev subject planned t v h
  Step-IsValid {t} (approves schema now ev subject u r h) v =
      approve_action-IsValid principal schema now ev subject u t v h
  Step-IsValid {t} (executes_action schema now ev subject u r h) v =
      execute_action-IsValid principal schema now ev subject u t v h

  pub Reach-IsValid : {t t' : Tables} → Reach t t' → IsValid t → IsValid t'
  Reach-IsValid here v = v
  Reach-IsValid (next k s) v = Step-IsValid s (Reach-IsValid k v)

  -- From empty tables, whatever calls are made in whatever order: an action is executed only if a
  -- principal other than the requester approved it, and the audit trail has the approval, by that
  -- principal, and the execution, both for the digest of the arguments that were requested.
  pub executed-Approved :
      {t : Tables} (r : ActionRecord)
      → Reach (record { requests = []; audit = [] }) t
      → In r t.requests
      → r.status ≡ executed
      → Approved t.audit r × (any_of (executes r) t.audit ≡ true)
  executed-Approved {t} r k m e =
      let v : IsValid t = Reach-IsValid k (record { rows_valid = tt; action_key = tt }) in
      let (p, q, _) = (All-In (IsRowValid t.audit) t.requests v.rows_valid m).done e in (p, q)
