-- ===== src/Api/ActionCalls.antt =====
-- The handlers of controlled actions of api.py, behind the roles that they require.
use customer_data_foundation.Prelude.{
  Bool, not, ◌&&◌, Option, none, some, String, Result, ok, err, Error, action_not_found,
  action_transition, self_approval, if◌then◌else◌, ◌==◌,
}
use customer_data_foundation.Sql.{Uuid, Digest, Timestamp}
use customer_data_foundation.Database.{Schema}
use customer_data_foundation.Actions.{
  ActionRecord, Tables, approve_action, execute_action, get_action,
}
use customer_data_foundation.Api.{Answer, answer, refused, Principal, has_role}
use customer_data_foundation.Api.Imports.{transact}

-- the handlers of the exceptions
unfoldable pub refuse_approval : {A : Type 0} → Error → Answer A
refuse_approval action_not_found = refused 404 "not_found"
refuse_approval self_approval = refused 409 "self_approval_forbidden"
refuse_approval action_transition = refused 409 "invalid_action_transition"
refuse_approval _ = refused 503 "action_store_unavailable"

unfoldable pub refuse_execution : {A : Type 0} → Error → Answer A
refuse_execution action_not_found = refused 404 "not_found"
refuse_execution action_transition = refused 409 "approval_required"
refuse_execution _ = refused 503 "action_store_unavailable"

unfoldable pub answer_approval :
    Tables → Result (ActionRecord × Tables) → Answer ActionRecord × Tables
unfolding refuse_approval
answer_approval t (err e) = (refuse_approval e, t)
answer_approval t (ok (r, t')) = (answer r, t')

unfoldable pub answer_execution :
    Tables → Result (ActionRecord × Tables) → Answer ActionRecord × Tables
unfolding refuse_execution
answer_execution t (err e) = (refuse_execution e, t)
answer_execution t (ok (r, t')) = (answer r, t')

-- `principal` is `protected_hash(identifier_hash_key, "action-principal", subject)`
module _ (principal : String → Digest) where
  unfoldable pub approve_controlled_action :
      Bool → Schema → Timestamp → Uuid → Principal → Uuid → Tables → Answer ActionRecord × Tables
  unfolding answer_approval
  approve_controlled_action connected schema now event_id p action_id t =
      if has_role "auditor" p
      then answer_approval t
          (transact connected (approve_action principal schema now event_id p.subject action_id t))
      else (refused 403 "forbidden", t)

  unfoldable pub execute_controlled_action :
      Bool → Schema → Timestamp → Uuid → Principal → Uuid → Tables → Answer ActionRecord × Tables
  unfolding answer_execution
  execute_controlled_action connected schema now event_id p action_id t =
      if has_role "operator" p
      then answer_execution t
          (transact connected (execute_action principal schema now event_id p.subject action_id t))
      else (refused 403 "forbidden", t)

  unfoldable pub answer_record : Principal → Result (Option ActionRecord) → Answer ActionRecord
  answer_record p (err e) = refused 503 "action_store_unavailable"
  answer_record p (ok none) = refused 404 "not_found"
  answer_record p (ok (some r)) =
      if not (has_role "auditor" p) && not (r.requester_hash == principal p.subject)
      then refused 404 "not_found"
      else answer r

  unfoldable pub read_controlled_action :
      Bool → Schema → Uuid → Principal → Tables → Answer ActionRecord
  unfolding answer_record
  read_controlled_action connected schema action_id p t =
      answer_record p (transact connected (get_action schema action_id t))
