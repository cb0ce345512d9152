-- ===== src/Actions/Replay.antt =====
-- Repeated and refused calls.
use customer_data_foundation.Prelude.{
  ◌≡◌, ◌≢◌, refl, subst, ◌&&◌, Option, some, arith, ok, err, Bool-cases, inl, inr, find, ◌==◌,
  String, ok-injective, >>=-eq-ok, or_raise, self_approval, action_transition, action_not_found,
}
use customer_data_foundation.Sql.{Uuid, Digest, Timestamp, find-update}
use customer_data_foundation.Database.{Schema, require_current_schema}
use customer_data_foundation.Actions.{
  ActionRecord, approved, executed, Tables, approve_row, execute_row, approve_current,
  approve_action, execute_current, execute_action, is_pending, is_approved, is_executed,
  same_digest,
}
use customer_data_foundation.Actions.Approval.{change_action-ok, or_raise-ok}

abbrev row_of : Uuid → Tables → Option ActionRecord
row_of u t = find (λ (r : ActionRecord). r.action_id == u) t.requests

-- On a current schema, a principal cannot approve its own request, whatever its status.
pub approve_action_self :
    (principal : String → Digest) (schema : Schema) (now : Timestamp) (ev : Uuid) (subject : String)
    (u : Uuid) (t : Tables) {c : ActionRecord}
    → require_current_schema schema ≡ ok tt
    → row_of u t ≡ some c
    → c.requester_hash ≡ principal subject
    → approve_action principal schema now ev subject u t ≡ err self_approval
unfolding approve_action approve_current
approve_action_self principal schema now ev subject u t s f e = rw (s, f) (ground (arith, e))

-- On a current schema, an action that is neither approved nor executed yet cannot be executed.
pub execute_action-pending :
    (principal : String → Digest) (schema : Schema) (now : Timestamp) (ev : Uuid) (subject : String)
    (u : Uuid) (t : Tables) {c : ActionRecord}
    → require_current_schema schema ≡ ok tt
    → row_of u t ≡ some c
    → (c.status ≢ approved) × (c.status ≢ executed)
    → execute_action principal schema now ev subject u t ≡ err action_transition
unfolding execute_action execute_current
execute_action-pending principal schema now ev subject u t s f n = rw (s, f) (ground (arith, n))

-- the row that an approval leaves
pub approve_current-row :
    (now : Timestamp) (ev : Uuid) (d : Digest) (u : Uuid) (t : Tables) (c : ActionRecord)
    {x : ActionRecord × Tables}
    → row_of u t ≡ some c
    → approve_current now ev d u t c ≡ ok x
    → (row_of u x.1 ≡ some x.0)
      × (x.0.status ≡ approved)
      × (x.0.approver_hash ≡ some d)
      × (x.0.requester_hash ≢ d)
unfolding approve_current
approve_current-row now ev d u t c {x} f h = elim (Bool-cases (c.requester_hash == d)) [
  | inl self ↦ absurd (ground (arith, h, self))
  | inr other ↦ elim (Bool-cases (is_approved c.status && same_digest c.approver_hash d)) [
    | inl again ↦
        subst
          (λ (y : ActionRecord × Tables).
            (row_of u y.1 ≡ some y.0)
            × (y.0.status ≡ approved)
            × (y.0.approver_hash ≡ some d)
            × (y.0.requester_hash ≢ d))
          (ok-injective (rw (other, again) at h))
          (f, ground (arith, again), ground (arith, again), ground (arith, other))
    | inr first ↦ elim (Bool-cases (is_pending c.status)) [
      | inr late ↦ absurd (ground (arith, rw (other, first, late) at h))
      | inl waits ↦
          let (e, requests, audit) =
            change_action-ok u (approve_row now d) _ c t (rw (other, first, waits) at h) in
          (
            rw (e, requests)
                (find-update (λ (r : ActionRecord). r.action_id) u (approve_row now d) t.requests
                  (λ r. unfold approve_row in refl) f),
            rw e (unfold approve_row in refl),
            rw e (unfold approve_row in refl),
            rw e (unfold approve_row in ground (arith, other)),
          )
    ]
  ]
]

-- After an approval, approving again by the same principal, on a current schema, returns the same
-- record and changes nothing: no second audit event is written.
pub approve_action-again :
    (principal : String → Digest) (schema schema' : Schema) (now later : Timestamp) (ev ev' : Uuid)
    (subject : String) (u : Uuid) (t : Tables) {x : ActionRecord × Tables}
    → approve_action principal schema now ev subject u t ≡ ok x
    → require_current_schema schema' ≡ ok tt
    → approve_action principal schema' later ev' subject u x.1 ≡ ok x
unfolding approve_action
approve_action-again principal schema schema' now later ev ev' subject u t {x} h s =
    let (_, _, g) = >>=-eq-ok (require_current_schema schema) _ h in
    let (c, m, k) = >>=-eq-ok (or_raise (row_of u t) action_not_found) _ g in
    let (f, st, ap', ne) =
      approve_current-row now ev (principal subject) u t c (or_raise-ok _ _ m) k in
    rw (s, f) (unfold approve_current in ground (arith, st, ap', ne))

execute_current-row :
    (now : Timestamp) (ev : Uuid) (d : Digest) (u : Uuid) (t : Tables) (c : ActionRecord)
    {x : ActionRecord × Tables}
    → row_of u t ≡ some c
    → execute_current now ev d u t c ≡ ok x
    → (row_of u x.1 ≡ some x.0) × (x.0.status ≡ executed)
unfolding execute_current
execute_current-row now ev d u t c {x} f h = elim (Bool-cases (is_executed c.status)) [
  | inl again ↦
      subst (λ (y : ActionRecord × Tables). (row_of u y.1 ≡ some y.0) × (y.0.status ≡ executed))
        (ok-injective (rw again at h)) (f, ground (arith, again))
  | inr first ↦ elim (Bool-cases (is_approved c.status)) [
    | inr early ↦ absurd (ground (arith, rw (first, early) at h))
    | inl may ↦
        let (e, requests, audit) =
          change_action-ok u (execute_row now) _ c t (rw (first, may) at h) in
        (
          rw (e, requests)
              (find-update (λ (r : ActionRecord). r.action_id) u (execute_row now) t.requests
                (λ r. unfold execute_row in refl) f),
          rw e (unfold execute_row in refl),
        )
  ]
]

-- After an execution, executing again, by anybody, on a current schema, returns the record of the
-- first execution and changes nothing.
pub execute_action-again :
    (principal : String → Digest) (schema schema' : Schema) (now later : Timestamp) (ev ev' : Uuid)
    (subject subject' : String) (u : Uuid) (t : Tables) {x : ActionRecord × Tables}
    → execute_action principal schema now ev subject u t ≡ ok x
    → require_current_schema schema' ≡ ok tt
    → execute_action principal schema' later ev' subject' u x.1 ≡ ok x
unfolding execute_action
execute_action-again principal schema schema' now later ev ev' subject subject' u t {x} h s =
    let (_, _, g) = >>=-eq-ok (require_current_schema schema) _ h in
    let (c, m, k) = >>=-eq-ok (or_raise (row_of u t) action_not_found) _ g in
    let (f, st) = execute_current-row now ev (principal subject) u t c (or_raise-ok _ _ m) k in
    rw (s, f) (unfold execute_current in ground (arith, st))
