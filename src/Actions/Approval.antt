-- ===== src/Actions/Approval.antt =====
-- The transactions on actions keep separation of duties and a complete audit trail.
use customer_data_foundation.Prelude.{
  ◌≡◌, refl, sym, ap, ◌∙◌, subst, true, not, ◌&&◌, List, [], ◌∷◌, ◌++◌, Option, none, some, arith,
  ok, All-append, Bool-cases, inl, inr, any_of, find, ◌==◌, ==→eq, In, String, ok-injective,
  >>=-eq-ok, find_sound, guard, All-In, Error, database_error, or_raise, action_not_found, ==_refl,
}
use customer_data_foundation.Sql.{
  Uuid, Digest, Timestamp, update, map-update, All-update, Unique-append, Unique-In,
}
use customer_data_foundation.Database.{Schema, require_current_schema}
use customer_data_foundation.Actions.{
  ActionRecord, AuditEvent, proposed, Tables, PlannedAction, ActionArguments, new_request,
  create_action_request, approve_row, execute_row, change_action, approve_current, approve_action,
  execute_current, execute_action, record_audit, is_pending, is_approved, is_executed, same_digest,
}
use customer_data_foundation.Actions.Audit.{
  logs, IsRowValid, IsValid, any_of-append_last, All-grow, approve_row-IsRowValid,
  execute_row-IsRowValid,
}

record_audit-ok :
    (a : AuditEvent) (audit : List AuditEvent) {audit' : List AuditEvent}
    → record_audit a audit ≡ ok audit'
    → audit' ≡ audit ++ a ∷ []
unfolding record_audit
record_audit-ok a audit h = ground (arith, h)

-- what a change of one action has done
pub change_action-ok :
    (u : Uuid) (f : ActionRecord → ActionRecord) (a : AuditEvent) (c : ActionRecord) (t : Tables)
    {x : ActionRecord × Tables}
    → change_action u f a c t ≡ ok x
    → (x.0 ≡ f c)
      × (x.1.requests ≡ update (λ (r : ActionRecord). r.action_id == u) f t.requests)
      × (x.1.audit ≡ t.audit ++ a ∷ [])
unfolding change_action
change_action-ok u f a c t h =
    let (audit, m, g) = >>=-eq-ok (record_audit a t.audit) _ h in
    let e = ok-injective g in
    (
      sym (ap (λ y. y.0) e),
      sym (ap (λ y. y.1.requests) e),
      sym (ap (λ y. y.1.audit) e) ∙ record_audit-ok a t.audit m,
    )

-- A change of the row `c` that keeps its key, recorded in the trail, keeps the tables valid.
change_action-IsValid :
    (u : Uuid) (f : ActionRecord → ActionRecord) (a : AuditEvent) (c : ActionRecord) (t : Tables)
    {x : ActionRecord × Tables}
    → IsValid t
    → In c t.requests
    → (c.action_id == u) ≡ true
    → ((r : ActionRecord) → (f r).action_id ≡ r.action_id)
    → IsRowValid (t.audit ++ a ∷ []) (f c)
    → change_action u f a c t ≡ ok x
    → IsValid x.1
change_action-IsValid u f a c t {x} v m k hk hv h =
    let (_, requests, audit) = change_action-ok u f a c t h in
    record {
      rows_valid =
          rw (requests, audit)
            (All-update (IsRowValid (t.audit ++ a ∷ [])) (λ (r : ActionRecord). r.action_id == u) f
              t.requests
              (λ r n e _. subst (λ z. IsRowValid (t.audit ++ a ∷ []) (f z)) (one r n e) hv)
              (All-grow t.audit a t.requests v.rows_valid));
      action_key =
          rw
            (
              requests,
              map-update (λ (r : ActionRecord). r.action_id)
                  (λ (r : ActionRecord). r.action_id == u) f t.requests hk,
            )
            v.action_key;
    }
  where
    one : (r : ActionRecord) → In r t.requests → (r.action_id == u) ≡ true → c ≡ r
    one r n e =
        Unique-In (λ (q : ActionRecord). q.action_id) t.requests v.action_key m n
          (==→eq _ _ k ∙ sym (==→eq _ _ e))

-- the row of an action in valid tables is valid
All-row : (t : Tables) (c : ActionRecord) → IsValid t → In c t.requests → IsRowValid t.audit c
All-row t c v m = All-In (IsRowValid t.audit) t.requests v.rows_valid m

approve_current-IsValid :
    (now : Timestamp) (ev : Uuid) (d : Digest) (u : Uuid) (t : Tables) (c : ActionRecord)
    {x : ActionRecord × Tables}
    → IsValid t
    → In c t.requests
    → (c.action_id == u) ≡ true
    → approve_current now ev d u t c ≡ ok x
    → IsValid x.1
unfolding approve_current
approve_current-IsValid now ev d u t c v m k h = elim (Bool-cases (c.requester_hash == d)) [
  | inl self ↦ absurd (ground (arith, h, self))
  | inr other ↦ elim (Bool-cases (is_approved c.status && same_digest c.approver_hash d)) [
    | inl again ↦
        subst (λ (y : ActionRecord × Tables). IsValid y.1) (ok-injective (rw (other, again) at h)) v
    | inr first ↦ elim (Bool-cases (is_pending c.status)) [
      | inr late ↦ absurd (ground (arith, rw (other, first, late) at h))
      | inl waits ↦
          change_action-IsValid u (approve_row now d) _ c t v m k (λ r. unfold approve_row in refl)
            (approve_row-IsRowValid now d t.audit _ c (ground (arith, waits))
              (ground (arith, other)) (ground (arith, k)) (All-row t c v m))
            (rw (other, first, waits) at h)
    ]
  ]
]

execute_current-IsValid :
    (now : Timestamp) (ev : Uuid) (d : Digest) (u : Uuid) (t : Tables) (c : ActionRecord)
    {x : ActionRecord × Tables}
    → IsValid t
    → In c t.requests
    → (c.action_id == u) ≡ true
    → execute_current now ev d u t c ≡ ok x
    → IsValid x.1
unfolding execute_current
execute_current-IsValid now ev d u t c v m k h = elim (Bool-cases (is_executed c.status)) [
  | inl again ↦ subst (λ (y : ActionRecord × Tables). IsValid y.1) (ok-injective (rw again at h)) v
  | inr first ↦ elim (Bool-cases (is_approved c.status)) [
    | inr early ↦ absurd (ground (arith, rw (first, early) at h))
    | inl may ↦
        change_action-IsValid u (execute_row now) _ c t v m k (λ r. unfold execute_row in refl)
          (execute_row-IsRowValid now t.audit _ c (ground (arith, may)) (ground (arith, k))
            (All-row t c v m))
          (rw (first, may) at h)
  ]
]

pub or_raise-ok : {A : Type 0} (o : Option A) (e : Error) {a : A} → or_raise o e ≡ ok a → o ≡ some a
or_raise-ok none e h = cc
or_raise-ok (some b) e h = ap some (ok-injective h)

-- Approving an action keeps the tables valid.
pub approve_action-IsValid :
    (principal : String → Digest) (schema : Schema) (now : Timestamp) (ev : Uuid) (subject : String)
    (u : Uuid) (t : Tables) {x : ActionRecord × Tables}
    → IsValid t
    → approve_action principal schema now ev subject u t ≡ ok x
    → IsValid x.1
unfolding approve_action
approve_action-IsValid principal schema now ev subject u t v h =
    let (_, s, g) = >>=-eq-ok (require_current_schema schema) _ h in
    let (c, m, k) =
      >>=-eq-ok
        (or_raise (find (λ (r : ActionRecord). r.action_id == u) t.requests) action_not_found) _
        g in
    let (i, e) =
      find_sound (λ (r : ActionRecord). r.action_id == u) t.requests (or_raise-ok _ _ m) in
    approve_current-IsValid now ev (principal subject) u t c v i e k

-- Executing an action keeps the tables valid.
pub execute_action-IsValid :
    (principal : String → Digest) (schema : Schema) (now : Timestamp) (ev : Uuid) (subject : String)
    (u : Uuid) (t : Tables) {x : ActionRecord × Tables}
    → IsValid t
    → execute_action principal schema now ev subject u t ≡ ok x
    → IsValid x.1
unfolding execute_action
execute_action-IsValid principal schema now ev subject u t v h =
    let (_, s, g) = >>=-eq-ok (require_current_schema schema) _ h in
    let (c, m, k) =
      >>=-eq-ok
        (or_raise (find (λ (r : ActionRecord). r.action_id == u) t.requests) action_not_found) _
        g in
    let (i, e) =
      find_sound (λ (r : ActionRecord). r.action_id == u) t.requests (or_raise-ok _ _ m) in
    execute_current-IsValid now ev (principal subject) u t c v i e k

new_request-IsRowValid :
    (principal : String → Digest) (sha256 : ActionArguments → Digest) (now : Timestamp) (u : Uuid)
    (subject : String) (planned : PlannedAction) (audit : List AuditEvent) (a : AuditEvent)
    → logs proposed (new_request principal sha256 now u subject planned) (principal subject) a
      ≡ true
    → IsRowValid (audit ++ a ∷ []) (new_request principal sha256 now u subject planned)
unfolding new_request
new_request-IsRowValid principal sha256 now u subject planned audit a l = record {
  requested =
      any_of-append_last
        (logs proposed (new_request principal sha256 now u subject planned) (principal subject))
        audit a l;
  waiting = λ _. (refl, refl, refl);
  allowed = λ h. absurd (ground (arith, h));
  done = λ h. absurd (ground (arith, h));
  no_other = ground arith;
}

-- Requesting an action keeps the tables valid.
pub create_action_request-IsValid :
    (principal : String → Digest) (sha256 : ActionArguments → Digest) (schema : Schema)
    (now : Timestamp) (u ev : Uuid) (subject : String) (planned : PlannedAction) (t : Tables)
    {x : ActionRecord × Tables}
    → IsValid t
    → create_action_request principal sha256 schema now u ev subject planned t ≡ ok x
    → IsValid x.1
unfolding create_action_request
create_action_request-IsValid principal sha256 schema now u ev subject planned t v h =
    let (_, _, g) = >>=-eq-ok (require_current_schema schema) _ h in
    let (_, fresh, k) =
      >>=-eq-ok
        (guard (not (any_of (λ (r : ActionRecord). r.action_id == u) t.requests)) database_error) _
        g in
    let (audit, m, j) = >>=-eq-ok (record_audit _ t.audit) _ k in
    let e = ok-injective j in
    let q : ActionRecord = new_request principal sha256 now u subject planned in
    subst IsValid (ap (λ y. y.1) e) (record {
      rows_valid = rw (record_audit-ok _ t.audit m) (
          All-append (IsRowValid (t.audit ++ _ ∷ [])) t.requests (q ∷ [])
            (All-grow t.audit _ t.requests v.rows_valid)
            (
              new_request-IsRowValid principal sha256 now u subject planned t.audit _
                  (ground (arith, ==_refl u)),
              tt,
            ));
      action_key =
          Unique-append (λ (r : ActionRecord). r.action_id) t.requests q (ground (arith, fresh))
            v.action_key;
    })
