-- ===== src/Api/Separation.antt =====
-- What the handlers of controlled actions answer, and to whom.
use customer_data_foundation.Prelude.{
  ℕ, ◌≡◌, ◌≢◌, ◌⊎◌, refl, Bool, true, false, Option, none, some, String, Result, ok, err, Error,
  arith, Bool-cases, inl, inr, find, ◌==◌, ==→eq, >>=-eq-ok, ok-injective, or_raise,
  action_not_found,
}
use customer_data_foundation.Sql.{Uuid, Digest, Timestamp}
use customer_data_foundation.Database.{Schema, require_current_schema}
use customer_data_foundation.Actions.{ActionRecord, Tables, approved, approve_action, get_action}
use customer_data_foundation.Actions.Approval.{or_raise-ok}
use customer_data_foundation.Actions.Replay.{approve_current-row}
use customer_data_foundation.Api.{answer-injective, answer, refused, Principal, has_role}
use customer_data_foundation.Api.Imports.{transact}
use customer_data_foundation.Api.ActionCalls.{
  refuse_approval, answer_approval, approve_controlled_action, answer_record,
  read_controlled_action,
}

refused_ne : {A : Type 0} {c : ℕ} {code : String} {a : A} → refused c code ≡ answer a → ⊥
refused_ne h = cc

refuse_approval-refuses : {A : Type 0} (e : Error) {a : A} → refuse_approval e ≡ answer a → ⊥
unfolding refuse_approval
refuse_approval-refuses e h = ground (arith, h)

module _ (principal : String → Digest) where
  -- an approval that the store has done, or had done
  pub record ApprovedBy (p : Principal) (action_id : Uuid) (r : ActionRecord) (t : Tables)
      : Type 0 where
    pub is_approved : r.status ≡ approved
    pub by_caller : r.approver_hash ≡ some (principal p.subject)
    pub not_own : r.requester_hash ≢ principal p.subject
    pub stored : find (λ (q : ActionRecord). q.action_id == action_id) t.requests ≡ some r

  approve_action-ApprovedBy :
      (schema : Schema) (now : Timestamp) (ev : Uuid) (p : Principal) (u : Uuid) (t : Tables)
      {x : ActionRecord × Tables}
      → approve_action principal schema now ev p.subject u t ≡ ok x
      → ApprovedBy p u x.0 x.1
  unfolding approve_action
  approve_action-ApprovedBy schema now ev p u t {x} h =
      let (_, _, g) = >>=-eq-ok (require_current_schema schema) _ h in
      let (c, m, k) =
        >>=-eq-ok
          (or_raise (find (λ (q : ActionRecord). q.action_id == u) t.requests) action_not_found) _
          g in
      let (f, st, by, other) =
        approve_current-row now ev (principal p.subject) u t c (or_raise-ok _ _ m) k in
      record { is_approved = st; by_caller = by; not_own = other; stored = f }

  answer_approval-ok :
      (t : Tables) (m : Result (ActionRecord × Tables)) {r : ActionRecord}
      → (answer_approval t m).0 ≡ answer r
      → (x : ActionRecord × Tables) × (m ≡ ok x) × (x.0 ≡ r) × ((answer_approval t m).1 ≡ x.1)
  unfolding answer_approval
  answer_approval-ok t (err e) h = absurd (refuse_approval-refuses e h)
  answer_approval-ok t (ok x) h = (x, refl, answer-injective h, refl)

  -- An approval is answered only to an auditor, with a record that is stored as approved by that
  -- caller and was requested by somebody else.
  pub approve_controlled_action-ApprovedBy :
      (connected : Bool) (schema : Schema) (now : Timestamp) (ev : Uuid) (p : Principal) (u : Uuid)
      (t : Tables) {r : ActionRecord}
      → (approve_controlled_action principal connected schema now ev p u t).0 ≡ answer r
      → (has_role "auditor" p ≡ true)
        × ApprovedBy p u r (approve_controlled_action principal connected schema now ev p u t).1
  unfolding approve_controlled_action
  approve_controlled_action-ApprovedBy connected schema now ev p u t {r} h =
      elim (Bool-cases (has_role "auditor" p)) [
        | inr other ↦ absurd (refused_ne (rw other at h))
        | inl auditor ↦
            let (x, m, same, after) =
              answer_approval-ok t
                (transact connected (approve_action principal schema now ev p.subject u t))
                (rw auditor at h) in
            (
              auditor,
              rw (auditor, after, ← same)
                  (approve_action-ApprovedBy schema now ev p u t (reached connected m)),
            )
      ]
    where
      reached :
          (b : Bool) {m : Result (ActionRecord × Tables)} {x : ActionRecord × Tables}
          → transact b m ≡ ok x
          → m ≡ ok x
      reached false k = absurd (cc)
      reached true k = k

  answer_record-private :
      (p : Principal) (m : Result (Option ActionRecord)) {r : ActionRecord}
      → answer_record principal p m ≡ answer r
      → (m ≡ ok (some r))
        × ((has_role "auditor" p ≡ true) ⊎ (r.requester_hash ≡ principal p.subject))
  unfolding answer_record
  answer_record-private p (err e) h = absurd (cc)
  answer_record-private p (ok none) h = absurd (cc)
  answer_record-private p (ok (some c)) {r} h = elim (Bool-cases (has_role "auditor" p)) [
    | inl auditor ↦ (rw (answer-injective (rw auditor at h)) refl, inl auditor)
    | inr operator ↦ elim (Bool-cases (c.requester_hash == principal p.subject)) [
      | inr other ↦ absurd (refused_ne (rw (operator, other) at h))
      | inl own ↦
          let same : c ≡ r = answer-injective (rw (operator, own) at h) in
          (rw same refl, inr (rw (← same) (==→eq _ _ own)))
    ]
  ]

  -- A record is shown only to an auditor or to the principal that requested it, and what is shown is
  -- the stored row.
  pub read_controlled_action-private :
      (connected : Bool) (schema : Schema) (u : Uuid) (p : Principal) (t : Tables)
      {r : ActionRecord}
      → read_controlled_action principal connected schema u p t ≡ answer r
      → (find (λ (q : ActionRecord). q.action_id == u) t.requests ≡ some r)
        × ((has_role "auditor" p ≡ true) ⊎ (r.requester_hash ≡ principal p.subject))
  unfolding read_controlled_action get_action
  read_controlled_action-private connected schema u p t {r} h =
      let (m, may) = answer_record-private p (transact connected (get_action schema u t)) h in
      (found connected m, may)
    where
      found :
          (b : Bool)
          → transact b (get_action schema u t) ≡ ok (some r)
          → find (λ (q : ActionRecord). q.action_id == u) t.requests ≡ some r
      found false m = absurd (cc)
      found true m = let (_, _, k) = >>=-eq-ok (require_current_schema schema) _ m in ok-injective k
