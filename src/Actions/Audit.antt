-- ===== src/Actions/Audit.antt =====
-- The audit trail of actions: what holds of each action, and that the trail only grows.
use customer_data_foundation.Prelude.{
  ◌≡◌, ◌≢◌, refl, sym, Bool, true, false, ◌&&◌, List, [], ◌∷◌, ◌++◌, map, none, some, arith, All,
  any_of, ◌==◌,
}
use customer_data_foundation.Sql.{Digest, Timestamp, Unique}
use customer_data_foundation.Actions.{
  ActionRecord, AuditEvent, EventType, proposed, approval, execution, pending, approved, executed,
  rejected, expired, Tables, approve_row, execute_row, simulated_followup_queued,
}

abbrev pub same_type : EventType → EventType → Bool
same_type proposed proposed = true
same_type approval approval = true
same_type execution execution = true
same_type _ _ = false

-- the audit trail has an event of this type for the action and its arguments, by that actor
abbrev pub logs : EventType → ActionRecord → Digest → AuditEvent → Bool
logs k r actor a =
    a.action_id == r.action_id
    && same_type a.event_type k
    && a.actor_hash == actor
    && a.arguments_sha256 == r.arguments_sha256

abbrev pub executes : ActionRecord → AuditEvent → Bool
executes r a =
    a.action_id == r.action_id
    && same_type a.event_type execution
    && a.arguments_sha256 == r.arguments_sha256

-- an approval by somebody else than the requester, which the trail shows
abbrev pub Approved : List AuditEvent → ActionRecord → Type 0
Approved audit r =
    (d : Digest) × (r.approver_hash ≡ some d)
    × (d ≢ r.requester_hash)
    × (any_of (logs approval r d) audit ≡ true)

pub record IsRowValid (audit : List AuditEvent) (r : ActionRecord) : Type 0 where
  pub requested : any_of (logs proposed r r.requester_hash) audit ≡ true
  pub waiting :
      r.status ≡ pending
      → (r.approver_hash ≡ none) × (r.executed_at ≡ none) × (r.result_code ≡ none)
  pub allowed :
      r.status ≡ approved → Approved audit r × (r.executed_at ≡ none) × (r.result_code ≡ none)
  pub done :
      r.status ≡ executed
      → Approved audit r
        × (any_of (executes r) audit ≡ true)
        × (r.result_code ≡ some simulated_followup_queued)
  pub no_other : (r.status ≢ rejected) × (r.status ≢ expired)

pub record IsValid (t : Tables) : Type 0 where
  pub rows_valid : All (IsRowValid t.audit) t.requests
  pub action_key : Unique (map (λ (r : ActionRecord). r.action_id) t.requests)

pub any_of-append_left :
    (test : AuditEvent → Bool) (xs ys : List AuditEvent)
    → any_of test xs ≡ true
    → any_of test (xs ++ ys) ≡ true
any_of-append_left test [] ys h = absurd (cc)
any_of-append_left test (x ∷ xs) ys h = ground (arith, any_of-append_left test xs ys)

pub any_of-append_last :
    (test : AuditEvent → Bool) (xs : List AuditEvent) (a : AuditEvent)
    → test a ≡ true
    → any_of test (xs ++ a ∷ []) ≡ true
any_of-append_last test [] a h = rw h
any_of-append_last test (x ∷ xs) a h = ground (arith, any_of-append_last test xs a h)

pub Approved-append :
    (audit : List AuditEvent) (a : AuditEvent) (r : ActionRecord)
    → Approved audit r
    → Approved (audit ++ a ∷ []) r
Approved-append audit a r (d, e, n, l) =
    (d, e, n, any_of-append_left (logs approval r d) audit (a ∷ []) l)

-- the audit trail only grows
pub IsRowValid-append :
    (audit : List AuditEvent) (a : AuditEvent) (r : ActionRecord)
    → IsRowValid audit r
    → IsRowValid (audit ++ a ∷ []) r
IsRowValid-append audit a r v = record {
  requested = any_of-append_left (logs proposed r r.requester_hash) audit (a ∷ []) v.requested;
  waiting = v.waiting;
  allowed = λ h. let (p, q, s) = v.allowed h in (Approved-append audit a r p, q, s);
  done = λ h.
      let (p, q, s) = v.done h in
      (Approved-append audit a r p, any_of-append_left (executes r) audit (a ∷ []) q, s);
  no_other = v.no_other;
}

pub All-grow :
    (audit : List AuditEvent) (a : AuditEvent) (rs : List ActionRecord)
    → All (IsRowValid audit) rs
    → All (IsRowValid (audit ++ a ∷ [])) rs
All-grow audit a [] h = tt
All-grow audit a (r ∷ rs) h = (IsRowValid-append audit a r h.0, All-grow audit a rs h.1)

pub approve_row-IsRowValid :
    (now : Timestamp) (d : Digest) (audit : List AuditEvent) (a : AuditEvent) (r : ActionRecord)
    → r.status ≡ pending
    → r.requester_hash ≢ d
    → logs approval r d a ≡ true
    → IsRowValid audit r
    → IsRowValid (audit ++ a ∷ []) (approve_row now d r)
unfolding approve_row
approve_row-IsRowValid now d audit a r s n l v =
    let (_, unexecuted, uncoded) = v.waiting s in
    record {
      requested = any_of-append_left (logs proposed r r.requester_hash) audit (a ∷ []) v.requested;
      waiting = λ h. absurd (ground (arith, h));
      allowed = λ h. (
        (d, refl, λ e. n (sym e), any_of-append_last (logs approval r d) audit a l),
        unexecuted,
        uncoded,
      );
      done = λ h. absurd (ground (arith, h));
      no_other = ground arith;
    }

pub execute_row-IsRowValid :
    (now : Timestamp) (audit : List AuditEvent) (a : AuditEvent) (r : ActionRecord)
    → r.status ≡ approved
    → executes r a ≡ true
    → IsRowValid audit r
    → IsRowValid (audit ++ a ∷ []) (execute_row now r)
unfolding execute_row
execute_row-IsRowValid now audit a r s l v = record {
  requested = any_of-append_left (logs proposed r r.requester_hash) audit (a ∷ []) v.requested;
  waiting = λ h. absurd (ground (arith, h));
  allowed = λ h. absurd (ground (arith, h));
  done = λ h.
      (Approved-append audit a r (v.allowed s).0, any_of-append_last (executes r) audit a l, refl);
  no_other = ground arith;
}
