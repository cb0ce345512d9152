-- ===== src/Outbox/Fencing.antt =====
-- The fencing token `attempt_count`: which worker may finish an attempt.
use customer_data_foundation.Prelude.{
  ℕ, ◌+◌, ◌*◌, ◌≤◌, ◌<◌, ◌≡◌, ◌≢◌, refl, Bool, true, false, List, Option, none, some, arith, ok,
  Bool-cases, inl, inr, In, All, if◌then◌else◌, sym, ◌∙◌, subst, ◌==◌, ==→eq, >>=-eq-ok, ==_refl,
}
use customer_data_foundation.Sql.{
  Uuid, Timestamp, second, update, In-update, Unique-In, any_of-false, update_id, All_of-In,
  In-any_of,
}
use customer_data_foundation.Database.{Schema, require_current_schema}
use customer_data_foundation.Outbox.{
  delivered, FailureCode, Row, OutboxEvent, stale_attempt, event_from_row, candidate, claim_row,
  claim_candidate, claim_next_event, holds_lease, deliver_row, mark_delivered, fail_row,
  next_status, backoff_seconds, mark_failed_attempt,
}
use customer_data_foundation.Outbox.Claim.{eligible, Picks, candidate-Picks}
use customer_data_foundation.Outbox.Validity.{IsValid, claim_next_event-IsValid}
use customer_data_foundation.Outbox.Trace.{Reach, Reach-IsValid, Reach-Later}

-- a table in which no row holds the lease of the event
nobody_holds :
    (e : OutboxEvent) (r : Row) (rows : List Row)
    → IsValid rows
    → In r rows
    → r.event_id ≡ e.event_id
    → holds_lease e r ≡ false
    → All (λ q. holds_lease e q ≡ false) rows
nobody_holds e r rows v m same off =
    All_of-In (λ q. holds_lease e q ≡ false) rows
      λ q n. elim (Bool-cases (q.event_id == e.event_id)) [
        | inl t ↦
            let one : q ≡ r =
              Unique-In (λ (x : Row). x.event_id) rows v.event_key n m (==→eq _ _ t ∙ sym same) in
            rw one off
        | inr f ↦ rw f
      ]

-- what both marks do with a token that no row honours
refuse :
    (schema : Schema) (now : Timestamp) (e : OutboxEvent) (c : FailureCode) (retry : Bool)
    (m b x : ℕ) (rows : List Row) {u : Unit {0}}
    → require_current_schema schema ≡ ok u
    → All (λ q. holds_lease e q ≡ false) rows
    → (mark_delivered schema now e rows ≡ ok (false, rows))
      × (mark_failed_attempt schema now e c retry m b x rows ≡ ok (stale_attempt, rows))
unfolding mark_delivered mark_failed_attempt
refuse schema now e c retry m b x rows s h = (
  rw (s, any_of-false (holds_lease e) rows h, update_id (holds_lease e) (deliver_row now) rows h),
  rw (
    s,
    any_of-false (holds_lease e) rows h,
    update_id (holds_lease e)
        (fail_row now (next_status e.attempt_count retry m) (backoff_seconds e.attempt_count b x) c)
        rows h,
  ),
)

-- In a valid table, once the event of a worker has been reserved again, so that its row counts more
-- attempts than the worker's token, the token is refused for good: in every table that later
-- transactions reach, on a current schema, neither mark changes anything, and they answer `False`
-- and `stale_attempt`.
pub mark-stale :
    (schema : Schema) (now : Timestamp) (e : OutboxEvent) (c : FailureCode) (retry : Bool)
    (m b x : ℕ) (r : Row) {rows rows' : List Row} {u : Unit {0}}
    → require_current_schema schema ≡ ok u
    → IsValid rows
    → In r rows
    → r.event_id ≡ e.event_id
    → e.attempt_count < r.attempt_count
    → Reach rows rows'
    → (mark_delivered schema now e rows' ≡ ok (false, rows'))
      × (mark_failed_attempt schema now e c retry m b x rows' ≡ ok (stale_attempt, rows'))
mark-stale schema now e c retry m b x r {rows} {rows'} s v i same old k =
    let (q, j, w) = Reach-Later r k v i in
    refuse schema now e c retry m b x rows' s (
      nobody_holds e q rows' (Reach-IsValid k v) j (w.same_event ∙ same) (outrun q w.attempts_grow))
  where
    outrun : (q : Row) → r.attempt_count ≤ q.attempt_count → holds_lease e q ≡ false
    outrun q g = ground (arith, old, g)

-- In a valid table an event that is delivered stays as it is: every table that later transactions
-- reach has its row, and on a current schema no token of the event, old or new, can mark it again.
pub mark-delivered_once :
    (schema : Schema) (now : Timestamp) (e : OutboxEvent) (c : FailureCode) (retry : Bool)
    (m b x : ℕ) (r : Row) {rows rows' : List Row} {u : Unit {0}}
    → require_current_schema schema ≡ ok u
    → IsValid rows
    → In r rows
    → r.event_id ≡ e.event_id
    → r.status ≡ delivered
    → Reach rows rows'
    → In r rows'
      × (mark_delivered schema now e rows' ≡ ok (false, rows'))
      × (mark_failed_attempt schema now e c retry m b x rows' ≡ ok (stale_attempt, rows'))
mark-delivered_once schema now e c retry m b x r {rows} {rows'} s v i same done k =
    let (q, j, w) = Reach-Later r k v i in
    let still : In r rows' = subst (λ z. In z rows') (w.final_stays (inl done)) j in
    let both : (mark_delivered schema now e rows' ≡ ok (false, rows'))
        × (mark_failed_attempt schema now e c retry m b x rows' ≡ ok (stale_attempt, rows')) =
      refuse schema now e c retry m b x rows' s
        (nobody_holds e r rows' (Reach-IsValid k v) still same (ground (arith, done))) in
    (still, both.0, both.1)

-- what a claim that returns an event has done
pub claim_candidate-some :
    (now : Timestamp) (locked : List Uuid) (lease : ℕ) (rows : List Row) (o : Option Row)
    {e : OutboxEvent} {rows' : List Row}
    → Picks now locked rows o
    → claim_candidate now lease rows o ≡ (some e, rows')
    → (c : Row) × In c rows
      × (eligible now locked c ≡ true)
      × (e ≡ event_from_row (claim_row now lease c))
      × (rows' ≡ update (λ (r : Row). r.event_id == c.event_id) (claim_row now lease) rows)
unfolding claim_candidate
claim_candidate-some now locked lease rows none p h = absurd (ground (arith, h))
claim_candidate-some now locked lease rows (some c) p h =
    (c, p.member, p.is_eligible, ground (arith, h), ground (arith, h))

-- a reserved event: its row before, and the table after
pub record Claimed (now : Timestamp) (locked : List Uuid) (lease : ℕ) (rows : List Row)
    (e : OutboxEvent) (rows' : List Row) (c : Row) : Type 0 where
  pub member : In c rows
  pub is_eligible : eligible now locked c ≡ true
  pub returned : e ≡ event_from_row (claim_row now lease c)
  pub table : rows' ≡ update (λ (r : Row). r.event_id == c.event_id) (claim_row now lease) rows

pub claim_next_event-Claimed :
    (schema : Schema) (now : Timestamp) (locked : List Uuid) (lease : ℕ) (rows : List Row)
    {e : OutboxEvent} {rows' : List Row}
    → claim_next_event schema now locked lease rows ≡ ok (some e, rows')
    → (require_current_schema schema ≡ ok tt)
      × ((c : Row) × Claimed now locked lease rows e rows' c)
unfolding claim_next_event
claim_next_event-Claimed schema now locked lease rows h =
    let (u, s, g) = >>=-eq-ok (require_current_schema schema) _ h in
    let (c, m, t, r, b) =
      claim_candidate-some now locked lease rows (candidate now locked rows)
        (candidate-Picks now locked rows) (cc) in
    (s, (c, record { member = m; is_eligible = t; returned = r; table = b }))

-- the row of a reserved event is in the new table, and honours the token
pub Claimed-holds :
    (now : Timestamp) (locked : List Uuid) (lease : ℕ) (rows : List Row) (e : OutboxEvent)
    (rows' : List Row) (c : Row)
    → Claimed now locked lease rows e rows' c
    → In (claim_row now lease c) rows' × (holds_lease e (claim_row now lease c) ≡ true)
unfolding claim_row event_from_row
Claimed-holds now locked lease rows e rows' c k = (
  subst (λ t. In (claim_row now lease c) t) (sym k.table)
      (subst
        (λ (b : Bool).
          In (if b then claim_row now lease c else c)
            (update (λ (r : Row). r.event_id == c.event_id) (claim_row now lease) rows))
        (==_refl c.event_id)
        (In-update (λ (r : Row). r.event_id == c.event_id) (claim_row now lease) rows c k.member)),
  rw k.returned (ground (arith, ==_refl c.event_id)),
)

-- A worker that reserved an event and comes back before anyone else touched it finishes it: the
-- mark succeeds, and the table then holds the event as delivered.
pub mark_delivered-claim :
    (schema : Schema) (now later : Timestamp) (locked : List Uuid) (lease : ℕ) (rows : List Row)
    {e : OutboxEvent} {rows' : List Row}
    → claim_next_event schema now locked lease rows ≡ ok (some e, rows')
    → ((rows'' : List Row) × (mark_delivered schema later e rows' ≡ ok (true, rows''))
        × ((r : Row) × In r rows'' × (r.event_id ≡ e.event_id) × (r.status ≡ delivered)))
unfolding mark_delivered
mark_delivered-claim schema now later locked lease rows {e} {rows'} h =
    let (s, (c, k)) = claim_next_event-Claimed schema now locked lease rows h in
    let (i, t) = Claimed-holds now locked lease rows e rows' c k in
    let q : Row = claim_row now lease c in
    (
      update (holds_lease e) (deliver_row later) rows',
      rw (s, In-any_of (holds_lease e) rows' i t),
      (
        deliver_row later q,
        subst
            (λ (b : Bool).
              In (if b then deliver_row later q else q)
                (update (holds_lease e) (deliver_row later) rows'))
            t (In-update (holds_lease e) (deliver_row later) rows' q i),
        unfold deliver_row claim_row event_from_row in rw k.returned,
        unfold deliver_row in refl,
      ),
    )

still_leased :
    (now later : Timestamp) (held : List Uuid) (lease : ℕ) (c : Row)
    → later < now + lease * second
    → eligible later held (claim_row now lease c) ≡ true
    → ⊥
unfolding claim_row
still_leased now later held lease c early x = ground (arith, early, x)

Claimed-event_id :
    (now : Timestamp) (locked : List Uuid) (lease : ℕ) (rows : List Row) (e : OutboxEvent)
    (rows' : List Row) (c : Row)
    → Claimed now locked lease rows e rows' c
    → c.event_id ≡ e.event_id
unfolding claim_row event_from_row
Claimed-event_id now locked lease rows e rows' c k = rw k.returned

-- In a valid table, while the lease of a reserved event lasts, the next reservation that returns an
-- event returns another one.
pub claim-exclusive :
    (schema : Schema) (now later : Timestamp) (locked held : List Uuid) (lease lease' : ℕ)
    (rows : List Row) {e f : OutboxEvent} {rows' rows'' : List Row}
    → IsValid rows
    → claim_next_event schema now locked lease rows ≡ ok (some e, rows')
    → later < now + lease * second
    → claim_next_event schema later held lease' rows' ≡ ok (some f, rows'')
    → f.event_id ≢ e.event_id
claim-exclusive schema now later locked held lease lease' rows {e} {f} {rows'} {rows''} v h early g
      same =
    let v' : IsValid rows' = rw h at (claim_next_event-IsValid schema now locked lease rows v) in
    let (s, (c, k)) = claim_next_event-Claimed schema now locked lease rows h in
    let (z, (d, l)) = claim_next_event-Claimed schema later held lease' rows' g in
    let (i, t) = Claimed-holds now locked lease rows e rows' c k in
    let ids : d.event_id ≡ (claim_row now lease c).event_id =
      Claimed-event_id later held lease' rows' f rows'' d l
      ∙ same
      ∙ sym (Claimed-event_id now locked lease rows e rows' c k)
      ∙ (unfold claim_row in refl) in
    let one : d ≡ claim_row now lease c =
      Unique-In (λ (x : Row). x.event_id) rows' v'.event_key l.member i ids in
    still_leased now later held lease c early (rw one at l.is_eligible)
