-- ===== src/Outbox/Trace.antt =====
-- Every interleaving of the transactions of importers and workers on the outbox table.
use customer_data_foundation.Prelude.{
  ℕ, ◌≤◌, ◌≡◌, refl, Bool, true, List, [], ◌∷◌, Option, none, some, arith, Result, Bool-cases,
  Result-cases, inl, inr, ◌⊎◌, In, ◌∙◌, ◌==◌, ==→eq,
}
use customer_data_foundation.Sql.{Uuid, Timestamp, update, In-update, In-append_left, Unique-In}
use customer_data_foundation.Database.{Schema, require_current_schema}
use customer_data_foundation.Outbox.{
  Status, delivered, dead_letter, FailureCode, ImportStatus, Row, OutboxEvent, new_row,
  enqueue_completed_import, claim_row, claim_candidate, claim_next_event, holds_lease, deliver_row,
  mark_delivered, fail_row, next_status, backoff_seconds, mark_failed_attempt,
}
use customer_data_foundation.Outbox.Claim.{eligible, Picks, candidate-Picks}
use customer_data_foundation.Outbox.Validity.{
  IsValid, Enqueued, known, taken, added, table_after, enqueue_completed_import-cases,
  enqueue_completed_import-IsValid, claim_next_event-IsValid, mark_delivered-IsValid,
  mark_failed_attempt-IsValid,
}

-- one transaction, committed or refused, at any time and with any arguments
pub data Step (rows rows' : List Row) : Type 0 where
  enqueues :
      (e : Uuid) (now : Timestamp) (o : Uuid) (s : ImportStatus) (t i x : ℕ)
      → rows' ≡ table_after (enqueue_completed_import e now o s t i x rows) rows
      → Step rows rows'
  claims :
      (schema : Schema) (now : Timestamp) (locked : List Uuid) (lease : ℕ)
      → rows' ≡ table_after (claim_next_event schema now locked lease rows) rows
      → Step rows rows'
  delivers :
      (schema : Schema) (now : Timestamp) (e : OutboxEvent)
      → rows' ≡ table_after (mark_delivered schema now e rows) rows
      → Step rows rows'
  fails :
      (schema : Schema) (now : Timestamp) (e : OutboxEvent) (c : FailureCode) (retry : Bool)
      (m b x : ℕ)
      → rows' ≡ table_after (mark_failed_attempt schema now e c retry m b x rows) rows
      → Step rows rows'

pub data Reach (rows : List Row) : List Row → Type 0 where
  here : Reach rows rows
  next : {q p : List Row} → Reach rows q → Step q p → Reach rows p

pub Step-IsValid : {rows rows' : List Row} → Step rows rows' → IsValid rows → IsValid rows'
Step-IsValid {rows} (enqueues e now o s t i x h) v =
    rw h (enqueue_completed_import-IsValid e now o s t i x rows v)
Step-IsValid {rows} (claims schema now locked lease h) v =
    rw h (claim_next_event-IsValid schema now locked lease rows v)
Step-IsValid {rows} (delivers schema now e h) v = rw h (mark_delivered-IsValid schema now e rows v)
Step-IsValid {rows} (fails schema now e c retry m b x h) v =
    rw h (mark_failed_attempt-IsValid schema now e c retry m b x rows v)

-- Whatever the importers and workers do, in whatever order, a valid table stays valid.
pub Reach-IsValid : {rows rows' : List Row} → Reach rows rows' → IsValid rows → IsValid rows'
Reach-IsValid here v = v
Reach-IsValid (next r s) v = Step-IsValid s (Reach-IsValid r v)

abbrev pub IsFinal : Row → Type 0
IsFinal r = (r.status ≡ delivered) ⊎ (r.status ≡ dead_letter)

-- how one row may change
pub record Evolves (r r' : Row) : Type 0 where
  pub same_event : r'.event_id ≡ r.event_id
  pub same_operation : r'.operation_id ≡ r.operation_id
  pub same_payload : r'.payload ≡ r.payload
  pub attempts_grow : r.attempt_count ≤ r'.attempt_count
  pub final_stays : IsFinal r → r' ≡ r

abbrev pub Later : Row → List Row → Type 0
Later r rows = (r' : Row) × In r' rows × Evolves r r'

Evolves-refl : (r : Row) → Evolves r r
Evolves-refl r = record {
  same_event = refl;
  same_operation = refl;
  same_payload = refl;
  attempts_grow = omega arith;
  final_stays = λ _. refl;
}

Evolves-trans : (a b c : Row) → Evolves a b → Evolves b c → Evolves a c
Evolves-trans a b c p q = record {
  same_event = q.same_event ∙ p.same_event;
  same_operation = q.same_operation ∙ p.same_operation;
  same_payload = q.same_payload ∙ p.same_payload;
  attempts_grow = omega (arith, p.attempts_grow, q.attempts_grow);
  final_stays = λ f. let e : b ≡ a = p.final_stays f in q.final_stays (rw e f) ∙ e;
}

-- an update that only lets its rows evolve
update-Later :
    (test : Row → Bool) (f : Row → Row) (rows : List Row) (r : Row)
    → In r rows
    → (test r ≡ true → Evolves r (f r))
    → Later r (update test f rows)
update-Later test f rows r m h = elim (Bool-cases (test r)) [
  | inl e ↦ (f r, rw e at (In-update test f rows r m), h e)
  | inr e ↦ (r, rw e at (In-update test f rows r m), Evolves-refl r)
]

Enqueued-Later :
    (e o : Uuid) (q : Row) (rows : List Row) (m : Result (Uuid × List Row)) (r : Row)
    → In r rows
    → Enqueued e o q rows m
    → Later r (table_after m rows)
Enqueued-Later e o q rows m r i (known k f) = (r, i, Evolves-refl r)
Enqueued-Later e o q rows m r i (taken t) = (r, i, Evolves-refl r)
Enqueued-Later e o q rows m r i (added he ho) =
    (r, In-append_left rows (q ∷ []) r i, Evolves-refl r)

claim_row-Evolves :
    (now : Timestamp) (locked : List Uuid) (lease : ℕ) (r : Row)
    → eligible now locked r ≡ true
    → Evolves r (claim_row now lease r)
unfolding claim_row
claim_row-Evolves now locked lease r h = record {
  same_event = refl;
  same_operation = refl;
  same_payload = refl;
  attempts_grow = omega arith;
  final_stays = λ f. absurd (ground (arith, h, f));
}

claim_candidate-Later :
    (now : Timestamp) (locked : List Uuid) (lease : ℕ) (rows : List Row) (o : Option Row) (r : Row)
    → Picks now locked rows o
    → IsValid rows
    → In r rows
    → Later r (claim_candidate now lease rows o).1
unfolding claim_candidate
claim_candidate-Later now locked lease rows none r p v m = (r, m, Evolves-refl r)
claim_candidate-Later now locked lease rows (some c) r p v m =
    update-Later (λ (q : Row). q.event_id == c.event_id) (claim_row now lease) rows r m
      (λ t.
        let same : r ≡ c =
          Unique-In (λ (q : Row). q.event_id) rows v.event_key m p.member (==→eq _ _ t) in
        claim_row-Evolves now locked lease r (rw same p.is_eligible))

deliver_row-Evolves :
    (now : Timestamp) (e : OutboxEvent) (r : Row)
    → holds_lease e r ≡ true
    → Evolves r (deliver_row now r)
unfolding deliver_row
deliver_row-Evolves now e r h = record {
  same_event = refl;
  same_operation = refl;
  same_payload = refl;
  attempts_grow = omega arith;
  final_stays = λ f. absurd (ground (arith, h, f));
}

fail_row-Evolves :
    (now : Timestamp) (s : Status) (n : ℕ) (c : FailureCode) (e : OutboxEvent) (r : Row)
    → holds_lease e r ≡ true
    → Evolves r (fail_row now s n c r)
unfolding fail_row
fail_row-Evolves now s n c e r h = record {
  same_event = refl;
  same_operation = refl;
  same_payload = refl;
  attempts_grow = omega arith;
  final_stays = λ f. absurd (ground (arith, h, f));
}

-- the row of an event after a transaction
pub Step-Later :
    {rows rows' : List Row} (r : Row) → Step rows rows' → IsValid rows → In r rows → Later r rows'
unfolding claim_next_event mark_delivered mark_failed_attempt
Step-Later {rows} r (enqueues e now o s t i x h) v m = rw h (
    Enqueued-Later e o (new_row e now o s t i x) rows _ r m
      (enqueue_completed_import-cases e now o s t i x rows))
Step-Later {rows} r (claims schema now locked lease h) v m =
    elim (Result-cases (require_current_schema schema)) [
      | inl (_, p) ↦
          rw (h, p)
            (claim_candidate-Later now locked lease rows _ r (candidate-Picks now locked rows) v m)
      | inr (_, p) ↦ rw (h, p) (r, m, Evolves-refl r)
    ]
Step-Later {rows} r (delivers schema now e h) v m =
    elim (Result-cases (require_current_schema schema)) [
      | inl (_, p) ↦
          rw (h, p)
            (update-Later (holds_lease e) (deliver_row now) rows r m (deliver_row-Evolves now e r))
      | inr (_, p) ↦ rw (h, p) (r, m, Evolves-refl r)
    ]
Step-Later {rows} r (fails schema now e c retry k b x h) v m =
    elim (Result-cases (require_current_schema schema)) [
      | inl (_, p) ↦
          rw (h, p)
            (update-Later (holds_lease e)
              (fail_row now (next_status e.attempt_count retry k)
                (backoff_seconds e.attempt_count b x) c)
              rows r m
              (fail_row-Evolves now (next_status e.attempt_count retry k)
                (backoff_seconds e.attempt_count b x) c e r))
      | inr (_, p) ↦ rw (h, p) (r, m, Evolves-refl r)
    ]

-- In any sequence of transactions from a valid table an event is never lost: its row keeps its
-- event, operation and payload, its attempt count never falls, and once delivered or dead it never
-- changes again.
pub Reach-Later :
    {rows rows' : List Row} (r : Row) → Reach rows rows' → IsValid rows → In r rows → Later r rows'
Reach-Later r here v m = (r, m, Evolves-refl r)
Reach-Later r (next k s) v m =
    let (q, i, p) = Reach-Later r k v m in
    let (z, j, w) = Step-Later q s (Reach-IsValid k v) i in (z, j, Evolves-trans r q z p w)
