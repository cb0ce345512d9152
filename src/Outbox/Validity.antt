-- ===== src/Outbox/Validity.antt =====
-- What holds of the outbox table between two transactions, and that every operation keeps it.
use customer_data_foundation.Prelude.{
  In, Result-cases, ℕ, ◌≤◌, ◌≡◌, ◌≢◌, refl, Bool, true, false, List, [], ◌∷◌, ◌++◌, map, Option,
  none, some, arith, Result, ok, err, database_error, All, All-append, is_some, Bool-cases,
  Option-cases, inl, inr, any_of, find, ◌==◌, ==→eq,
}
use customer_data_foundation.Sql.{
  Uuid, Timestamp, Unique, update, map-update, All-update, Unique-append, find-none, Unique-In,
}
use customer_data_foundation.Database.{Schema, require_current_schema}
use customer_data_foundation.Outbox.{
  delivering, delivered, FailureCode, ImportStatus, Row, OutboxEvent, event_type_name, new_row,
  enqueue_completed_import, claim_row, claim_next_event, holds_lease, deliver_row, mark_delivered,
  claim_candidate, fail_row, next_status, backoff_seconds, mark_failed_attempt,
}
use customer_data_foundation.Outbox.Claim.{eligible, Picks, candidate-Picks}

pub record IsRowValid (r : Row) : Type 0 where
  pub leased : r.status ≡ delivering → (is_some r.lease_expires_at ≡ true) × (1 ≤ r.attempt_count)
  pub unleased : r.status ≢ delivering → r.lease_expires_at ≡ none
  pub stamped : r.status ≡ delivered → is_some r.delivered_at ≡ true
  pub unstamped : r.status ≢ delivered → r.delivered_at ≡ none
  pub names_event : r.payload.event_id ≡ r.event_id
  pub names_operation : r.payload.operation_id ≡ r.operation_id
  pub known_type : r.event_type ≡ event_type_name

pub record IsValid (rows : List Row) : Type 0 where
  pub rows_valid : All IsRowValid rows
  pub event_key : Unique (map (λ (r : Row). r.event_id) rows)
  pub operation_key : Unique (map (λ (r : Row). r.operation_id) rows)

-- An update that keeps both keys and the validity of the rows that it changes.
update-IsValid :
    (test : Row → Bool) (f : Row → Row) (rows : List Row)
    → ((r : Row) → (f r).event_id ≡ r.event_id)
    → ((r : Row) → (f r).operation_id ≡ r.operation_id)
    → ((r : Row) → In r rows → test r ≡ true → IsRowValid r → IsRowValid (f r))
    → IsValid rows
    → IsValid (update test f rows)
update-IsValid test f rows he ho hv v = record {
  rows_valid = All-update IsRowValid test f rows hv v.rows_valid;
  event_key = rw (map-update (λ (r : Row). r.event_id) test f rows he) v.event_key;
  operation_key = rw (map-update (λ (r : Row). r.operation_id) test f rows ho) v.operation_key;
}

new_row-IsRowValid :
    (e : Uuid) (now : Timestamp) (o : Uuid) (s : ImportStatus) (t i x : ℕ)
    → IsRowValid (new_row e now o s t i x)
unfolding new_row
new_row-IsRowValid e now o s t i x = ground arith

claim_row-IsRowValid :
    (now : Timestamp) (lease : ℕ) (r : Row)
    → r.status ≢ delivered
    → IsRowValid r
    → IsRowValid (claim_row now lease r)
unfolding claim_row
claim_row-IsRowValid now lease r h v = ground arith

deliver_row-IsRowValid : (now : Timestamp) (r : Row) → IsRowValid r → IsRowValid (deliver_row now r)
unfolding deliver_row
deliver_row-IsRowValid now r v = ground arith

fail_row-IsRowValid :
    (now : Timestamp) (n a : ℕ) (b : Bool) (m : ℕ) (c : FailureCode) (r : Row)
    → r.status ≡ delivering
    → IsRowValid r
    → IsRowValid (fail_row now (next_status a b m) n c r)
unfolding fail_row next_status
fail_row-IsRowValid now n a b m c r h v = ground arith

pub append-IsValid :
    (q : Row) (rows : List Row)
    → any_of (λ (r : Row). r.event_id == q.event_id) rows ≡ false
    → any_of (λ (r : Row). r.operation_id == q.operation_id) rows ≡ false
    → IsRowValid q
    → IsValid rows
    → IsValid (rows ++ q ∷ [])
append-IsValid q rows he ho hq v = record {
  rows_valid = All-append IsRowValid rows (q ∷ []) v.rows_valid (hq, tt);
  event_key = Unique-append (λ (r : Row). r.event_id) rows q he v.event_key;
  operation_key = Unique-append (λ (r : Row). r.operation_id) rows q ho v.operation_key;
}

-- the three ways an enqueue ends
pub data Enqueued (e o : Uuid) (q : Row) (rows : List Row) : Result (Uuid × List Row) → Type 0 where
  known :
      (r : Row)
      → find (λ (r : Row). r.operation_id == o) rows ≡ some r
      → Enqueued e o q rows (ok (r.event_id, rows))
  taken :
      any_of (λ (r : Row). r.event_id == e) rows ≡ true → Enqueued e o q rows (err database_error)
  added :
      any_of (λ (r : Row). r.event_id == e) rows ≡ false
      → any_of (λ (r : Row). r.operation_id == o) rows ≡ false
      → Enqueued e o q rows (ok (e, rows ++ q ∷ []))

pub enqueue_completed_import-cases :
    (e : Uuid) (now : Timestamp) (o : Uuid) (s : ImportStatus) (t i x : ℕ) (rows : List Row)
    → Enqueued e o (new_row e now o s t i x) rows (enqueue_completed_import e now o s t i x rows)
unfolding enqueue_completed_import
enqueue_completed_import-cases e now o s t i x rows =
    elim (Option-cases (find (λ (r : Row). r.operation_id == o) rows)) [
      | inr (r, found) ↦ rw (found, enqueue_completed_import) (known r found)
      | inl fresh ↦ elim (Bool-cases (any_of (λ (r : Row). r.event_id == e) rows)) [
        | inl used ↦ rw (fresh, enqueue_completed_import, used) (taken used)
        | inr new ↦
            rw (fresh, enqueue_completed_import, new)
              (added new (find-none (λ (r : Row). r.operation_id) o rows fresh))
      ]
    ]

-- the table after a call that may fail
abbrev pub table_after {ℓ} : {A : Type ℓ} → Result (A × List Row) → List Row → List Row
table_after (ok (a, rows')) rows = rows'
table_after (err e) rows = rows

Enqueued-IsValid :
    (e o : Uuid) (q : Row) (rows : List Row) (m : Result (Uuid × List Row))
    → q.event_id ≡ e
    → q.operation_id ≡ o
    → IsRowValid q
    → IsValid rows
    → Enqueued e o q rows m
    → IsValid (table_after m rows)
Enqueued-IsValid e o q rows m pe po hq v (known r f) = v
Enqueued-IsValid e o q rows m pe po hq v (taken t) = v
Enqueued-IsValid e o q rows m pe po hq v (added he ho) =
    append-IsValid q rows (rw pe he) (rw po ho) hq v

-- Adding an event for an operation keeps the table valid.
pub enqueue_completed_import-IsValid :
    (e : Uuid) (now : Timestamp) (o : Uuid) (s : ImportStatus) (t i x : ℕ) (rows : List Row)
    → IsValid rows
    → IsValid (table_after (enqueue_completed_import e now o s t i x rows) rows)
unfolding new_row
enqueue_completed_import-IsValid e now o s t i x rows v =
    Enqueued-IsValid e o (new_row e now o s t i x) rows _ refl refl
      (new_row-IsRowValid e now o s t i x) v (enqueue_completed_import-cases e now o s t i x rows)

claimed_not_delivered :
    (now : Timestamp) (locked : List Uuid) (c : Row)
    → eligible now locked c ≡ true
    → c.status ≢ delivered
claimed_not_delivered now locked c h = ground arith

claim_candidate-IsValid :
    (now : Timestamp) (locked : List Uuid) (lease : ℕ) (rows : List Row) (o : Option Row)
    → Picks now locked rows o
    → IsValid rows
    → IsValid (claim_candidate now lease rows o).1
unfolding claim_candidate
claim_candidate-IsValid now locked lease rows none p v = v
claim_candidate-IsValid now locked lease rows (some c) p v =
    update-IsValid (λ (r : Row). r.event_id == c.event_id) (claim_row now lease) rows
      (λ r. unfold claim_row in refl) (λ r. unfold claim_row in refl)
      (λ r m t w. claim_row-IsRowValid now lease r (not_delivered r m t) w) v
  where
    not_delivered : (r : Row) → In r rows → (r.event_id == c.event_id) ≡ true → r.status ≢ delivered
    not_delivered r m t =
        let same : r ≡ c =
          Unique-In (λ (q : Row). q.event_id) rows v.event_key m p.member (==→eq _ _ t) in
        rw same (claimed_not_delivered now locked c p.is_eligible)

-- Reserving an event keeps the table valid.
pub claim_next_event-IsValid :
    (schema : Schema) (now : Timestamp) (locked : List Uuid) (lease : ℕ) (rows : List Row)
    → IsValid rows
    → IsValid (table_after (claim_next_event schema now locked lease rows) rows)
unfolding claim_next_event
claim_next_event-IsValid schema now locked lease rows v =
    elim (Result-cases (require_current_schema schema)) [
      | inl (u, p) ↦
          rw p (claim_candidate-IsValid now locked lease rows _ (candidate-Picks now locked rows) v)
      | inr (x, p) ↦ rw p v
    ]

-- Recording a delivery keeps the table valid.
pub mark_delivered-IsValid :
    (schema : Schema) (now : Timestamp) (e : OutboxEvent) (rows : List Row)
    → IsValid rows
    → IsValid (table_after (mark_delivered schema now e rows) rows)
unfolding mark_delivered
mark_delivered-IsValid schema now e rows v = elim (Result-cases (require_current_schema schema)) [
  | inl (u, p) ↦ rw p (
      update-IsValid (holds_lease e) (deliver_row now) rows (λ r. unfold deliver_row in refl)
        (λ r. unfold deliver_row in refl) (λ r m h w. deliver_row-IsRowValid now r w) v)
  | inr (x, p) ↦ rw p v
]

leased_row : (e : OutboxEvent) (r : Row) → holds_lease e r ≡ true → r.status ≡ delivering
leased_row e r h = ground arith

failed_rows-IsValid :
    (now : Timestamp) (e : OutboxEvent) (c : FailureCode) (retry : Bool) (m backoff : ℕ)
    (rows : List Row)
    → IsValid rows
    → IsValid
        (update (holds_lease e) (fail_row now (next_status e.attempt_count retry m) backoff c) rows)
unfolding fail_row
failed_rows-IsValid now e c retry m backoff rows v =
    update-IsValid (holds_lease e) (fail_row now (next_status e.attempt_count retry m) backoff c)
      rows (λ r. refl) (λ r. refl)
      (λ r i h w. fail_row-IsRowValid now backoff e.attempt_count retry m c r (leased_row e r h) w)
      v

-- Recording a failed attempt keeps the table valid.
pub mark_failed_attempt-IsValid :
    (schema : Schema) (now : Timestamp) (e : OutboxEvent) (c : FailureCode) (retry : Bool)
    (m b x : ℕ) (rows : List Row)
    → IsValid rows
    → IsValid (table_after (mark_failed_attempt schema now e c retry m b x rows) rows)
unfolding mark_failed_attempt
mark_failed_attempt-IsValid schema now e c retry m b x rows v =
    elim (Result-cases (require_current_schema schema)) [
      | inl (u, p) ↦
          rw p (failed_rows-IsValid now e c retry m (backoff_seconds e.attempt_count b x) rows v)
      | inr (q, p) ↦ rw p v
    ]
