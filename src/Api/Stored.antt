-- ===== src/Api/Stored.antt =====
-- What the completion of a new operation leaves: its row, its event and the answer.
use customer_data_foundation.Prelude.{
  ℕ, ◌≡◌, refl, true, false, List, [], ◌∷◌, ◌++◌, some, none, ap, ◌⊎◌, Bool-cases, inl, inr, Result,
  ok, find, any_of, ◌==◌,
}
use customer_data_foundation.Sql.{Uuid, Digest, Timestamp, update}
use customer_data_foundation.Database.{Schema, require_current_schema}
use customer_data_foundation.Outbox
use customer_data_foundation.Outbox.{new_row, pending}
use customer_data_foundation.Outbox.Validity.{
  Enqueued, known, taken, added, enqueue_completed_import-cases,
}
use customer_data_foundation.Importer.{ImportResult}
use customer_data_foundation.Operations
use customer_data_foundation.Operations.{
  Operation, has_key, new_operation, reserve_row, reserve_operation, holds_attempt, complete_row,
  notify, complete_found, complete_operation, should_process,
}
use customer_data_foundation.Api.Imports.{
  operation_json_response, public_operation, response_status, JsonResponse, Run,
}

-- the row of a new identifier, at the end of the table
find-appended :
    (id : Uuid) (attempt : ℕ) (rs : List Operation) (x : Operation)
    → any_of (λ (r : Operation). r.operation_id == id) rs ≡ false
    → holds_attempt id attempt x ≡ true
    → find (holds_attempt id attempt) (rs ++ x ∷ []) ≡ some x
find-appended id attempt [] x f h = rw h
find-appended id attempt (r ∷ rs) x f h = elim (Bool-cases (r.operation_id == id)) [
  | inl e ↦ absurd (cc (f, e))
  | inr e ↦ rw e (find-appended id attempt rs x (rw e at f) h)
]

update-appended :
    (id : Uuid) (attempt : ℕ) (f : Operation → Operation) (rs : List Operation) (x : Operation)
    → any_of (λ (r : Operation). r.operation_id == id) rs ≡ false
    → holds_attempt id attempt x ≡ true
    → update (holds_attempt id attempt) f (rs ++ x ∷ []) ≡ rs ++ f x ∷ []
unfolding update
update-appended id attempt f [] x n h = rw h
update-appended id attempt f (r ∷ rs) x n h = elim (Bool-cases (r.operation_id == id)) [
  | inl e ↦ absurd (cc (n, e))
  | inr e ↦ rw (e, update-appended id attempt f rs x (rw e at n) h)
]

-- what the outbox gets of a result: nothing, or one row that is due at once
pub record IsEvent (now : Timestamp) (e id : Uuid) (result : ImportResult) (q : Outbox.Row)
    : Type 0 where
  pub identified : (q.event_id ≡ e) × (q.operation_id ≡ id)
  pub due : (q.status ≡ pending) × (q.attempt_count ≡ 0) × (q.available_at ≡ now)
  pub told :
      (q.payload.status ≡ result.status)
      × (q.payload.total_rows ≡ result.total_rows)
      × (q.payload.inserted_rows ≡ result.inserted_rows)
      × (q.payload.existing_rows ≡ result.existing_rows)

pub Announced : Timestamp → Uuid → Uuid → ImportResult → List Outbox.Row → List Outbox.Row → Type 0
Announced now e id result before after =
    ((result.accepted ≡ false) × (after ≡ before))
    ⊎ ((result.accepted ≡ true)
        × ((q : Outbox.Row) × (after ≡ before ++ q ∷ []) × IsEvent now e id result q))

absent :
    (id : Uuid) (rows : List Outbox.Row)
    → any_of (λ (r : Outbox.Row). r.operation_id == id) rows ≡ false
    → find (λ (r : Outbox.Row). r.operation_id == id) rows ≡ none
absent id [] h = refl
absent id (r ∷ rows) h = elim (Bool-cases (r.operation_id == id)) [
  | inl e ↦ absurd (cc (h, e))
  | inr e ↦ rw e (absent id rows (rw e at h))
]

Enqueued-new :
    (e o : Uuid) (q : Outbox.Row) (rows : List Outbox.Row) (m : Result (Uuid × List Outbox.Row))
    → any_of (λ (r : Outbox.Row). r.event_id == e) rows ≡ false
    → any_of (λ (r : Outbox.Row). r.operation_id == o) rows ≡ false
    → Enqueued e o q rows m
    → m ≡ ok (e, rows ++ q ∷ [])
Enqueued-new e o q rows m new fresh (known r f) = absurd (cc (absent o rows fresh, f))
Enqueued-new e o q rows m new fresh (taken t) = absurd (cc (new, t))
Enqueued-new e o q rows m new fresh (added he ho) = refl

notify-Announced :
    (now : Timestamp) (e id : Uuid) (result : ImportResult) (outbox : List Outbox.Row)
    → any_of (λ (r : Outbox.Row). r.event_id == e) outbox ≡ false
    → any_of (λ (r : Outbox.Row). r.operation_id == id) outbox ≡ false
    → (after : List Outbox.Row) × (notify now e id result outbox ≡ ok after)
      × Announced now e id result outbox after
unfolding notify Announced new_row
notify-Announced now e id result outbox new fresh = elim (Bool-cases result.accepted) [
  | inr rejected ↦ (outbox, rw rejected, inl (rejected, refl))
  | inl good ↦
      let q : Outbox.Row =
        new_row e now id result.status result.total_rows result.inserted_rows
          result.existing_rows in
      (
        outbox ++ q ∷ [],
        rw
            (
              good,
              Enqueued-new e id q outbox _ new fresh (
                  enqueue_completed_import-cases e now id result.status result.total_rows
                    result.inserted_rows result.existing_rows outbox),
            )
            refl,
        inr (
          good,
          (
            q,
            refl,
            record {
              identified = (refl, refl);
              due = (refl, refl, refl);
              told = (refl, refl, refl, refl);
            },
          ),
        ),
      )
]

-- completing the operation that a reservation has just made
pub complete_new :
    (schema : Schema) (now : Timestamp) (e id : Uuid) (result : ImportResult) (d : ℕ)
    (rs : List Operation) (outbox : List Outbox.Row) (x : Operation)
    → require_current_schema schema ≡ ok tt
    → any_of (λ (r : Operation). r.operation_id == id) rs ≡ false
    → any_of (λ (r : Outbox.Row). r.event_id == e) outbox ≡ false
    → any_of (λ (r : Outbox.Row). r.operation_id == id) outbox ≡ false
    → holds_attempt id 1 x ≡ true
    → (t : Operations.Tables) × (complete_operation schema now e id 1 result d
          (record { operations = rs ++ x ∷ []; outbox = outbox })
        ≡ ok (complete_row now result d x, t))
      × (t.operations ≡ rs ++ complete_row now result d x ∷ [])
      × Announced now e id result outbox t.outbox
unfolding complete_operation complete_found
complete_new schema now e id result d rs outbox x s fresh new silent held =
    let (after, k, a) = notify-Announced now e id result outbox new silent in
    (
      record {
        operations = update (holds_attempt id 1) (complete_row now result d) (rs ++ x ∷ []);
        outbox = after;
      },
      rw (s, find-appended id 1 rs x fresh held, k),
      update-appended id 1 (complete_row now result d) rs x fresh held,
      a,
    )

-- the stored operation has the request's identifiers and the result of its import
pub record IsStored (v : Run) (actor key request_sha256 : Digest) (result : ImportResult)
    (r : Operation) : Type 0 where
  pub of_request :
      (r.operation_id ≡ v.operation_id)
      × (r.actor_hash ≡ actor)
      × (r.idempotency_key_hash ≡ key)
      × (r.request_sha256 ≡ request_sha256)
  pub outcome : (r.status ≡ result.status) × (r.accepted ≡ result.accepted)
  pub counts :
      (r.total_rows ≡ result.total_rows)
      × (r.inserted_rows ≡ result.inserted_rows)
      × (r.existing_rows ≡ result.existing_rows)
  pub explained : r.issues ≡ result.issues
  pub ended :
      (r.completed_at ≡ some v.completed_at)
      × (r.duration_ms ≡ v.duration_ms)
      × (r.attempt_count ≡ 1)
      × (r.recovered_at ≡ none)

-- the response shows the result, with the HTTP status of it
pub record IsShown (v : Run) (result : ImportResult) (j : JsonResponse) : Type 0 where
  pub code : j.status_code ≡ response_status result.status
  pub of_request : j.content.operation_id ≡ v.operation_id
  pub outcome : (j.content.status ≡ result.status) × (j.content.accepted ≡ result.accepted)
  pub counts :
      (j.content.total_rows ≡ result.total_rows)
      × (j.content.inserted_rows ≡ result.inserted_rows)
      × (j.content.existing_rows ≡ result.existing_rows)
  pub explained : j.content.issues ≡ result.issues

pub complete_row-IsStored :
    (v : Run) (actor key sha : Digest) (result : ImportResult)
    → IsStored v actor key sha result (
        complete_row v.completed_at result v.duration_ms
          (new_operation v.reserved_at v.operation_id actor key sha))
unfolding complete_row new_operation
complete_row-IsStored v actor key sha result = record {
  of_request = (refl, refl, refl, refl);
  outcome = (refl, refl);
  counts = (refl, refl, refl);
  explained = refl;
  ended = (refl, refl, refl, refl);
}

pub response-IsShown :
    (v : Run) (actor key sha : Digest) (result : ImportResult) (r : Operation)
    → IsStored v actor key sha result r
    → IsShown v result (operation_json_response v.answered_at r)
unfolding operation_json_response public_operation
response-IsShown v actor key sha result r w = record {
  code = ap response_status w.outcome.0;
  of_request = w.of_request.0;
  outcome = w.outcome;
  counts = w.counts;
  explained = w.explained;
}
