-- ===== src/Api/Recovery.antt =====
-- What `create_import` leaves, whatever its transactions find.
use customer_data_foundation.Prelude.{
  ℕ, ◌≡◌, refl, subst, Bool, true, false, List, [], ◌∷◌, Option, none, some, String, if◌then◌else◌,
  All-append, Bool-cases, inl, inr, Result, ok, err, find, any_of, ◌==◌, >>=-eq-ok, ok-injective,
  or_raise, database_error,
}
use customer_data_foundation.Sql.{Uuid, Digest, Timestamp, All-update}
use customer_data_foundation.Database.{require_current_schema}
use customer_data_foundation.Text.{Text, Unicode}
use customer_data_foundation.Validation.Batch.{File}
use customer_data_foundation.Importer
use customer_data_foundation.Importer.{ImportResult, import_csv}
use customer_data_foundation.Operations
use customer_data_foundation.Outbox
use customer_data_foundation.Operations.{
  Operation, Reservation, has_key, abandoned, recoverable, recover_row, new_operation,
  reserve_existing, reserve_row, reserve_operation, complete_operation, should_process,
}
use customer_data_foundation.Operations.Replay.{KeysUnique, reserve_operation-found}
use customer_data_foundation.Operations.Completion.{
  announced, IsConsistent, complete_operation-IsConsistent,
}
use customer_data_foundation.Api.{Answer, answer, refused, Principal}
use customer_data_foundation.Api.Uploads.{validate_idempotency_key, persist_bounded_upload}
use customer_data_foundation.Api.Imports.{
  operation_json_response, Store, Run, transact, after_complete, replay, complete_import,
  process_import, after_reserve, after_upload, after_key, create_import,
}

-- the tables of the operations with other rows
abbrev with_rows : List Operation → Operations.Tables → Operations.Tables
with_rows rows t = record t { operations = rows }

recover_row-event :
    (now : Timestamp) (outbox : List Outbox.Row) (r : Operation)
    → (r.accepted ≡ true → announced r.operation_id outbox ≡ true)
    → ((recover_row now r).accepted ≡ true
        → announced (recover_row now r).operation_id outbox ≡ true)
unfolding recover_row
recover_row-event now outbox r h = h

reserve_existing-IsConsistent :
    (now : Timestamp) (actor key sha : Digest) (t : Operations.Tables) (o : Option Operation)
    {x : Reservation × List Operation}
    → IsConsistent t
    → reserve_existing now actor key sha t.operations o ≡ ok x
    → IsConsistent (with_rows x.1 t)
unfolding reserve_existing
reserve_existing-IsConsistent now actor key sha t none v h =
    let (r, _, g) =
      >>=-eq-ok (or_raise (find (has_key actor key) t.operations) database_error) _ h in
    subst (λ (y : Reservation × List Operation). IsConsistent (with_rows y.1 t)) (ok-injective g) v
reserve_existing-IsConsistent now actor key sha t (some r) v h =
    subst (λ (y : Reservation × List Operation). IsConsistent (with_rows y.1 t)) (ok-injective h)
      (record {
        every_event =
            All-update
              (λ (q : Operation). q.accepted ≡ true → announced q.operation_id t.outbox ≡ true)
              (recoverable actor key sha now) (recover_row now) t.operations
              (λ q m e. recover_row-event now t.outbox q) v.every_event;
        outbox_valid = v.outbox_valid;
      })

new_operation-event :
    (now : Timestamp) (id : Uuid) (actor key sha : Digest) (outbox : List Outbox.Row)
    → (new_operation now id actor key sha).accepted ≡ true
    → announced (new_operation now id actor key sha).operation_id outbox ≡ true
unfolding new_operation
new_operation-event now id actor key sha outbox h = absurd (cc)

reserve_row-IsConsistent :
    (now : Timestamp) (id : Uuid) (actor key sha : Digest) (t : Operations.Tables)
    {x : Reservation × List Operation}
    → IsConsistent t
    → reserve_row now id actor key sha t.operations ≡ ok x
    → IsConsistent (with_rows x.1 t)
unfolding reserve_row
reserve_row-IsConsistent now id actor key sha t {x} v h =
    elim (Bool-cases (any_of (has_key actor key) t.operations)) [
      | inl old ↦
          reserve_existing-IsConsistent now actor key sha t
            (find (recoverable actor key sha now) t.operations) v (rw old at h)
      | inr new ↦
          elim (Bool-cases (any_of (λ (r : Operation). r.operation_id == id) t.operations)) [
            | inl taken ↦ absurd (refuses (rw (new, taken) at h))
            | inr free ↦
                subst (λ (y : Reservation × List Operation). IsConsistent (with_rows y.1 t))
                  (ok-injective (rw (new, free) at h))
                  (record {
                    every_event =
                        All-append
                          (λ (q : Operation).
                            q.accepted ≡ true → announced q.operation_id t.outbox ≡ true)
                          t.operations (new_operation now id actor key sha ∷ []) v.every_event
                          (new_operation-event now id actor key sha t.outbox, tt);
                    outbox_valid = v.outbox_valid;
                  })
          ]
    ]
  where
    refuses : err database_error ≡ ok x → ⊥
    refuses k = cc

transact-ok : {A : Type 0} (b : Bool) (m : Result A) {x : A} → transact b m ≡ ok x → m ≡ ok x
transact-ok false m h = absurd (cc)
transact-ok true m h = h

after_complete-IsConsistent :
    (v : Run) (s : Store) (m : Result (Operation × Operations.Tables))
    → IsConsistent s.jobs
    → ((x : Operation × Operations.Tables) → m ≡ ok x → IsConsistent x.1)
    → IsConsistent (after_complete v s m).1.jobs
unfolding after_complete
after_complete-IsConsistent v s (err e) k h = k
after_complete-IsConsistent v s (ok x) k h = h x refl

-- what the other transactions of a run may do
abbrev pub Keeps : (Store → Store) → Type 0
Keeps f = (s : Store) → IsConsistent s.jobs → IsConsistent (f s).jobs

module _ (u : Unicode) (pg_lower : Text → Text) (protected_hash : String → String → Digest)
    (sha256 : List ℕ → Digest) (read_file : List ℕ → File) where
  complete_import-IsConsistent :
      (v : Run) (r : Operation) (s : Store) (x : ImportResult × Importer.Tables)
      → Keeps v.before_complete
      → IsConsistent s.jobs
      → IsConsistent (complete_import u pg_lower protected_hash sha256 read_file v r s x).1.jobs
  unfolding complete_import
  complete_import-IsConsistent v r s (result, imports) kc k =
      let t : Store = v.before_complete (record s { imports = imports }) in
      let kt : IsConsistent t.jobs = kc (record s { imports = imports }) k in
      after_complete-IsConsistent v t
        (transact v.complete_connected (
          complete_operation v.complete_schema v.completed_at v.event_id r.operation_id
            r.attempt_count result v.duration_ms t.jobs))
        kt
        (λ x h.
          complete_operation-IsConsistent v.complete_schema v.completed_at v.event_id r.operation_id
            r.attempt_count result v.duration_ms t.jobs kt (transact-ok v.complete_connected _ h))

  after_reserve-IsConsistent :
      (v : Run) (body : List ℕ) (s : Store) (m : Result (Reservation × List Operation))
      → Keeps v.before_import
      → Keeps v.before_complete
      → IsConsistent s.jobs
      → ((x : Reservation × List Operation) → m ≡ ok x → IsConsistent (with_rows x.1 s.jobs))
      → IsConsistent (after_reserve u pg_lower protected_hash sha256 read_file v body s m).1.jobs
  unfolding after_reserve process_import
  after_reserve-IsConsistent v body s (err e) ki kc k h = k
  after_reserve-IsConsistent v body s (ok (r, rows)) ki kc k h =
      elim (Bool-cases (should_process r)) [
        | inl work ↦ rw work (
            complete_import-IsConsistent v r.operation
              (v.before_import (record s { jobs = with_rows rows s.jobs })) _ kc
              (ki (record s { jobs = with_rows rows s.jobs }) (h (r, rows) refl)))
        | inr done ↦ rw done (h (r, rows) refl)
      ]

  after_upload-IsConsistent :
      (v : Run) (p : Principal) (key : String) (s : Store) (o : Option (List ℕ))
      → Keeps v.before_import
      → Keeps v.before_complete
      → IsConsistent s.jobs
      → IsConsistent (after_upload u pg_lower protected_hash sha256 read_file v p key s o).1.jobs
  unfolding after_upload reserve_operation
  after_upload-IsConsistent v p key s none ki kc k = k
  after_upload-IsConsistent v p key s (some body) ki kc k =
      after_reserve-IsConsistent v body s _ ki kc k (λ x h.
        let (_, _, g) =
          >>=-eq-ok (require_current_schema v.reserve_schema) _
            (transact-ok v.reserve_connected _ h) in
        reserve_row-IsConsistent v.reserved_at v.operation_id (protected_hash "actor" p.subject)
          (protected_hash "idempotency" key) (sha256 body) s.jobs k g)

  after_key-IsConsistent :
      (v : Run) (p : Principal) (chunks : List (List ℕ)) (s : Store) (a : Answer String)
      → Keeps v.before_import
      → Keeps v.before_complete
      → IsConsistent s.jobs
      → IsConsistent (after_key u pg_lower protected_hash sha256 read_file v p chunks s a).1.jobs
  unfolding after_key
  after_key-IsConsistent v p chunks s (refused c code) ki kc k = k
  after_key-IsConsistent v p chunks s (answer key) ki kc k =
      after_upload-IsConsistent v p key s (persist_bounded_upload 0 chunks) ki kc k

  -- Wherever a request to import stops, and whatever others do between its three transactions, if
  -- that is consistent too: every accepted operation has its event in the outbox.
  pub create_import-IsConsistent :
      (v : Run) (p : Principal) (header : Option String) (chunks : List (List ℕ)) (s : Store)
      → Keeps v.before_import
      → Keeps v.before_complete
      → IsConsistent s.jobs
      → IsConsistent
          (create_import u pg_lower protected_hash sha256 read_file v p header chunks s).1.jobs
  unfolding create_import
  create_import-IsConsistent v p header chunks s ki kc k =
      after_key-IsConsistent v p chunks s (validate_idempotency_key u header) ki kc k

  -- A repeated request with a valid key and upload, when PostgreSQL answers, on a current schema
  -- and in a table with unique keys, by the same subject with the same key, whose operation is not
  -- abandoned, runs no import: the same body gets the stored operation, another body is refused
  -- with 409, and no table changes.
  pub create_import-replay :
      (v : Run) (p : Principal) (header : Option String) (chunks : List (List ℕ)) (s : Store)
      (key : String) (body : List ℕ) (r : Operation)
      → validate_idempotency_key u header ≡ answer key
      → persist_bounded_upload 0 chunks ≡ some body
      → v.reserve_connected ≡ true
      → require_current_schema v.reserve_schema ≡ ok tt
      → KeysUnique s.jobs.operations
      → find
          (has_key (protected_hash "actor" p.subject) (protected_hash "idempotency" key))
          s.jobs.operations
        ≡ some r
      → abandoned (sha256 body) v.reserved_at r ≡ false
      → create_import u pg_lower protected_hash sha256 read_file v p header chunks s ≡ (
        (if r.request_sha256 == sha256 body
            then answer (operation_json_response v.answered_at r)
            else refused 409 "idempotency_key_reused"),
        s,
      )
  unfolding create_import after_key after_upload
  create_import-replay v p header chunks s key body r hk hb hc hs ku f ha =
      rw
        (
          hk,
          hb,
          hc,
          reserve_operation-found protected_hash v.reserve_schema v.reserved_at v.operation_id
              p.subject key (sha256 body) s.jobs.operations r hs ku f,
          ha,
        )
        (unfold after_reserve should_process replay in refl)
