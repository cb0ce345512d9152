-- ===== src/Api/First.antt =====
-- The first request for a key runs to its end.
use customer_data_foundation.Prelude.{
  ℕ, ◌≡◌, true, false, List, [], ◌∷◌, ◌++◌, Option, some, String, ok, any_of, ◌==◌, ==_refl,
}
use customer_data_foundation.Sql.{Digest}
use customer_data_foundation.Database.{require_current_schema}
use customer_data_foundation.Text.{Text, Unicode}
use customer_data_foundation.Validation.Batch.{File}
use customer_data_foundation.Outbox
use customer_data_foundation.Outbox.{new_row, pending}
use customer_data_foundation.Importer
use customer_data_foundation.Importer.{ImportResult, import_csv}
use customer_data_foundation.Operations
use customer_data_foundation.Operations.{
  Operation, has_key, new_operation, reserve_row, reserve_operation, holds_attempt, complete_row,
  notify, complete_found, complete_operation, should_process,
}
use customer_data_foundation.Api.{answer, Principal}
use customer_data_foundation.Api.Uploads.{validate_idempotency_key, persist_bounded_upload}
use customer_data_foundation.Api.Imports.{
  operation_json_response, JsonResponse, Store, Run, after_complete, complete_import,
  process_import, after_reserve, after_upload, after_key, create_import,
}
use customer_data_foundation.Api.Stored.{
  IsStored, IsShown, Announced, complete_new, complete_row-IsStored, response-IsShown,
}

module _ (u : Unicode) (pg_lower : Text → Text) (protected_hash : String → String → Digest)
    (sha256 : List ℕ → Digest) (read_file : List ℕ → File) where
  -- A request with a valid key and upload and with identifiers that are new, when PostgreSQL answers
  -- on a current schema, the key has no operation, and nobody else changes the tables, runs to its
  -- end. The file is imported, whatever the result is, and the customers are those that the import
  -- leaves. One operation is added, with the request's identifiers and the status, counts and issues
  -- of that result, and the answer shows them. The outbox gets one event with the counts, due at once,
  -- if the result is accepted, and stays as it is otherwise.
  pub create_import-first :
      (v : Run) (p : Principal) (header : Option String) (chunks : List (List ℕ)) (s : Store)
      (key : String) (body : List ℕ)
      → validate_idempotency_key u header ≡ answer key
      → persist_bounded_upload 0 chunks ≡ some body
      → (v.reserve_connected ≡ true) × (v.complete_connected ≡ true)
      → require_current_schema v.reserve_schema ≡ ok tt
      → require_current_schema v.complete_schema ≡ ok tt
      → ((q : Store) → v.before_import q ≡ q)
      → ((q : Store) → v.before_complete q ≡ q)
      → any_of
          (has_key (protected_hash "actor" p.subject) (protected_hash "idempotency" key))
          s.jobs.operations
        ≡ false
      → any_of (λ (r : Operation). r.operation_id == v.operation_id) s.jobs.operations ≡ false
      → any_of (λ (r : Outbox.Row). r.event_id == v.event_id) s.jobs.outbox ≡ false
      → any_of (λ (r : Outbox.Row). r.operation_id == v.operation_id) s.jobs.outbox ≡ false
      → let x =
          import_csv u pg_lower v.import_connected v.import_schema v.batch_id
            (read_file body)
            (sha256 body)
            s.imports in
        (j : JsonResponse) × (t : Operations.Tables) × (r : Operation) × (create_import u pg_lower
            protected_hash sha256 read_file v p header chunks s
          ≡ (answer j, record { imports = x.1; jobs = t }))
        × IsShown v x.0 j
        × (t.operations ≡ s.jobs.operations ++ r ∷ [])
        × IsStored v
            (protected_hash "actor" p.subject)
            (protected_hash "idempotency" key)
            (sha256 body)
            x.0
            r
        × Announced v.completed_at v.event_id v.operation_id x.0 s.jobs.outbox t.outbox
  unfolding create_import after_key after_upload reserve_operation reserve_row after_reserve
      should_process process_import complete_import after_complete
  create_import-first v p header chunks s key body hk hb hc hr hs bi bc no_key no_id no_event
        silent =
      let actor : Digest = protected_hash "actor" p.subject in
      let hashed : Digest = protected_hash "idempotency" key in
      let begun : Operation =
        new_operation v.reserved_at v.operation_id actor hashed (sha256 body) in
      let x : ImportResult × Importer.Tables =
        import_csv u pg_lower v.import_connected v.import_schema v.batch_id (read_file body)
          (sha256 body) s.imports in
      let (t, done, f, a) =
        complete_new v.complete_schema v.completed_at v.event_id v.operation_id x.0 v.duration_ms
          s.jobs.operations s.jobs.outbox begun hs no_id no_event silent
          (unfold new_operation in rw (==_refl v.operation_id)) in
      let filled : Store = record s {
        jobs = record s.jobs { operations = s.jobs.operations ++ begun ∷ [] };
      } in
      let w = complete_row-IsStored v actor hashed (sha256 body) x.0 in
      (
        operation_json_response v.answered_at (complete_row v.completed_at x.0 v.duration_ms begun),
        t,
        complete_row v.completed_at x.0 v.duration_ms begun,
        rw (hk, hb, hc.0, hr, no_key, no_id, bi filled, bc (record filled { imports = x.1 }), hc.1)
            (unfold new_operation in rw done),
        response-IsShown v actor hashed (sha256 body) x.0 _ w,
        f,
        w,
        a,
      )
