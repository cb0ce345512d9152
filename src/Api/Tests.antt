-- ===== src/Api/Tests.antt =====
-- The theorems on the handlers at one operation of one subject.
use customer_data_foundation.Prelude.{
  ℕ, ◌≡◌, ◌⊎◌, refl, true, List, [], ◌∷◌, none, some, String, if◌then◌else◌, ok, leb, length, find,
  ◌==◌,
}
use customer_data_foundation.Sql.{Digest}
use customer_data_foundation.Database.{current_schema, require_current_schema}
use customer_data_foundation.Text.{codes, casefold, isprintable}
use customer_data_foundation.Validation.Batch.{File, readable, malformed, max_file_bytes}
use customer_data_foundation.Validation.Tests.{small_unicode}
use customer_data_foundation.Operations.{Operation, new_operation, get_operation}
use customer_data_foundation.Operations.Completion.{IsConsistent}
use customer_data_foundation.Api.{
  answer, Principal, Credentials, Claims, has_role, grant, check_roles, check_subject, check_claims,
  authenticate,
}
use customer_data_foundation.Api.Uploads.{
  validate_idempotency_key, persist_bounded_upload, sent, persist_bounded_upload-exact,
}
use customer_data_foundation.Api.Imports.{
  public_operation, operation_json_response, JsonResponse, answer_import, read_import, Store, Run,
  create_import,
}
use customer_data_foundation.Importer.{import_csv}
use customer_data_foundation.Operations
use customer_data_foundation.Importer.{ImportResult}
use customer_data_foundation.Importer
use customer_data_foundation.Api.First.{create_import-first}
use customer_data_foundation.Api.Stored.{IsShown, IsStored, Announced}
use customer_data_foundation.Api.Access.{Granted, authenticate-Granted, read_import-private}
use customer_data_foundation.Api.Recovery.{create_import-IsConsistent, create_import-replay}

abbrev protected_hash : String → String → Digest
protected_hash namespace value = 9

abbrev sha256 : List ℕ → Digest
sha256 body = 77

abbrev read_file : List ℕ → File
read_file body = readable (length body) malformed

abbrev ana : Principal
ana = record { subject = "ana"; roles = "operator" ∷ [] }

abbrev started : Operation
started = new_operation 1000 21 9 9 77

abbrev store : Store
store = record {
  imports = record { batches = []; customers = [] };
  jobs = record { operations = started ∷ []; outbox = [] };
}

abbrev run : Run
run = record {
  operation_id = 22;
  batch_id = 5;
  event_id = 11;
  reserved_at = 2000;
  completed_at = 3000;
  answered_at = 4000;
  duration_ms = 1;
  reserve_connected = true;
  reserve_schema = current_schema;
  import_connected = true;
  import_schema = current_schema;
  complete_connected = true;
  complete_schema = current_schema;
  before_import = λ s. s;
  before_complete = λ s. s;
}

abbrev upload : List (List ℕ)
upload = (1 ∷ 2 ∷ []) ∷ (3 ∷ []) ∷ []

is_current : require_current_schema current_schema ≡ ok tt
unfolding require_current_schema
is_current = refl

good_key : validate_idempotency_key small_unicode (some "import-1") ≡ answer "import-1"
unfolding validate_idempotency_key isprintable
good_key = refl

kept : persist_bounded_upload 0 upload ≡ some (1 ∷ 2 ∷ 3 ∷ [])
unfolding persist_bounded_upload
kept = refl

persist_bounded_upload-exact_example :
    persist_bounded_upload 0 upload
    ≡ (if leb (length (sent upload)) max_file_bytes then some (sent upload) else none)
persist_bounded_upload-exact_example = persist_bounded_upload-exact upload

store-IsConsistent : IsConsistent store.jobs
unfolding new_operation
store-IsConsistent = record {
  every_event = (λ h. absurd (cc), tt);
  outbox_valid = record { rows_valid = tt; event_key = tt; operation_key = tt };
}

create_import-IsConsistent_example :
    IsConsistent
      (create_import small_unicode
        (λ t. t)
        protected_hash
        sha256
        read_file
        run
        ana
        (some "import-2")
        upload
        store).1.jobs
create_import-IsConsistent_example =
    create_import-IsConsistent small_unicode (λ t. t) protected_hash sha256 read_file run ana
      (some "import-2") upload store (λ s k. k) (λ s k. k) store-IsConsistent

create_import-replay_example :
    create_import small_unicode
      (λ t. t)
      protected_hash
      sha256
      read_file
      run
      ana
      (some "import-1")
      upload
      store
    ≡ (answer (operation_json_response 4000 started), store)
unfolding new_operation
create_import-replay_example =
    create_import-replay small_unicode (λ t. t) protected_hash sha256 read_file run ana
      (some "import-1") upload store "import-1" (1 ∷ 2 ∷ 3 ∷ []) started good_key kept refl
      is_current (tt, tt) refl refl

abbrev claims : Claims
claims = record { sub = some "ana"; roles = some (some "operator" ∷ some "guest" ∷ []) }

abbrev bearer : Credentials
bearer = record { scheme = codes "Bearer"; credentials = 120 ∷ [] }

let_in : authenticate small_unicode (λ token. some claims) (some bearer) ≡ answer ana
unfolding authenticate casefold check_claims check_subject check_roles grant
let_in = refl

authenticate-Granted_example :
    (c : Credentials) × (some bearer ≡ some c)
    × (casefold small_unicode c.scheme ≡ codes "bearer")
    × Granted (λ token. some claims) c.credentials ana
authenticate-Granted_example =
    authenticate-Granted small_unicode (λ token. some claims) (some bearer) ana let_in

shown :
    read_import protected_hash true current_schema 21 ana (started ∷ [])
    ≡ answer (public_operation started)
unfolding read_import answer_import get_operation require_current_schema new_operation
shown = refl

read_import-private_example :
    (r : Operation) × (find (λ (q : Operation). q.operation_id == 21) (started ∷ []) ≡ some r)
    × (public_operation started ≡ public_operation r)
    × ((has_role "auditor" ana ≡ true) ⊎ (r.actor_hash ≡ 9))
read_import-private_example =
    read_import-private protected_hash true current_schema 21 ana (started ∷ []) shown

abbrev empty_store : Store
empty_store = record {
  imports = record { batches = []; customers = [] };
  jobs = record { operations = []; outbox = [] };
}

abbrev imported : ImportResult × Importer.Tables
imported =
    import_csv small_unicode (λ t. t) true current_schema 5 (read_file (1 ∷ 2 ∷ 3 ∷ [])) 77
      empty_store.imports

create_import-first_example :
    (j : JsonResponse) × (t : Operations.Tables) × (r : Operation) × (create_import small_unicode
        (λ t. t)
        protected_hash
        sha256
        read_file
        run
        ana
        (some "import-1")
        upload
        empty_store
      ≡ (answer j, record { imports = imported.1; jobs = t }))
    × IsShown run imported.0 j
    × (t.operations ≡ r ∷ [])
    × IsStored run 9 9 77 imported.0 r
    × Announced 3000 11 22 imported.0 [] t.outbox
create_import-first_example =
    create_import-first small_unicode (λ t. t) protected_hash sha256 read_file run ana
      (some "import-1") upload empty_store "import-1" (1 ∷ 2 ∷ 3 ∷ []) good_key kept (refl, refl)
      is_current is_current (λ q. refl) (λ q. refl) refl refl refl refl
