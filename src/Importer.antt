-- ===== src/Importer.antt =====
-- importer.py and the migration 0001: the import of a validated batch in one transaction.
-- `connected` says whether PostgreSQL answers; `pg_lower` is its function `lower`.
pub mod Atomic
mod Tests
use customer_data_foundation.Prelude.{
  ℕ, ◌+◌, ◌-◌, ◌*◌, Bool, true, false, not, ◌&&◌, ◌||◌, List, [], ◌∷◌, ◌++◌, Option, none, some,
  String, Result, ok, err, leb, ltb, ◌==◌, if◌then◌else◌, find, any_of, all_of, length, select,
  is_some, is_none,
}
use customer_data_foundation.Sql.{Uuid, Digest, update}
use customer_data_foundation.Database.{Schema, require_current_schema}
use customer_data_foundation.Text.{Text, Unicode, text_eq, is_empty}
use customer_data_foundation.Outbox.{
  ImportStatus, imported, already_imported, validation_failed, conflict, configuration_error,
  migration_required, database_failed,
}
use customer_data_foundation.Validation.Fields.{
  ValidationIssue, ValidatedCustomer, ValidationResult, Message, literal, issue, row_issue,
  accepted,
}
use customer_data_foundation.Validation.Batch.{File, validate_csv, max_rows_default}

-- rows of customers and import_batches
pub record CustomerRow : Type 0 where
  pub email : Text
  pub first_name : Text
  pub last_name : Text
  pub phone : Text
  pub source : Text
  pub import_batch_id : Uuid

pub record BatchRow : Type 0 where
  pub id : Uuid
  pub file_sha256 : Digest
  pub row_count : ℕ
  pub inserted_count : ℕ
  pub existing_count : ℕ

pub record Tables : Type 0 where
  pub batches : List BatchRow
  pub customers : List CustomerRow

pub record ImportResult : Type 0 where
  pub accepted : Bool
  pub status : ImportStatus
  pub total_rows : ℕ
  pub inserted_rows : ℕ
  pub existing_rows : ℕ
  pub issues : List ValidationIssue

abbrev pub database_issue : String → String → String → ValidationIssue
database_issue code message correction =
    issue none "database" code (literal message) (literal correction)

-- `btrim`: blanks only
abbrev pub ltrim : Text → Text
ltrim [] = []
ltrim (c ∷ t) = let rest = ltrim t in if c == b' ' then rest else c ∷ t

abbrev pub trim_before : ℕ → Text → Text
trim_before c [] = if c == b' ' then [] else c ∷ []
trim_before c (d ∷ t) = c ∷ d ∷ t

abbrev pub rtrim : Text → Text
rtrim [] = []
rtrim (c ∷ t) = trim_before c (rtrim t)

unfoldable pub btrim : Text → Text
btrim t = rtrim (ltrim t)

-- position('@' IN email) > 1
abbrev pub at_after_first : Text → Bool
at_after_first [] = false
at_after_first (c ∷ t) = not (c == b'@') && any_of (λ (d : ℕ). d == b'@') t

abbrev pub ascii_digit : ℕ → Bool
ascii_digit c = leb b'0' c && leb c b'9'

-- phone = '' OR phone ~ '^\+[1-9][0-9]{7,14}$'
abbrev pub phone_e164 : Text → Bool
phone_e164 [] = true
phone_e164 (plus ∷ first ∷ digits) =
    plus == b'+'
    && leb b'1' first
    && leb first b'9'
    && all_of ascii_digit digits
    && leb 7 (length digits)
    && leb (length digits) 14
phone_e164 _ = false

-- the column types and CHECK constraints of the table customers
unfoldable pub customer_checks : (Text → Text) → CustomerRow → Bool
unfolding btrim
customer_checks pg_lower r =
    leb (length r.email) 254
    && leb (length r.first_name) 80
    && leb (length r.last_name) 80
    && leb (length r.phone) 16
    && leb (length r.source) 50
    && text_eq r.email (pg_lower (btrim r.email))
    && at_after_first r.email
    && not (is_empty (btrim r.first_name))
    && not (is_empty (btrim r.last_name))
    && phone_e164 r.phone
    && not (is_empty (btrim r.source))

abbrev pub has_email : Text → CustomerRow → Bool
has_email email r = text_eq r.email email

-- `existing_by_email.get(email)`
abbrev pub existing : List CustomerRow → Text → Option CustomerRow
existing customers email = find (has_email email) customers

-- `existing == customer_values(record)`
abbrev pub same_values : ValidatedCustomer → CustomerRow → Bool
same_values c r =
    text_eq r.first_name c.first_name
    && text_eq r.last_name c.last_name
    && text_eq r.phone c.phone
    && text_eq r.source c.source

abbrev pub differs : ValidatedCustomer → Option CustomerRow → Bool
differs c none = false
differs c (some r) = not (same_values c r)

abbrev pub customer_conflict : ℕ → ValidationIssue
customer_conflict n =
    row_issue n "email" "customer_conflict" "El cliente ya existe con datos diferentes."
      "Revisa el registro existente antes de intentar una actualizacion."

unfoldable pub conflict_issues : List ValidatedCustomer → List CustomerRow → List ValidationIssue
conflict_issues [] customers = []
conflict_issues (c ∷ cs) customers =
    let rest = conflict_issues cs customers in
    if differs c (existing customers c.email) then customer_conflict c.row_number ∷ rest else rest

unfoldable pub new_records : List ValidatedCustomer → List CustomerRow → List ValidatedCustomer
new_records records customers =
    select (λ (c : ValidatedCustomer). is_none (existing customers c.email)) records

unfoldable pub customer_row : Uuid → ValidatedCustomer → CustomerRow
customer_row batch_id c = record {
  email = c.email;
  first_name = c.first_name;
  last_name = c.last_name;
  phone = c.phone;
  source = c.source;
  import_batch_id = batch_id;
}

-- `executemany`: `none` where a row breaks a constraint or the unique email
unfoldable pub insert_customers :
    (Text → Text) → Uuid → List ValidatedCustomer → List CustomerRow → Option (List CustomerRow)
insert_customers pg_lower batch_id [] customers = some customers
insert_customers pg_lower batch_id (c ∷ cs) customers =
    let rest = insert_customers pg_lower batch_id cs (customers ++ customer_row batch_id c ∷ []) in
    if customer_checks pg_lower (customer_row batch_id c) && is_none (existing customers c.email)
    then rest
    else none

abbrev pub failed : ImportStatus → ℕ → List ValidationIssue → ImportResult
failed status total issues = record {
  accepted = false;
  status = status;
  total_rows = total;
  inserted_rows = 0;
  existing_rows = 0;
  issues = issues;
}

abbrev pub operation_failed : ℕ → ImportResult
operation_failed total = failed database_failed total (
    database_issue "operation_failed" "La operacion de base de datos no pudo completarse."
      "Comprueba la disponibilidad y configuracion de PostgreSQL."
    ∷ [])

abbrev pub schema_outdated : ℕ → ImportResult
schema_outdated total = failed migration_required total (
    database_issue "migration_required" "La base de datos no tiene la revision requerida."
      "Aplica las migraciones antes de importar."
    ∷ [])

-- the end of the transaction: the inserts and the counts of the batch
unfoldable pub store_records :
    Uuid → Digest → ℕ → ℕ → Option (List CustomerRow) → Tables → ImportResult × Tables
store_records batch_id sha256 total inserted none t = (operation_failed total, t)
store_records batch_id sha256 total inserted (some customers) t = (
  record {
    accepted = true;
    status = imported;
    total_rows = total;
    inserted_rows = inserted;
    existing_rows = total - inserted;
    issues = [];
  },
  record {
    batches =
        t.batches
        ++ record {
          id = batch_id;
          file_sha256 = sha256;
          row_count = total;
          inserted_count = inserted;
          existing_count = total - inserted;
        }
          ∷ [];
    customers = customers;
  },
)

-- the rest of the transaction, for the issues of the records that differ from stored customers
unfoldable pub import_unless_conflict :
    (Text → Text)
    → Uuid
    → List ValidatedCustomer
    → Digest
    → Tables
    → List ValidationIssue
    → ImportResult × Tables
import_unless_conflict pg_lower batch_id records sha256 t (i ∷ is) =
    (failed conflict (length records) (i ∷ is), t)
import_unless_conflict pg_lower batch_id records sha256 t [] =
    let fresh = new_records records t.customers in
    store_records batch_id sha256 (length records) (length fresh)
      (insert_customers pg_lower batch_id fresh t.customers) t

-- the body of the transaction: ON CONFLICT (file_sha256) DO NOTHING comes first
unfoldable pub import_batch :
    (Text → Text) → Uuid → List ValidatedCustomer → Digest → Tables → ImportResult × Tables
import_batch pg_lower batch_id records sha256 t =
    if any_of (λ (b : BatchRow). b.file_sha256 == sha256) t.batches
    then (
      record {
        accepted = true;
        status = already_imported;
        total_rows = length records;
        inserted_rows = 0;
        existing_rows = length records;
        issues = [];
      },
      t,
    )
    else if any_of (λ (b : BatchRow). b.id == batch_id) t.batches
    then (operation_failed (length records), t)
    else import_unless_conflict pg_lower batch_id records sha256 t
        (conflict_issues records t.customers)

-- the transaction behind its check of the schema, and the handler of that check
unfoldable pub import_checked :
    (Text → Text)
    → Uuid
    → List ValidatedCustomer
    → Digest
    → Tables
    → Result (Unit {0})
    → ImportResult × Tables
import_checked pg_lower batch_id records sha256 t (err e) = (schema_outdated (length records), t)
import_checked pg_lower batch_id records sha256 t (ok _) =
    import_batch pg_lower batch_id records sha256 t

unfoldable pub import_validated_records :
    (Text → Text)
    → Bool
    → Schema
    → Uuid
    → List ValidatedCustomer
    → Digest
    → Tables
    → ImportResult × Tables
unfolding import_checked
import_validated_records pg_lower false schema batch_id records sha256 t =
    (operation_failed (length records), t)
import_validated_records pg_lower true schema batch_id records sha256 t =
    import_checked pg_lower batch_id records sha256 t (require_current_schema schema)

unfoldable pub import_csv :
    Unicode → (Text → Text) → Bool → Schema → Uuid → File → Digest → Tables → ImportResult × Tables
import_csv u pg_lower connected schema batch_id file sha256 t =
    let validation = validate_csv u max_rows_default file in
    if accepted validation
    then import_validated_records pg_lower connected schema batch_id validation.records sha256 t
    else (failed validation_failed validation.total_rows validation.issues, t)

abbrev pub is_operational : ImportStatus → Bool
is_operational configuration_error = true
is_operational database_failed = true
is_operational migration_required = true
is_operational _ = false

-- the exit status of `main`
unfoldable pub exit_status : ImportResult → ℕ
exit_status r = if r.accepted then 0 else if is_operational r.status then 2 else 1
