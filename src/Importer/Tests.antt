-- ===== src/Importer/Tests.antt =====
-- The theorems on imports at one record, with the `lower` of ASCII.
use customer_data_foundation.Prelude.{
  ℕ, ◌+◌, ◌≡◌, ◌⊎◌, refl, true, false, ◌&&◌, [], ◌∷◌, map, leb, inl, ok, if◌then◌else◌,
}
use customer_data_foundation.Database.{current_schema, require_current_schema}
use customer_data_foundation.Text.{Text, codes}
use customer_data_foundation.Outbox.{database_failed}
use customer_data_foundation.Validation.Fields.{ValidatedCustomer}
use customer_data_foundation.Importer.{
  Tables, customer_checks, conflict_issues, new_records, customer_row, insert_customers,
  store_records, import_unless_conflict, import_batch, import_validated_records,
}
use customer_data_foundation.Importer.Atomic.{
  Imported, Unchanged, import_validated_records-atomic, import_validated_records-unstorable,
}

abbrev lower : Text → Text
lower t = map (λ (c : ℕ). if leb 65 c && leb c 90 then c + 32 else c) t

abbrev ana : ValidatedCustomer
ana = record {
  email = codes "ana@empresa.com";
  first_name = codes "Ana";
  last_name = codes "Gil";
  phone = codes "+34600111222";
  source = codes "web";
  row_number = 2;
}

-- a plus, a one and fullwidth digits
abbrev wide : ValidatedCustomer
wide = record ana { phone = 43 ∷ 49 ∷ 65297 ∷ 65297 ∷ 65297 ∷ 65297 ∷ 65297 ∷ 65297 ∷ 65297 ∷ [] }

abbrev empty_tables : Tables
empty_tables = record { batches = []; customers = [] }

is_current : require_current_schema current_schema ≡ ok tt
unfolding require_current_schema
is_current = refl

import_validated_records-atomic_example :
    Imported lower 5
      (ana ∷ [])
      77
      empty_tables
      (import_validated_records lower true current_schema 5 (ana ∷ []) 77 empty_tables)
    ⊎ Unchanged lower
        (ana ∷ [])
        77
        empty_tables
        (import_validated_records lower true current_schema 5 (ana ∷ []) 77 empty_tables)
import_validated_records-atomic_example =
    import_validated_records-atomic lower true current_schema 5 (ana ∷ []) 77 empty_tables

first_import :
    (import_validated_records lower true current_schema 5 (ana ∷ []) 77 empty_tables).0.accepted
    ≡ true
unfolding import_validated_records import_batch import_unless_conflict store_records
    insert_customers customer_checks customer_row new_records conflict_issues require_current_schema
first_import = refl

wide_conflicts : conflict_issues (wide ∷ []) [] ≡ []
unfolding conflict_issues
wide_conflicts = refl

wide_refused : customer_checks lower (customer_row 5 wide) ≡ false
unfolding customer_checks customer_row
wide_refused = refl

import_validated_records-unstorable_example :
    let x = import_validated_records lower true current_schema 5 (wide ∷ []) 77 empty_tables in
    (x.0.accepted ≡ false) × (x.0.status ≡ database_failed) × (x.1 ≡ empty_tables)
unfolding new_records
import_validated_records-unstorable_example =
    import_validated_records-unstorable lower current_schema 5 (wide ∷ []) 77 empty_tables wide
      is_current refl wide_conflicts (inl refl) wide_refused
