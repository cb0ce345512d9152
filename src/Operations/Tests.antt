-- ===== src/Operations/Tests.antt =====
-- The theorems on idempotent operations at one operation that was abandoned.
use customer_data_foundation.Prelude.{
  ◌≡◌, refl, true, false, List, [], ◌∷◌, ◌++◌, ◌⊎◌, String, ok, inl, arith,
}
use customer_data_foundation.Sql.{Digest, update}
use customer_data_foundation.Database.{current_schema, require_current_schema}
use customer_data_foundation.Outbox.{imported, new_row, enqueue_completed_import}
use customer_data_foundation.Importer.{ImportResult}
use customer_data_foundation.Operations.{
  Operation, Tables, new_operation, recover_row, complete_row, notify, complete_found,
  reserve_operation, complete_operation,
}
use customer_data_foundation.Operations.{Reservation, should_process, reserve_row, reserve_existing}
use customer_data_foundation.Operations.Exclusive.{reserve_operation-exclusive}
use customer_data_foundation.Operations.Existing.{Abandoned, reserve_operation-existing}
use customer_data_foundation.Operations.Completion.{IsConsistent, complete_operation-stale}

abbrev protected_hash : String → String → Digest
protected_hash namespace value = 9

abbrev started : Operation
started = new_operation 1000 21 9 9 77

abbrev taken_over : Operation
taken_over = recover_row 900000000 started

is_current : require_current_schema current_schema ≡ ok tt
unfolding require_current_schema
is_current = refl

reserve_operation-existing_example :
    (Abandoned 77 900000000 started
      × ((before after : List Operation) × (started ∷ [] ≡ before ++ started ∷ after)
          × (reserve_operation protected_hash current_schema 900000000 22 "ana" "key" 77
                (started ∷ [])
              ≡ ok (
                record { created = false; recovered = true; operation = taken_over },
                before ++ taken_over ∷ after,
              ))))
    ⊎ ((Abandoned 77 900000000 started → ⊥)
        × (reserve_operation protected_hash current_schema 900000000 22 "ana" "key" 77
              (started ∷ [])
            ≡ ok
                (record { created = false; recovered = false; operation = started }, started ∷ [])))
unfolding recover_row new_operation
reserve_operation-existing_example =
    reserve_operation-existing protected_hash current_schema 900000000 22 "ana" "key" 77
      (started ∷ []) started is_current (tt, tt) (inl refl) refl refl

abbrev result : ImportResult
result = record {
  accepted = true;
  status = imported;
  total_rows = 3;
  inserted_rows = 2;
  existing_rows = 1;
  issues = [];
}

abbrev before : Tables
before = record { operations = taken_over ∷ []; outbox = [] }

abbrev after : Tables
after = record {
  operations = complete_row 900500000 result 12 taken_over ∷ [];
  outbox = new_row 11 900500000 21 imported 3 2 1 ∷ [];
}

before-IsConsistent : IsConsistent before
unfolding recover_row new_operation
before-IsConsistent = record {
  every_event = (λ h. absurd (cc), tt);
  outbox_valid = record { rows_valid = tt; event_key = tt; operation_key = tt };
}

completes :
    complete_operation current_schema 900500000 11 21 2 result 12 before
    ≡ ok (complete_row 900500000 result 12 taken_over, after)
unfolding complete_operation complete_found notify enqueue_completed_import update recover_row
    new_operation require_current_schema
completes = refl

complete_operation-stale_example :
    complete_operation current_schema 900600000 12 21 1 result 99 before ≡ ok (taken_over, before)
unfolding recover_row new_operation
complete_operation-stale_example =
    complete_operation-stale current_schema 900600000 12 21 1 result 99 before taken_over is_current
      (tt, tt) refl (inl (λ e. omega (arith, e)))

abbrev begun : Reservation
begun = record { created = true; recovered = false; operation = started }

abbrev again : Reservation
again = record { created = false; recovered = false; operation = started }

reserves_it :
    reserve_operation protected_hash current_schema 1000 21 "ana" "key" 77 []
    ≡ ok (begun, started ∷ [])
unfolding reserve_operation reserve_row require_current_schema
reserves_it = refl

reserves_again :
    reserve_operation protected_hash current_schema 2000 22 "ana" "key" 78 (started ∷ [])
    ≡ ok (again, started ∷ [])
unfolding reserve_operation reserve_row reserve_existing require_current_schema new_operation
reserves_again = refl

reserve_operation-exclusive_example :
    (should_process again ≡ false) × ((started ∷ []) ≡ (started ∷ []))
unfolding should_process
reserve_operation-exclusive_example =
    reserve_operation-exclusive protected_hash current_schema current_schema 1000 2000 21 22 "ana"
      "key" 77 78 [] tt reserves_it refl (omega arith) reserves_again
