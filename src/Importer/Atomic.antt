-- ===== src/Importer/Atomic.antt =====
-- All or nothing: what an import leaves in the tables.
use customer_data_foundation.Prelude.{
  ◌+◌, ◌≤◌, ◌≡◌, refl, ◌∙◌, Bool, true, false, ◌&&◌, List, [], ◌∷◌, ◌++◌, map, Option, none, some,
  arith, Result, ok, err, length, length-select-le, All, Bool-cases, inl, inr, ◌⊎◌, any_of, In,
  is_none, ◌==◌, ==_refl,
}
use mathlib.Core.List.{append-nil, append_assoc}
use customer_data_foundation.Sql.{Uuid, Digest}
use customer_data_foundation.Database.{Schema, require_current_schema}
use customer_data_foundation.Text.{Text}
use customer_data_foundation.Outbox.{imported, already_imported, database_failed}
use customer_data_foundation.Validation.Fields.{ValidationIssue, ValidatedCustomer}
use customer_data_foundation.Importer.{
  CustomerRow, BatchRow, Tables, ImportResult, customer_checks, existing, conflict_issues,
  new_records, customer_row, insert_customers, store_records, import_unless_conflict, import_batch,
  import_checked, import_validated_records,
}

module _ (pg_lower : Text → Text) where
  -- what the inserts leave: the old rows, then one row for each record, which meets the constraints
  insert_customers-rows :
      (id : Uuid) (cs : List ValidatedCustomer) (customers : List CustomerRow)
      {after : List CustomerRow}
      → insert_customers pg_lower id cs customers ≡ some after
      → (after ≡ customers ++ map (customer_row id) cs)
        × All (λ (c : ValidatedCustomer). customer_checks pg_lower (customer_row id c) ≡ true) cs
  unfolding insert_customers
  insert_customers-rows id [] customers h = (ground (arith, h, append-nil customers), tt)
  insert_customers-rows id (c ∷ cs) customers {after} h =
      elim (Bool-cases
        (customer_checks pg_lower (customer_row id c) && is_none (existing customers c.email))) [
          | inl e ↦
              let (rows, checks) =
                insert_customers-rows id cs (customers ++ customer_row id c ∷ []) (rw e at h) in
              (
                rows ∙ append_assoc customers (customer_row id c ∷ []) (map (customer_row id) cs),
                (and_left _ _ e, checks),
              )
          | inr e ↦ absurd (some_ne (rw e at h))
        ]
    where
      and_left : (a b : Bool) → (a && b) ≡ true → a ≡ true
      and_left a b h = ground (arith, h)

      some_ne : none ≡ some after → ⊥
      some_ne h = cc

  -- what an import that changes the tables has done
  pub record Imported (batch_id : Uuid) (records : List ValidatedCustomer) (sha256 : Digest)
      (t : Tables) (x : ImportResult × Tables) : Type 0 where
    pub accepted_ok : x.0.accepted ≡ true
    pub status_ok : x.0.status ≡ imported
    pub counts :
        (x.0.inserted_rows ≡ length (new_records records t.customers))
        × (x.0.inserted_rows + x.0.existing_rows ≡ length records)
        × (x.0.total_rows ≡ length records)
    pub customers :
        x.1.customers ≡ t.customers ++ map (customer_row batch_id) (new_records records t.customers)
    pub checked :
        All
          (λ (c : ValidatedCustomer). customer_checks pg_lower (customer_row batch_id c) ≡ true)
          (new_records records t.customers)
    pub no_conflict : conflict_issues records t.customers ≡ []
    pub batch : any_of (λ (b : BatchRow). b.file_sha256 == sha256) x.1.batches ≡ true

  -- what an import that changes nothing may say
  pub record Unchanged (records : List ValidatedCustomer) (sha256 : Digest) (t : Tables)
      (x : ImportResult × Tables) : Type 0 where
    pub tables : x.1 ≡ t
    pub none_inserted : x.0.inserted_rows ≡ 0
    pub replayed :
        x.0.accepted ≡ true
        → (x.0.status ≡ already_imported)
          × (any_of (λ (b : BatchRow). b.file_sha256 == sha256) t.batches ≡ true)

  any_of-last :
      (sha256 : Digest) (bs : List BatchRow) (b : BatchRow)
      → b.file_sha256 ≡ sha256
      → any_of (λ (b : BatchRow). b.file_sha256 == sha256) (bs ++ b ∷ []) ≡ true
  any_of-last sha256 [] b e = rw (e, ==_refl sha256)
  any_of-last sha256 (x ∷ bs) b e = ground (arith, any_of-last sha256 bs b e)

  store_records-outcome :
      (id : Uuid) (records : List ValidatedCustomer) (sha256 : Digest) (t : Tables)
      (o : Option (List CustomerRow))
      → insert_customers pg_lower id (new_records records t.customers) t.customers ≡ o
      → conflict_issues records t.customers ≡ []
      → Imported id records sha256 t
          (store_records id sha256 (length records) (length (new_records records t.customers)) o t)
        ⊎ Unchanged records sha256 t (
            store_records id sha256 (length records) (length (new_records records t.customers)) o t)
  unfolding store_records
  store_records-outcome id records sha256 t none e k =
      inr (record { tables = refl; none_inserted = refl; replayed = λ h. absurd (cc) })
  store_records-outcome id records sha256 t (some after) e k =
      let (rows, checks) =
        insert_customers-rows id (new_records records t.customers) t.customers e in
      inl (record {
        accepted_ok = refl;
        status_ok = refl;
        counts = (refl, omega (arith, fewer), refl);
        customers = rows;
        checked = checks;
        no_conflict = k;
        batch = any_of-last sha256 t.batches _ refl;
      })
    where
      fewer : length (new_records records t.customers) ≤ length records
      fewer =
          unfold new_records in
          length-select-le (λ (c : ValidatedCustomer). is_none (existing t.customers c.email))
            records

  conflict-outcome :
      (id : Uuid) (records : List ValidatedCustomer) (sha256 : Digest) (t : Tables)
      (is : List ValidationIssue)
      → conflict_issues records t.customers ≡ is
      → Imported id records sha256 t (import_unless_conflict pg_lower id records sha256 t is)
        ⊎ Unchanged records sha256 t (import_unless_conflict pg_lower id records sha256 t is)
  conflict-outcome id records sha256 t (i ∷ is) k =
      unfold import_unless_conflict in
      inr (record { tables = refl; none_inserted = refl; replayed = λ h. absurd (cc) })
  conflict-outcome id records sha256 t [] k =
      unfold import_unless_conflict in
      store_records-outcome id records sha256 t
        (insert_customers pg_lower id (new_records records t.customers) t.customers) refl k

  batch-outcome :
      (id : Uuid) (records : List ValidatedCustomer) (sha256 : Digest) (t : Tables)
      → Imported id records sha256 t (import_batch pg_lower id records sha256 t)
        ⊎ Unchanged records sha256 t (import_batch pg_lower id records sha256 t)
  unfolding import_batch
  batch-outcome id records sha256 t =
      elim (Bool-cases (any_of (λ (b : BatchRow). b.file_sha256 == sha256) t.batches)) [
        | inl old ↦
            rw old
              (inr (record { tables = refl; none_inserted = refl; replayed = λ h. (refl, old) }))
        | inr new ↦ elim (Bool-cases (any_of (λ (b : BatchRow). b.id == id) t.batches)) [
          | inl taken ↦
              rw (new, taken)
                (inr (record { tables = refl; none_inserted = refl; replayed = λ h. absurd (cc) }))
          | inr free ↦
              rw (new, free)
                (conflict-outcome id records sha256 t (conflict_issues records t.customers) refl)
        ]
      ]

  checked-outcome :
      (id : Uuid) (records : List ValidatedCustomer) (sha256 : Digest) (t : Tables)
      (m : Result (Unit {0}))
      → Imported id records sha256 t (import_checked pg_lower id records sha256 t m)
        ⊎ Unchanged records sha256 t (import_checked pg_lower id records sha256 t m)
  unfolding import_checked
  checked-outcome id records sha256 t (ok _) = batch-outcome id records sha256 t
  checked-outcome id records sha256 t (err e) =
      inr (record { tables = refl; none_inserted = refl; replayed = λ h. absurd (cc) })

  -- An import either stores every record that is new, each with the batch's identifier and within
  -- the constraints of the table, and records the file, or it leaves the tables exactly as they
  -- were. It never changes a stored customer. An accepted import that leaves the tables as they
  -- were is of a file that was imported before.
  pub import_validated_records-atomic :
      (connected : Bool) (schema : Schema) (id : Uuid) (records : List ValidatedCustomer)
      (sha256 : Digest) (t : Tables)
      → Imported id records sha256 t
          (import_validated_records pg_lower connected schema id records sha256 t)
        ⊎ Unchanged records sha256 t
            (import_validated_records pg_lower connected schema id records sha256 t)
  unfolding import_validated_records
  import_validated_records-atomic false schema id records sha256 t =
      inr (record { tables = refl; none_inserted = refl; replayed = λ h. absurd (cc) })
  import_validated_records-atomic true schema id records sha256 t =
      checked-outcome id records sha256 t (require_current_schema schema)

  replayed_file :
      (schema : Schema) (id : Uuid) (records : List ValidatedCustomer) (sha256 : Digest)
      (t : Tables)
      → require_current_schema schema ≡ ok tt
      → any_of (λ (b : BatchRow). b.file_sha256 == sha256) t.batches ≡ true
      → let x = import_validated_records pg_lower true schema id records sha256 t in
        (x.1 ≡ t)
        × (x.0.accepted ≡ true)
        × (x.0.status ≡ already_imported)
        × (x.0.inserted_rows ≡ 0)
        × (x.0.existing_rows ≡ length records)
  unfolding import_validated_records import_batch
  replayed_file schema id records sha256 t s h = rw (s, h) (refl, refl, refl, refl, refl)

  -- After an accepted import of a file, importing a file with the same digest again, on a current
  -- schema, is accepted as already imported, whatever the records, and changes nothing.
  pub import_validated_records-again :
      (connected : Bool) (schema schema' : Schema) (id id' : Uuid)
      (records records' : List ValidatedCustomer) (sha256 : Digest) (t : Tables)
      → (import_validated_records pg_lower connected schema id records sha256 t).0.accepted ≡ true
      → require_current_schema schema' ≡ ok tt
      → let t' = (import_validated_records pg_lower connected schema id records sha256 t).1 in
        let x = import_validated_records pg_lower true schema' id' records' sha256 t' in
        (x.1 ≡ t')
        × (x.0.accepted ≡ true)
        × (x.0.status ≡ already_imported)
        × (x.0.inserted_rows ≡ 0)
        × (x.0.existing_rows ≡ length records')
  import_validated_records-again connected schema schema' id id' records records' sha256 t a s =
      replay (stored (import_validated_records-atomic connected schema id records sha256 t))
    where
      stored :
          Imported id records sha256 t
              (import_validated_records pg_lower connected schema id records sha256 t)
            ⊎ Unchanged records sha256 t
                (import_validated_records pg_lower connected schema id records sha256 t)
          → any_of
              (λ (b : BatchRow). b.file_sha256 == sha256)
              (import_validated_records pg_lower connected schema id records sha256 t).1.batches
            ≡ true
      stored (inl i) = i.batch
      stored (inr u) = rw u.tables ((u.replayed a).1)

      replay :
          any_of
              (λ (b : BatchRow). b.file_sha256 == sha256)
              (import_validated_records pg_lower connected schema id records sha256 t).1.batches
            ≡ true
          → let t' = (import_validated_records pg_lower connected schema id records sha256 t).1 in
            let x = import_validated_records pg_lower true schema' id' records' sha256 t' in
            (x.1 ≡ t')
            × (x.0.accepted ≡ true)
            × (x.0.status ≡ already_imported)
            × (x.0.inserted_rows ≡ 0)
            × (x.0.existing_rows ≡ length records')
      replay h =
          replayed_file schema' id' records' sha256
            (import_validated_records pg_lower connected schema id records sha256 t).1 s h

  insert_customers-none :
      (id : Uuid) (cs : List ValidatedCustomer) (customers : List CustomerRow)
      (c : ValidatedCustomer)
      → In c cs
      → customer_checks pg_lower (customer_row id c) ≡ false
      → insert_customers pg_lower id cs customers ≡ none
  unfolding insert_customers
  insert_customers-none id [] customers c m f = absurd m
  insert_customers-none id (d ∷ cs) customers c (inl e) f = rw (← e, f)
  insert_customers-none id (d ∷ cs) customers c (inr m) f =
      ground (arith, insert_customers-none id cs (customers ++ customer_row id d ∷ []) c m f)

  -- On a current schema, a new file whose records conflict with no stored customer, with one new
  -- record that the table's constraints refuse, is not stored at all: it is reported as a failure
  -- of the database, not as an issue of the file.
  pub import_validated_records-unstorable :
      (schema : Schema) (id : Uuid) (records : List ValidatedCustomer) (sha256 : Digest)
      (t : Tables) (c : ValidatedCustomer)
      → require_current_schema schema ≡ ok tt
      → any_of (λ (b : BatchRow). b.file_sha256 == sha256) t.batches ≡ false
      → conflict_issues records t.customers ≡ []
      → In c (new_records records t.customers)
      → customer_checks pg_lower (customer_row id c) ≡ false
      → let x = import_validated_records pg_lower true schema id records sha256 t in
        (x.0.accepted ≡ false) × (x.0.status ≡ database_failed) × (x.1 ≡ t)
  unfolding import_validated_records import_batch
  import_validated_records-unstorable schema id records sha256 t c s new k m f =
      elim (Bool-cases (any_of (λ (b : BatchRow). b.id == id) t.batches)) [
        | inl taken ↦ rw (s, new, taken) (refl, refl, refl)
        | inr free ↦
            rw (s, new, free, k)
              (unfold import_unless_conflict store_records in
                rw (insert_customers-none id (new_records records t.customers) t.customers c m f)
                  (refl, refl, refl))
      ]
