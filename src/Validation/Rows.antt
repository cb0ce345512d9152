-- ===== src/Validation/Rows.antt =====
-- What an accepted file is: the rows that the reader yields, one customer for each.
use customer_data_foundation.Prelude.{
  ℕ, ◌+◌, ◌≤◌, ◌≡◌, refl, ap, ◌∙◌, false, List, [], ◌∷◌, ◌++◌, Option, arith, ltb, length, All,
  Bool-cases, inl, inr,
}
use customer_data_foundation.Text.{Text, Unicode, strip, casefold}
use customer_data_foundation.Validation.Fields.{
  ValidationIssue, ValidatedCustomer, ValidationResult, normalize_text, normalize_email,
  validate_email, validate_name, validate_phone, validate_source,
}
use customer_data_foundation.Validation.Headers.{validate_headers}
use customer_data_foundation.Validation.Batch.{
  CsvRow, Rows, end_of_file, decode_error, csv_error, row, Batch, File, readable, header,
  value_or_empty, finish_row, customer_of, see_email, row_issues, check_row, count_row, check_rows,
  max_file_bytes,
}
use customer_data_foundation.Validation.Clean.{append_nil, extra_nil}

-- a reader that yields these rows and then ends
abbrev pub yields : List CsvRow → Rows
yields [] = end_of_file
yields (r ∷ rs) = row r (yields rs)

module _ (u : Unicode) where
  -- the customers of the rows from line `n` on
  abbrev pub customers_from : ℕ → List CsvRow → List ValidatedCustomer
  customers_from n [] = []
  customers_from n (r ∷ rs) =
      record {
        email = normalize_email u (value_or_empty r.email);
        first_name = normalize_text u (value_or_empty r.first_name);
        last_name = normalize_text u (value_or_empty r.last_name);
        phone = strip u (value_or_empty r.phone);
        source = casefold u (normalize_text u (value_or_empty r.source));
        row_number = n;
      }
      ∷ customers_from (n + 1) rs

  -- the reader of the file yields a good header and plain rows to the end, at most `max_rows`, and
  -- the records are the normalized values of these rows in their order, with their line numbers
  pub record IsRead (max_rows : ℕ) (f : File) (r : ValidationResult) : Type 0 where
    pub size : ℕ
    pub names : Option (List Text)
    pub rows : List CsvRow
    pub file : f ≡ readable size (header names (yields rows))
    pub bounded : (size ≤ max_file_bytes) × (length rows ≤ max_rows)
    pub headed : validate_headers names ≡ []
    pub plain : All (λ (q : CsvRow). q.extra ≡ false) rows
    pub one_each : r.records ≡ customers_from 2 rows
    pub counted : (r.total_rows ≡ length rows) × (r.valid_rows ≡ length rows)

  -- what a loop that ends without issues has read
  pub record Read (n : ℕ) (rs : Rows) (b b' : Batch) : Type 0 where
    pub before : b.issues ≡ []
    pub rows : List CsvRow
    pub all : rs ≡ yields rows
    pub plain : All (λ (q : CsvRow). q.extra ≡ false) rows
    pub records : b'.validated_records ≡ b.validated_records ++ customers_from n rows
    pub total : b'.total_rows ≡ b.total_rows + length rows
    pub valid : b'.valid_rows ≡ b.valid_rows + length rows

  append_ne :
      (is : List ValidationIssue) (i : ValidationIssue) (js : List ValidationIssue)
      → is ++ i ∷ js ≡ []
      → ⊥
  append_ne [] i js h = cc
  append_ne (x ∷ is) i js h = cc

  append_assoc :
      (xs : List ValidatedCustomer) (y : ValidatedCustomer) (zs : List ValidatedCustomer)
      → (xs ++ y ∷ []) ++ zs ≡ xs ++ y ∷ zs
  append_assoc [] y zs = refl
  append_assoc (x ∷ xs) y zs = ap (λ (l : List ValidatedCustomer). x ∷ l) (append_assoc xs y zs)

  append_nothing : (xs : List ValidatedCustomer) → xs ≡ xs ++ []
  append_nothing [] = refl
  append_nothing (x ∷ xs) = ap (λ (l : List ValidatedCustomer). x ∷ l) (append_nothing xs)

  row_issues-plain :
      (n : ℕ) (r : CsvRow) (seen : List (Text × ℕ)) → row_issues u n r seen ≡ [] → r.extra ≡ false
  unfolding row_issues
  row_issues-plain n r seen h = extra_nil u r.extra n (append_nil u _ _ h).0

  -- a row, and then the rest
  row-Read :
      (n : ℕ) (r : CsvRow) (rest : Rows) (b b' : Batch)
      → Read (n + 1) rest (check_row u n r (count_row b)) b'
      → Read n (row r rest) b b'
  unfolding check_row finish_row customer_of validate_email validate_name validate_phone
      validate_source
  row-Read n r rest b b' w = by_issues (row_issues u n r b.seen_emails) refl w
    where
      by_issues :
          (is : List ValidationIssue)
          → row_issues u n r b.seen_emails ≡ is
          → Read
              (n + 1)
              rest
              (finish_row is
                (customer_of u n r)
                (record (count_row b) { seen_emails = see_email u n r b.seen_emails }))
              b'
          → Read n (row r rest) b b'
      by_issues [] e w = record {
        before = w.before;
        rows = r ∷ w.rows;
        all = ap (λ (q : Rows). row r q) w.all;
        plain = (row_issues-plain n r b.seen_emails e, w.plain);
        records = w.records ∙ append_assoc b.validated_records (customer_of u n r) _;
        total = omega (arith, w.total);
        valid = omega (arith, w.valid);
      }
      by_issues (i ∷ is) e w = absurd (append_ne b.issues i is w.before)

  pub check_rows-Read :
      (max_rows n : ℕ) (rs : Rows) (b : Batch)
      → (check_rows u max_rows n rs b).issues ≡ []
      → Read n rs b (check_rows u max_rows n rs b)
  unfolding check_rows
  check_rows-Read max_rows n end_of_file b h = record {
    before = h;
    rows = [];
    all = refl;
    plain = tt;
    records = append_nothing b.validated_records;
    total = omega arith;
    valid = omega arith;
  }
  check_rows-Read max_rows n decode_error b h = absurd (append_ne b.issues _ [] h)
  check_rows-Read max_rows n csv_error b h = absurd (append_ne b.issues _ [] h)
  check_rows-Read max_rows n (row r rest) b h =
      elim (Bool-cases (ltb max_rows (b.total_rows + 1))) [
        | inl over ↦ absurd (append_ne b.issues _ [] (rw over at h))
        | inr under ↦ rw under (
            row-Read n r rest b _ (
              check_rows-Read max_rows (n + 1) rest (check_row u n r (count_row b))
                (rw under at h)))
      ]
