-- ===== src/Validation/Batch.antt =====
-- `validate_csv` of validation.py.
use customer_data_foundation.Prelude.{
  ℕ, ◌+◌, ◌*◌, Bool, true, false, List, [], ◌∷◌, ◌++◌, Option, none, some, ltb, if◌then◌else◌,
}
use customer_data_foundation.Text.{Text, Unicode, text_eq}
use customer_data_foundation.Validation.Fields.{
  ValidationIssue, ValidatedCustomer, ValidationResult, literal, row_limit, first_row, issue,
  no_issue, row_issue, validate_email, validate_name, validate_phone, validate_source,
}
use customer_data_foundation.Validation.Headers.{validate_headers}

abbrev pub max_file_bytes : ℕ
max_file_bytes = 10 * 1024 * 1024

abbrev pub max_rows_default : ℕ
max_rows_default = 10000

-- a row of `csv.DictReader`: whether it has values without a header, and its values, missing in a
-- short row
pub record CsvRow : Type 0 where
  pub extra : Bool
  pub email : Option Text
  pub first_name : Option Text
  pub last_name : Option Text
  pub phone : Option Text
  pub source : Option Text

-- what the reader yields from some point on: rows, and then the end of the file or an exception
pub data Rows : Type 0 where
  end_of_file decode_error csv_error : Rows
  row : CsvRow → Rows → Rows

-- what the reader finds first: the header, or an exception
pub data Contents : Type 0 where
  undecodable malformed : Contents
  header : Option (List Text) → Rows → Contents

-- what the program sees of a file
pub data File : Type 0 where
  unreadable : File
  readable : ℕ → Contents → File

-- the variables of the loop
pub record Batch : Type 0 where
  pub total_rows : ℕ
  pub valid_rows : ℕ
  pub issues : List ValidationIssue
  pub seen_emails : List (Text × ℕ)
  pub validated_records : List ValidatedCustomer

-- `row.get(name, "") or ""`
abbrev pub value_or_empty : Option Text → Text
value_or_empty none = []
value_or_empty (some t) = t

abbrev pub lookup : Text → List (Text × ℕ) → Option ℕ
lookup k [] = none
lookup k ((j, v) ∷ m) = if text_eq j k then some v else lookup k m

abbrev pub extra_issues : Bool → ℕ → List ValidationIssue
extra_issues false n = []
extra_issues true n =
    row_issue n "row" "extra_values" "La fila contiene valores sin encabezado."
      "Elimina los valores adicionales."
    ∷ []

-- the issue of an email that an earlier row has
abbrev pub duplicate_issues : Option ℕ → ℕ → List ValidationIssue
duplicate_issues none n = []
duplicate_issues (some first) n =
    issue (some n) "email" "duplicate_in_file" (literal "El email esta repetido en el archivo.")
      (first_row first)
    ∷ []

abbrev pub remember : Option ℕ → Text → ℕ → List (Text × ℕ) → List (Text × ℕ)
remember none email n seen = (email, n) ∷ seen
remember (some first) email n seen = seen

abbrev pub too_many_rows : ℕ → ValidationIssue
too_many_rows max_rows =
    issue none "file" "too_many_rows" (row_limit max_rows)
      (literal "Divide el archivo en lotes mas pequenos.")

-- the end of the loop body: the row's issues, or its record
unfoldable pub finish_row : List ValidationIssue → ValidatedCustomer → Batch → Batch
finish_row [] customer b = record b {
  valid_rows = b.valid_rows + 1;
  validated_records = b.validated_records ++ customer ∷ [];
}
finish_row (i ∷ is) customer b = record b { issues = b.issues ++ i ∷ is }

abbrev pub count_row : Batch → Batch
count_row b = record b { total_rows = b.total_rows + 1 }

abbrev pub add_issue : ValidationIssue → Batch → Batch
add_issue i b = record b { issues = b.issues ++ i ∷ [] }

abbrev pub invalid_encoding : ValidationIssue
invalid_encoding =
    issue none "file" "invalid_encoding" (literal "El archivo no usa UTF-8.")
      (literal "Exporta el CSV con codificacion UTF-8.")

abbrev pub malformed_csv : ValidationIssue
malformed_csv =
    issue none "file" "malformed_csv" (literal "El contenido CSV esta mal formado.")
      (literal "Revisa comillas y separadores.")

abbrev pub empty_batch : Batch
empty_batch = record {
  total_rows = 0;
  valid_rows = 0;
  issues = [];
  seen_emails = [];
  validated_records = [];
}

unfoldable pub result_of : Batch → ValidationResult
result_of b = record {
  total_rows = b.total_rows;
  valid_rows = b.valid_rows;
  issues = b.issues;
  records = if no_issue b.issues then b.validated_records else [];
}

abbrev pub only_issues : List ValidationIssue → ValidationResult
only_issues is = record { total_rows = 0; valid_rows = 0; issues = is; records = [] }

module _ (u : Unicode) where
  -- the values of a row, normalized
  unfoldable pub customer_of : ℕ → CsvRow → ValidatedCustomer
  unfolding validate_email validate_name validate_phone validate_source
  customer_of n r = record {
    email = (validate_email u (value_or_empty r.email) n).0;
    first_name = (validate_name u (value_or_empty r.first_name) "first_name" n).0;
    last_name = (validate_name u (value_or_empty r.last_name) "last_name" n).0;
    phone = (validate_phone u (value_or_empty r.phone) n).0;
    source = (validate_source u (value_or_empty r.source) n).0;
    row_number = n;
  }

  unfoldable pub email_issues_of : ℕ → CsvRow → List ValidationIssue
  unfolding validate_email
  email_issues_of n r = (validate_email u (value_or_empty r.email) n).1

  unfoldable pub field_issues : ℕ → CsvRow → List ValidationIssue
  unfolding email_issues_of validate_name validate_phone validate_source
  field_issues n r =
      email_issues_of n r
      ++ ((validate_name u (value_or_empty r.first_name) "first_name" n).1
          ++ ((validate_name u (value_or_empty r.last_name) "last_name" n).1
              ++ ((validate_phone u (value_or_empty r.phone) n).1
                  ++ (validate_source u (value_or_empty r.source) n).1)))

  -- what the emails seen so far say of the row; asked only if its own email is well formed
  unfoldable pub earlier_row : ℕ → CsvRow → List (Text × ℕ) → Option ℕ
  unfolding email_issues_of customer_of
  earlier_row n r seen =
      if no_issue (email_issues_of n r) then lookup (customer_of n r).email seen else none

  unfoldable pub see_email : ℕ → CsvRow → List (Text × ℕ) → List (Text × ℕ)
  unfolding email_issues_of customer_of
  see_email n r seen =
      if no_issue (email_issues_of n r)
      then remember (lookup (customer_of n r).email seen) (customer_of n r).email n seen
      else seen

  unfoldable pub row_issues : ℕ → CsvRow → List (Text × ℕ) → List ValidationIssue
  unfolding field_issues earlier_row
  row_issues n r seen =
      extra_issues r.extra n ++ (field_issues n r ++ duplicate_issues (earlier_row n r seen) n)

  -- the loop body below the row limit, with `total_rows` already counted
  unfoldable pub check_row : ℕ → CsvRow → Batch → Batch
  unfolding finish_row row_issues see_email customer_of
  check_row n r b =
      finish_row (row_issues n r b.seen_emails) (customer_of n r)
        (record b { seen_emails = see_email n r b.seen_emails })

  -- `for row_number, row in enumerate(reader, start=2)`, and the two handlers around it
  unfoldable pub check_rows : ℕ → ℕ → Rows → Batch → Batch
  unfolding check_row
  check_rows max_rows n end_of_file b = b
  check_rows max_rows n decode_error b = add_issue invalid_encoding b
  check_rows max_rows n csv_error b = add_issue malformed_csv b
  check_rows max_rows n (row r rest) b =
      let next = check_rows max_rows (n + 1) rest (check_row n r (count_row b)) in
      if ltb max_rows (b.total_rows + 1)
      then add_issue (too_many_rows max_rows) (count_row b)
      else next

  unfoldable pub check_contents : ℕ → Contents → ValidationResult
  unfolding check_rows result_of validate_headers
  check_contents max_rows undecodable = result_of (add_issue invalid_encoding empty_batch)
  check_contents max_rows malformed = result_of (add_issue malformed_csv empty_batch)
  check_contents max_rows (header fieldnames rows) =
      if no_issue (validate_headers fieldnames)
      then result_of (check_rows max_rows 2 rows empty_batch)
      else only_issues (validate_headers fieldnames)

  unfoldable pub validate_csv : ℕ → File → ValidationResult
  unfolding check_contents
  validate_csv max_rows unreadable = only_issues (
      issue none "file" "unreadable" (literal "No se pudo leer el archivo.")
        (literal "Comprueba la ruta y los permisos.")
      ∷ [])
  validate_csv max_rows (readable file_size contents) =
      if ltb max_file_bytes file_size
      then only_issues (
          issue none "file" "too_large" (literal "El archivo supera el limite de 10 MiB.")
            (literal "Divide el archivo en lotes mas pequenos.")
          ∷ [])
      else check_contents max_rows contents
