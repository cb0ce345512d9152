-- ===== src/Validation/Fields.antt =====
-- The validators of single values in validation.py, and the issues that they report. The texts of
-- an issue that depend on the file are given by what they are made of.
use customer_data_foundation.Prelude.{
  ℕ, Bool, true, false, not, ◌&&◌, ◌||◌, List, [], ◌∷◌, Option, some, String, ltb, if◌then◌else◌,
  length,
}
use customer_data_foundation.Text.{
  Text, Unicode, is_empty, strip, split, join, casefold, isprintable,
}
use customer_data_foundation.Validation.Patterns.{email_pattern, phone_pattern}

-- a literal, or an f-string with what it shows
pub data Message : Type 0 where
  literal : String → Message
  row_limit : ℕ → Message
  first_row : ℕ → Message
  columns : String → List Text → Message

pub record ValidationIssue : Type 0 where
  pub row : Option ℕ
  pub field : String
  pub code : String
  pub message : Message
  pub correction : Message

pub record ValidatedCustomer : Type 0 where
  pub email : Text
  pub first_name : Text
  pub last_name : Text
  pub phone : Text
  pub source : Text
  pub row_number : ℕ

-- ValidationResult; `accepted` is its property
pub record ValidationResult : Type 0 where
  pub total_rows : ℕ
  pub valid_rows : ℕ
  pub issues : List ValidationIssue
  pub records : List ValidatedCustomer

abbrev pub no_issue : List ValidationIssue → Bool
no_issue [] = true
no_issue (i ∷ is) = false

unfoldable pub accepted : ValidationResult → Bool
accepted r = no_issue r.issues

-- `ValidationResult.to_report`
pub record Report : Type 0 where
  pub accepted : Bool
  pub mode : String
  pub total_rows : ℕ
  pub valid_rows : ℕ
  pub error_count : ℕ
  pub issues : List ValidationIssue

unfoldable pub to_report : ValidationResult → Report
unfolding accepted
to_report r = record {
  accepted = no_issue r.issues;
  mode = "strict";
  total_rows = r.total_rows;
  valid_rows = r.valid_rows;
  error_count = length r.issues;
  issues = r.issues;
}

abbrev pub issue : Option ℕ → String → String → Message → Message → ValidationIssue
issue row field code message correction = record {
  row = row;
  field = field;
  code = code;
  message = message;
  correction = correction;
}

-- an issue of one row
abbrev pub row_issue : ℕ → String → String → String → String → ValidationIssue
row_issue n field code message correction =
    issue (some n) field code (literal message) (literal correction)

module _ (u : Unicode) where
  unfoldable pub normalize_text : Text → Text
  unfolding strip split join
  normalize_text value = join (split u (strip u value))

  unfoldable pub normalize_email : Text → Text
  unfolding strip casefold
  normalize_email value = casefold u (strip u value)

  unfoldable pub email_issues : Text → ℕ → List ValidationIssue
  unfolding email_pattern
  email_issues normalized n =
      if is_empty normalized
      then row_issue n "email" "required" "El email es obligatorio." "Agrega un email." ∷ []
      else if ltb 254 (length normalized) || not (email_pattern u normalized)
      then row_issue n "email" "invalid_format" "El email no tiene un formato valido."
          "Usa un formato como nombre@empresa.com."
        ∷ []
      else []

  unfoldable pub validate_email : Text → ℕ → Text × List ValidationIssue
  unfolding normalize_email email_issues
  validate_email value n =
      let normalized = normalize_email value in (normalized, email_issues normalized n)

  unfoldable pub name_issues : Text → String → ℕ → List ValidationIssue
  unfolding isprintable
  name_issues normalized field n =
      if is_empty normalized
      then row_issue n field "required" "El nombre es obligatorio." "Agrega el nombre." ∷ []
      else if ltb 80 (length normalized) || not (isprintable u normalized)
      then row_issue n field "invalid_text"
          "El nombre contiene texto no permitido o supera 80 caracteres."
          "Usa texto visible de hasta 80 caracteres."
        ∷ []
      else []

  unfoldable pub validate_name : Text → String → ℕ → Text × List ValidationIssue
  unfolding normalize_text name_issues
  validate_name value field n =
      let normalized = normalize_text value in (normalized, name_issues normalized field n)

  unfoldable pub phone_issues : Text → ℕ → List ValidationIssue
  unfolding phone_pattern
  phone_issues normalized n =
      if not (is_empty normalized) && not (phone_pattern u normalized)
      then row_issue n "phone" "invalid_format" "El telefono no tiene formato internacional E.164."
          "Usa el signo +, codigo de pais y entre 8 y 15 digitos."
        ∷ []
      else []

  unfoldable pub validate_phone : Text → ℕ → Text × List ValidationIssue
  unfolding strip phone_issues
  validate_phone value n = let normalized = strip u value in (normalized, phone_issues normalized n)

  unfoldable pub source_issues : Text → ℕ → List ValidationIssue
  unfolding isprintable
  source_issues normalized n =
      if is_empty normalized
      then row_issue n "source" "required" "El origen es obligatorio." "Agrega el origen." ∷ []
      else if ltb 50 (length normalized) || not (isprintable u normalized)
      then row_issue n "source" "invalid_text"
          "El origen contiene texto no permitido o supera 50 caracteres."
          "Usa texto visible de hasta 50 caracteres."
        ∷ []
      else []

  unfoldable pub validate_source : Text → ℕ → Text × List ValidationIssue
  unfolding normalize_text casefold source_issues
  validate_source value n =
      let normalized = casefold u (normalize_text value) in (normalized, source_issues normalized n)
