-- ===== src/Validation/Headers.antt =====
-- `validate_headers` of validation.py.
use customer_data_foundation.Prelude.{
  ℕ, Bool, not, List, [], ◌∷◌, ◌++◌, Option, none, some, String, ltb, if◌then◌else◌, length, any_of,
  select,
}
use customer_data_foundation.Text.{Text, codes, text_eq, text_lt}
use customer_data_foundation.Validation.Fields.{ValidationIssue, literal, columns, issue}

abbrev pub expected_fields : List Text
expected_fields =
    codes "email" ∷ codes "first_name" ∷ codes "last_name" ∷ codes "phone" ∷ codes "source" ∷ []

abbrev pub contains : List Text → Text → Bool
contains names name = any_of (λ (t : Text). text_eq t name) names

-- `fieldnames.count(name)`
abbrev pub count : List Text → Text → ℕ
count names name = length (select (λ (t : Text). text_eq t name) names)

-- one more member of a sorted list without repetitions
abbrev pub insert_sorted : Text → List Text → List Text
insert_sorted name [] = name ∷ []
insert_sorted name (t ∷ ts) =
    let rest = insert_sorted name ts in
    if text_eq t name then t ∷ ts else if text_lt name t then name ∷ t ∷ ts else t ∷ rest

-- `sorted({name for name in names})`
unfoldable pub sorted_set : List Text → List Text
sorted_set [] = []
sorted_set (t ∷ ts) = insert_sorted t (sorted_set ts)

unfoldable pub duplicates : List Text → List Text
unfolding sorted_set
duplicates names = sorted_set (select (λ t. ltb 1 (count names t)) names)

-- `sorted(set(a) - set(b))`
unfoldable pub sorted_minus : List Text → List Text → List Text
unfolding sorted_set
sorted_minus a b = sorted_set (select (λ t. not (contains b t)) a)

-- one issue if there are such columns
abbrev pub column_issue : String → String → String → List Text → List ValidationIssue
column_issue code message prefix [] = []
column_issue code message prefix (t ∷ ts) =
    issue none "header" code (literal message) (columns prefix (t ∷ ts)) ∷ []

unfoldable pub validate_headers : Option (List Text) → List ValidationIssue
unfolding duplicates sorted_minus
validate_headers none =
    issue none "header" "missing" (literal "El archivo no tiene encabezado.")
      (literal "Agrega el encabezado requerido.")
    ∷ []
validate_headers (some fieldnames) =
    column_issue "duplicate_columns" "Hay columnas repetidas." "Conserva una sola columna: "
      (duplicates fieldnames)
    ++ (column_issue "missing_columns" "Faltan columnas obligatorias." "Agrega: "
          (sorted_minus expected_fields fieldnames)
        ++ column_issue "unexpected_columns" "Existen columnas no autorizadas." "Elimina: "
            (sorted_minus fieldnames expected_fields))
