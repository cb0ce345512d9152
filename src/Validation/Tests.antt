-- ===== src/Validation/Tests.antt =====
-- The theorems on validation at a small file. Of Unicode the test data has the ASCII letters, the
-- ASCII white space and two kinds of digits.
use customer_data_foundation.Prelude.{
  ◌+◌, ◌≡◌, ◌↔◌, refl, true, false, not, ◌&&◌, ◌||◌, [], ◌∷◌, some, leb, ◌==◌, if◌then◌else◌,
}
use customer_data_foundation.Text.{Text, Unicode, codes, strip}
use customer_data_foundation.Validation.Patterns.{email_pattern, IsEmail, email_pattern_iff}
use customer_data_foundation.Validation.Fields.{validate_phone}
use customer_data_foundation.Validation.Batch.{
  CsvRow, row, end_of_file, header, File, readable, validate_csv,
}
use customer_data_foundation.Validation.Accepted.{Strict, validate_csv-Strict}

-- the digits are those of ASCII and the fullwidth ones
abbrev pub small_unicode : Unicode
small_unicode = record {
  is_space = λ c. c == 32 || (leb 9 c && leb c 13);
  is_digit = λ c. (leb 48 c && leb c 57) || (leb 65296 c && leb c 65305);
  is_printable = λ c. leb 32 c && not (c == 127);
  fold_char = λ c. (if leb 65 c && leb c 90 then c + 32 else c) ∷ [];
  is_word =
      λ c. (leb 48 c && leb c 57) || (leb 65 c && leb c 90) || (leb 97 c && leb c 122) || c == 95;
  same_letter = λ a b. a == b || (leb 65 b && leb b 90 && a == b + 32);
}

abbrev ana : CsvRow
ana = record {
  extra = false;
  email = some (codes " Ana@Empresa.com");
  first_name = some (codes "Ana  Maria");
  last_name = some (codes "Gil");
  phone = some (codes "+34600111222");
  source = some (codes "Web");
}

abbrev two_rows : File
two_rows = readable 200 (
    header
      (some (
        codes "email"
        ∷ codes "first_name"
        ∷ codes "last_name"
        ∷ codes "phone"
        ∷ codes "source"
        ∷ []))
      (row ana (row ana end_of_file)))

validate_csv-Strict_example :
    Strict small_unicode 10 two_rows (validate_csv small_unicode 10 two_rows)
validate_csv-Strict_example = validate_csv-Strict small_unicode 10 two_rows

email_pattern_iff_example :
    (email_pattern small_unicode (codes "ana@empresa.com") ≡ true)
    ↔ IsEmail small_unicode (codes "ana@empresa.com")
email_pattern_iff_example = email_pattern_iff small_unicode (codes "ana@empresa.com") refl

-- fullwidth digits pass for a phone number
abbrev pub fullwidth_phone : Text
fullwidth_phone = 43 ∷ 49 ∷ 65297 ∷ 65297 ∷ 65297 ∷ 65297 ∷ 65297 ∷ 65297 ∷ 65297 ∷ []

fullwidth_passes : validate_phone small_unicode fullwidth_phone 2 ≡ (fullwidth_phone, [])
unfolding validate_phone strip
fullwidth_passes = refl
