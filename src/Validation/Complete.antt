-- ===== src/Validation/Complete.antt =====
-- Files that `validate_csv` has to accept.
use customer_data_foundation.Prelude.{
  ℕ, ◌+◌, ◌≤◌, ◌≡◌, ◌≢◌, refl, sym, ◌∙◌, true, false, List, [], ◌∷◌, Option, none, arith, ltb,
  length, All, Bool-cases, inl, inr, ◌⊎◌, String,
}
use customer_data_foundation.Text.{Text, Unicode, text_eq, text_eq→eq}
use customer_data_foundation.Validation.Patterns.{email_pattern, phone_pattern}
use customer_data_foundation.Validation.Fields.{
  ValidatedCustomer, email_issues, name_issues, phone_issues, source_issues, validate_email,
  validate_name, validate_phone, validate_source,
}
use customer_data_foundation.Validation.Headers.{validate_headers}
use customer_data_foundation.Validation.Batch.{
  CsvRow, Batch, File, readable, header, lookup, finish_row, customer_of, email_issues_of,
  field_issues, earlier_row, row_issues, check_row, count_row, check_rows, max_file_bytes,
}
use customer_data_foundation.Validation.Clean.{
  IsCustomer, IsVisible, DistinctEmails, see_new, email_nil,
}
use customer_data_foundation.Validation.Rows.{yields, customers_from}

module _ (u : Unicode) where
  -- the reader of the file yields a good header and at most `max_rows` plain rows, whose normalized
  -- values are well-formed customers with pairwise different emails
  pub record IsGood (max_rows : ℕ) (f : File) : Type 0 where
    pub size : ℕ
    pub names : Option (List Text)
    pub rows : List CsvRow
    pub file : f ≡ readable size (header names (yields rows))
    pub bounded : (size ≤ max_file_bytes) × (length rows ≤ max_rows)
    pub headed : validate_headers names ≡ []
    pub plain : All (λ (q : CsvRow). q.extra ≡ false) rows
    pub customers : All (IsCustomer u) (customers_from u 2 rows)
    pub distinct : DistinctEmails u (customers_from u 2 rows)

  email_issues-good :
      (t : Text) (n : ℕ)
      → (t ≢ []) × (length t ≤ 254) × (email_pattern u t ≡ true)
      → email_issues u t n ≡ []
  unfolding email_issues
  email_issues-good [] n h = absurd (h.0 refl)
  email_issues-good (c ∷ t) n h = ground (arith, h.1, h.2)

  name_issues-good : (t : Text) (f : String) (n : ℕ) → IsVisible u 80 t → name_issues u t f n ≡ []
  unfolding name_issues
  name_issues-good [] f n h = absurd (h.0 refl)
  name_issues-good (c ∷ t) f n h = ground (arith, h.1, h.2)

  source_issues-good : (t : Text) (n : ℕ) → IsVisible u 50 t → source_issues u t n ≡ []
  unfolding source_issues
  source_issues-good [] n h = absurd (h.0 refl)
  source_issues-good (c ∷ t) n h = ground (arith, h.1, h.2)

  phone_issues-good :
      (t : Text) (n : ℕ) → (t ≡ []) ⊎ (phone_pattern u t ≡ true) → phone_issues u t n ≡ []
  unfolding phone_issues
  phone_issues-good [] n h = refl
  phone_issues-good (c ∷ t) n (inl e) = absurd (cc)
  phone_issues-good (c ∷ t) n (inr e) = rw e

  field_issues-good :
      (n : ℕ) (r : CsvRow) → IsCustomer u (customer_of u n r) → field_issues u n r ≡ []
  unfolding field_issues customer_of validate_email validate_name validate_phone validate_source
      email_issues_of
  field_issues-good n r c = rw (
    email_issues-good _ n c.email_ok,
    name_issues-good _ "first_name" n c.first_name_ok,
    name_issues-good _ "last_name" n c.last_name_ok,
    phone_issues-good _ n c.phone_ok,
    source_issues-good _ n c.source_ok,
  )

  row_issues-good :
      (n : ℕ) (r : CsvRow) (seen : List (Text × ℕ))
      → r.extra ≡ false
      → IsCustomer u (customer_of u n r)
      → lookup (customer_of u n r).email seen ≡ none
      → row_issues u n r seen ≡ []
  unfolding row_issues earlier_row
  row_issues-good n r seen e c l =
      let f : field_issues u n r ≡ [] = field_issues-good n r c in rw (e, f, email_nil u n r f, l)

  -- emails that are new stay new behind another one
  still_new :
      (e : Text) (n : ℕ) (seen : List (Text × ℕ)) (cs : List ValidatedCustomer)
      → All (λ (c : ValidatedCustomer). c.email ≢ e) cs
      → All (λ (c : ValidatedCustomer). lookup c.email seen ≡ none) cs
      → All (λ (c : ValidatedCustomer). lookup c.email ((e, n) ∷ seen) ≡ none) cs
  still_new e n seen [] d l = tt
  still_new e n seen (c ∷ cs) d l = (
    elim (Bool-cases (text_eq e c.email)) [
      | inl same ↦ absurd (d.0 (sym (text_eq→eq e c.email same)))
      | inr other ↦ rw other l.0
    ],
    still_new e n seen cs d.1 l.1,
  )

  -- a good row leaves no issue, and only its email is remembered
  check_row-good :
      (n : ℕ) (r : CsvRow) (b : Batch)
      → r.extra ≡ false
      → IsCustomer u (customer_of u n r)
      → lookup (customer_of u n r).email b.seen_emails ≡ none
      → ((check_row u n r (count_row b)).issues ≡ b.issues)
        × ((check_row u n r (count_row b)).total_rows ≡ b.total_rows + 1)
        × ((check_row u n r (count_row b)).seen_emails
            ≡ ((customer_of u n r).email, n) ∷ b.seen_emails)
  unfolding check_row finish_row
  check_row-good n r b e c l =
      let f : row_issues u n r b.seen_emails ≡ [] = row_issues-good n r b.seen_emails e c l in
      (
        rw f,
        rw f,
        rw (f, see_new u n r b.seen_emails (email_nil u n r (field_issues-good n r c)) l),
      )

  pub check_rows-good :
      (max_rows n : ℕ) (rs : List CsvRow) (b : Batch)
      → b.issues ≡ []
      → b.total_rows + length rs ≤ max_rows
      → All (λ (q : CsvRow). q.extra ≡ false) rs
      → All (IsCustomer u) (customers_from u n rs)
      → DistinctEmails u (customers_from u n rs)
      → All (λ (c : ValidatedCustomer). lookup c.email b.seen_emails ≡ none) (customers_from u n rs)
      → (check_rows u max_rows n (yields rs) b).issues ≡ []
  unfolding check_rows
  check_rows-good max_rows n [] b h t p v d l = h
  check_rows-good max_rows n (r ∷ rs) b h t p v d l =
      let same : IsCustomer u (customer_of u n r) =
        unfold customer_of validate_email validate_name validate_phone validate_source in v.0 in
      let new : lookup (customer_of u n r).email b.seen_emails ≡ none =
        unfold customer_of validate_email in l.0 in
      let (i, k, s) = check_row-good n r b p.0 same new in
      let under : ltb max_rows (b.total_rows + 1) ≡ false = ground (arith, t) in
      rw under (
        check_rows-good max_rows (n + 1) rs (check_row u n r (count_row b)) (i ∙ h)
          (omega (arith, t, k)) p.1 v.1 d.1
          (rw s (
            unfold customer_of validate_email in
            still_new _ n b.seen_emails (customers_from u (n + 1) rs) d.0 l.1)))
