-- ===== src/Validation/Clean.antt =====
-- What a row without issues gives: a well-formed customer with a new email.
use customer_data_foundation.Prelude.{
  ℕ, ◌≤◌, ◌≡◌, ◌≢◌, refl, Bool, true, false, List, [], ◌∷◌, ◌++◌, Option, none, some, arith, length,
  All, String, is_some, inl, inr, ◌⊎◌,
}
use customer_data_foundation.Text.{Text, Unicode, is_empty, isprintable}
use customer_data_foundation.Validation.Patterns.{email_pattern, phone_pattern}
use customer_data_foundation.Validation.Fields.{
  ValidatedCustomer, no_issue, email_issues, name_issues, phone_issues, source_issues,
  validate_email, validate_name, validate_phone, validate_source,
}
use customer_data_foundation.Validation.Batch.{
  CsvRow, Batch, lookup, extra_issues, duplicate_issues, customer_of, email_issues_of, field_issues,
  earlier_row, see_email, row_issues,
}

module _ (u : Unicode) where
  -- a name or a source: visible text of bounded length
  abbrev pub IsVisible : ℕ → Text → Type 0
  IsVisible n t = (t ≢ []) × (length t ≤ n) × (isprintable u t ≡ true)

  pub record IsCustomer (c : ValidatedCustomer) : Type 0 where
    pub email_ok : (c.email ≢ []) × (length c.email ≤ 254) × (email_pattern u c.email ≡ true)
    pub first_name_ok : IsVisible 80 c.first_name
    pub last_name_ok : IsVisible 80 c.last_name
    pub phone_ok : (c.phone ≡ []) ⊎ (phone_pattern u c.phone ≡ true)
    pub source_ok : IsVisible 50 c.source

  -- no two customers share an email
  abbrev pub DistinctEmails : List ValidatedCustomer → Type 0
  DistinctEmails [] = Unit
  DistinctEmails (c ∷ cs) =
      All (λ (d : ValidatedCustomer). d.email ≢ c.email) cs × DistinctEmails cs

  pub record Inv (b : Batch) : Type 0 where
    pub customers : All IsCustomer b.validated_records
    pub known :
        All
          (λ (c : ValidatedCustomer). is_some (lookup c.email b.seen_emails) ≡ true)
          b.validated_records
    pub distinct : DistinctEmails b.validated_records
    pub counted : b.valid_rows ≡ length b.validated_records
    pub within : b.valid_rows ≤ b.total_rows
    pub complete : no_issue b.issues ≡ true → b.valid_rows ≡ b.total_rows

  pub append_nil : {A : Type 0} (xs ys : List A) → xs ++ ys ≡ [] → (xs ≡ []) × (ys ≡ [])
  append_nil [] ys h = (refl, h)
  append_nil (x ∷ xs) ys h = absurd (cc)

  pub nil_ne : (t : Text) → is_empty t ≡ false → t ≢ []
  nil_ne [] h e = cc
  nil_ne (c ∷ t) h e = cc

  pub email_issues-nil :
      (t : Text) (n : ℕ)
      → email_issues u t n ≡ []
      → (t ≢ []) × (length t ≤ 254) × (email_pattern u t ≡ true)
  unfolding email_issues
  email_issues-nil [] n h = absurd (cc)
  email_issues-nil (c ∷ t) n h =
      ((λ e. cc), unfold email_pattern in ground (arith, h), ground (arith, h))

  pub name_issues-nil : (t : Text) (f : String) (n : ℕ) → name_issues u t f n ≡ [] → IsVisible 80 t
  unfolding name_issues
  name_issues-nil [] f n h = absurd (cc)
  name_issues-nil (c ∷ t) f n h = ((λ e. cc), ground (arith, h), ground (arith, h))

  pub source_issues-nil : (t : Text) (n : ℕ) → source_issues u t n ≡ [] → IsVisible 50 t
  unfolding source_issues
  source_issues-nil [] n h = absurd (cc)
  source_issues-nil (c ∷ t) n h = ((λ e. cc), ground (arith, h), ground (arith, h))

  pub phone_issues-nil :
      (t : Text) (n : ℕ) → phone_issues u t n ≡ [] → (t ≡ []) ⊎ (phone_pattern u t ≡ true)
  unfolding phone_issues
  phone_issues-nil [] n h = inl refl
  phone_issues-nil (c ∷ t) n h = inr (ground (arith, h))

  -- a row without issues gives a customer
  pub field_issues-nil :
      (n : ℕ) (r : CsvRow) → field_issues u n r ≡ [] → IsCustomer (customer_of u n r)
  unfolding field_issues customer_of validate_email validate_name validate_phone validate_source
      email_issues_of
  field_issues-nil n r h =
      let (e, h1) = append_nil _ _ h in
      let (f, h2) = append_nil _ _ h1 in
      let (l, h3) = append_nil _ _ h2 in
      let (p, s) = append_nil _ _ h3 in
      record {
        email_ok = email_issues-nil _ n e;
        first_name_ok = name_issues-nil _ "first_name" n f;
        last_name_ok = name_issues-nil _ "last_name" n l;
        phone_ok = phone_issues-nil _ n p;
        source_ok = source_issues-nil _ n s;
      }

  pub extra_nil : (b : Bool) (n : ℕ) → extra_issues b n ≡ [] → b ≡ false
  extra_nil false n h = refl
  extra_nil true n h = absurd (cc)

  pub duplicate_nil : (o : Option ℕ) (n : ℕ) → duplicate_issues o n ≡ [] → o ≡ none
  duplicate_nil none n h = refl
  duplicate_nil (some k) n h = absurd (cc)

  pub new_email :
      (n : ℕ) (r : CsvRow) (seen : List (Text × ℕ))
      → email_issues_of u n r ≡ []
      → earlier_row u n r seen ≡ none
      → lookup (customer_of u n r).email seen ≡ none
  unfolding earlier_row
  new_email n r seen e d = rw e at d

  pub see_new :
      (n : ℕ) (r : CsvRow) (seen : List (Text × ℕ))
      → email_issues_of u n r ≡ []
      → lookup (customer_of u n r).email seen ≡ none
      → see_email u n r seen ≡ ((customer_of u n r).email, n) ∷ seen
  unfolding see_email
  see_new n r seen e k = rw (e, k)

  pub email_nil : (n : ℕ) (r : CsvRow) → field_issues u n r ≡ [] → email_issues_of u n r ≡ []
  unfolding field_issues
  email_nil n r h = (append_nil _ _ h).0

  pub row_parts :
      (n : ℕ) (r : CsvRow) (seen : List (Text × ℕ))
      → row_issues u n r seen ≡ []
      → (field_issues u n r ≡ []) × (duplicate_issues (earlier_row u n r seen) n ≡ [])
  unfolding row_issues
  row_parts n r seen h = let (x, rest) = append_nil _ _ h in append_nil (field_issues u n r) _ rest

  -- a row without issues is well formed, and its email is new and now remembered
  pub row_issues-nil :
      (n : ℕ) (r : CsvRow) (seen : List (Text × ℕ))
      → row_issues u n r seen ≡ []
      → IsCustomer (customer_of u n r)
        × (lookup (customer_of u n r).email seen ≡ none)
        × (see_email u n r seen ≡ ((customer_of u n r).email, n) ∷ seen)
  row_issues-nil n r seen h =
      let (f, d) = row_parts n r seen h in
      let e : email_issues_of u n r ≡ [] = email_nil n r f in
      let k : lookup (customer_of u n r).email seen ≡ none =
        new_email n r seen e (duplicate_nil _ n d) in
      (field_issues-nil n r f, k, see_new n r seen e k)
