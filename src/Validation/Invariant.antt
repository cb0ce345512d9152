-- ===== src/Validation/Invariant.antt =====
-- The loop of `validate_csv` keeps its invariant.
use customer_data_foundation.Prelude.{
  ℕ, ◌+◌, ◌≤◌, ◌≡◌, ◌≢◌, refl, sym, true, false, List, [], ◌∷◌, ◌++◌, none, arith, ltb, All,
  All-append, length-append, is_some, Bool-cases, Option-cases, inl, inr,
}
use customer_data_foundation.Text.{Text, Unicode, text_eq_refl}
use customer_data_foundation.Validation.Fields.{ValidationIssue, ValidatedCustomer, no_issue}
use customer_data_foundation.Validation.Batch.{
  CsvRow, Rows, end_of_file, decode_error, csv_error, row, Batch, lookup, finish_row, customer_of,
  email_issues_of, see_email, row_issues, check_row, count_row, add_issue, check_rows, empty_batch,
  too_many_rows,
}
use customer_data_foundation.Validation.Clean.{IsCustomer, DistinctEmails, Inv, row_issues-nil}

module _ (u : Unicode) where
  DistinctEmails-append :
      (cs : List ValidatedCustomer) (c : ValidatedCustomer)
      → All (λ (d : ValidatedCustomer). d.email ≢ c.email) cs
      → DistinctEmails u cs
      → DistinctEmails u (cs ++ c ∷ [])
  DistinctEmails-append [] c h d = (tt, tt)
  DistinctEmails-append (x ∷ cs) c h d = (
    All-append (λ (y : ValidatedCustomer). y.email ≢ x.email) cs (c ∷ []) d.0
        ((λ e. h.0 (sym e)), tt),
    DistinctEmails-append cs c h.1 d.1,
  )

  -- what the remembered emails say of the records, after one more email
  grow_known :
      (e : Text) (n : ℕ) (seen : List (Text × ℕ)) (cs : List ValidatedCustomer)
      → All (λ (c : ValidatedCustomer). is_some (lookup c.email seen) ≡ true) cs
      → All (λ (c : ValidatedCustomer). is_some (lookup c.email ((e, n) ∷ seen)) ≡ true) cs
  grow_known e n seen [] h = tt
  grow_known e n seen (c ∷ cs) h = (ground (arith, h.0), grow_known e n seen cs h.1)

  all_new :
      (c : ValidatedCustomer) (seen : List (Text × ℕ)) (cs : List ValidatedCustomer)
      → lookup c.email seen ≡ none
      → All (λ (d : ValidatedCustomer). is_some (lookup d.email seen) ≡ true) cs
      → All (λ (d : ValidatedCustomer). d.email ≢ c.email) cs
  all_new c seen [] k h = tt
  all_new c seen (d ∷ cs) k h = ((λ e. unseen (rw e at h.0)), all_new c seen cs k h.1)
    where
      unseen : is_some (lookup c.email seen) ≡ true → ⊥
      unseen p = cc (rw k at p)

  -- the remembered emails only grow
  see_email-known :
      (n : ℕ) (r : CsvRow) (seen : List (Text × ℕ)) (cs : List ValidatedCustomer)
      → All (λ (c : ValidatedCustomer). is_some (lookup c.email seen) ≡ true) cs
      → All (λ (c : ValidatedCustomer). is_some (lookup c.email (see_email u n r seen)) ≡ true) cs
  see_email-known n r seen cs h = elim (Bool-cases (no_issue (email_issues_of u n r))) [
    | inr bad ↦ unfold see_email in rw bad h
    | inl good ↦ elim (Option-cases (lookup (customer_of u n r).email seen)) [
      | inl e ↦ unfold see_email in rw (good, e) (grow_known (customer_of u n r).email n seen cs h)
      | inr (k, e) ↦ unfold see_email in rw (good, e) h
    ]
  ]

  no_issue-append :
      (is : List ValidationIssue) (i : ValidationIssue) (js : List ValidationIssue)
      → no_issue (is ++ i ∷ js) ≡ false
  no_issue-append [] i js = refl
  no_issue-append (x ∷ is) i js = refl

  -- one row keeps the invariant
  finish_row-Inv :
      (n : ℕ) (r : CsvRow) (b : Batch) (is : List ValidationIssue)
      → row_issues u n r b.seen_emails ≡ is
      → Inv u b
      → Inv u (
          finish_row is
            (customer_of u n r)
            (record (count_row b) { seen_emails = see_email u n r b.seen_emails }))
  unfolding finish_row
  finish_row-Inv n r b [] e v =
      let c : ValidatedCustomer = customer_of u n r in
      let (ok, new, seen) = row_issues-nil u n r b.seen_emails e in
      record {
        customers = All-append (IsCustomer u) b.validated_records (c ∷ []) v.customers (ok, tt);
        known = rw seen (
            All-append
              (λ (d : ValidatedCustomer).
                is_some (lookup d.email ((c.email, n) ∷ b.seen_emails)) ≡ true)
              b.validated_records (c ∷ [])
              (grow_known c.email n b.seen_emails b.validated_records v.known)
              (rw (text_eq_refl c.email) refl, tt));
        distinct =
            DistinctEmails-append b.validated_records c
              (all_new c b.seen_emails b.validated_records new v.known) v.distinct;
        counted = omega (arith, v.counted, length-append b.validated_records (c ∷ []));
        within = omega (arith, v.within);
        complete = λ h. omega (arith, v.complete h);
      }
  finish_row-Inv n r b (i ∷ is) e v = record {
    customers = v.customers;
    known = see_email-known n r b.seen_emails b.validated_records v.known;
    distinct = v.distinct;
    counted = v.counted;
    within = omega (arith, v.within);
    complete = λ h. absurd (cc (h, no_issue-append b.issues i is));
  }

  add_issue-Inv :
      (i : ValidationIssue) (b : Batch)
      → b.valid_rows ≤ b.total_rows
      → Inv u b
      → Inv u (add_issue i b)
  add_issue-Inv i b w v = record {
    customers = v.customers;
    known = v.known;
    distinct = v.distinct;
    counted = v.counted;
    within = v.within;
    complete = λ h. absurd (cc (h, no_issue-append b.issues i []));
  }

  too_many-Inv :
      (max_rows : ℕ) (b : Batch)
      → Inv u b
      → Inv u (add_issue (too_many_rows max_rows) (count_row b))
  too_many-Inv max_rows b v = record {
    customers = v.customers;
    known = v.known;
    distinct = v.distinct;
    counted = v.counted;
    within = omega (arith, v.within);
    complete = λ h. absurd (cc (h, no_issue-append b.issues (too_many_rows max_rows) []));
  }

  check_row-total :
      (n : ℕ) (r : CsvRow) (b : Batch)
      → (check_row u n r (count_row b)).total_rows ≡ b.total_rows + 1
  unfolding check_row finish_row
  check_row-total n r b = by_issues (row_issues u n r b.seen_emails)
    where
      by_issues :
          (is : List ValidationIssue)
          → (finish_row is
              (customer_of u n r)
              (record (count_row b) { seen_emails = see_email u n r b.seen_emails })).total_rows
            ≡ b.total_rows + 1
      by_issues [] = refl
      by_issues (i ∷ is) = refl

  -- the loop keeps the invariant, and counts one row too many at most, with an issue
  pub check_rows-Inv :
      (max_rows n : ℕ) (rs : Rows) (b : Batch)
      → b.total_rows ≤ max_rows
      → Inv u b
      → Inv u (check_rows u max_rows n rs b)
        × ((check_rows u max_rows n rs b).total_rows ≤ max_rows + 1)
        × (no_issue (check_rows u max_rows n rs b).issues ≡ true
            → (check_rows u max_rows n rs b).total_rows ≤ max_rows)
  unfolding check_rows
  check_rows-Inv max_rows n end_of_file b t v = (v, omega arith, λ h. t)
  check_rows-Inv max_rows n decode_error b t v = (add_issue-Inv _ b v.within v, omega arith, λ h. t)
  check_rows-Inv max_rows n csv_error b t v = (add_issue-Inv _ b v.within v, omega arith, λ h. t)
  check_rows-Inv max_rows n (row r rest) b t v =
      elim (Bool-cases (ltb max_rows (b.total_rows + 1))) [
        | inl over ↦ rw over (
          too_many-Inv max_rows b v,
          omega arith,
          λ h. absurd (cc (h, no_issue-append b.issues (too_many_rows max_rows) [])),
        )
        | inr under ↦ rw under (
            check_rows-Inv max_rows (n + 1) rest (check_row u n r (count_row b))
              (rw (check_row-total n r b) (ground (arith, under)))
              (unfold check_row in finish_row-Inv n r b (row_issues u n r b.seen_emails) refl v))
      ]

  pub empty_batch-Inv : Inv u empty_batch
  empty_batch-Inv = record {
    customers = tt;
    known = tt;
    distinct = tt;
    counted = refl;
    within = omega arith;
    complete = λ h. refl;
  }
