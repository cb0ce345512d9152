-- ===== src/Validation/Accepted.antt =====
-- What `validate_csv` promises of an accepted and of a rejected file.
use customer_data_foundation.Prelude.{
  ℕ, ◌+◌, ◌≤◌, ◌≡◌, refl, true, false, List, [], ◌∷◌, arith, ltb, if◌then◌else◌, Option, none, ap,
  All, Bool-cases, inl, inr,
}
use customer_data_foundation.Text.{Text, Unicode}
use customer_data_foundation.Validation.Fields.{
  ValidationIssue, ValidatedCustomer, ValidationResult, no_issue, accepted,
}
use customer_data_foundation.Validation.Headers.{validate_headers}
use customer_data_foundation.Validation.Batch.{
  lookup, Rows, Contents, undecodable, malformed, header, File, unreadable, readable, Batch,
  check_rows, empty_batch, result_of, check_contents, validate_csv, max_file_bytes,
}
use customer_data_foundation.Validation.Invariant.{check_rows-Inv, empty_batch-Inv}
use customer_data_foundation.Validation.Rows.{IsRead, Read, check_rows-Read, yields, customers_from}
use customer_data_foundation.Validation.Complete.{IsGood, check_rows-good}
use customer_data_foundation.Validation.Clean.{IsCustomer, DistinctEmails, Inv}

module _ (u : Unicode) where
  -- what a result promises, accepted or not
  pub record Strict (max_rows : ℕ) (f : File) (r : ValidationResult) : Type 0 where
    pub customers : All (IsCustomer u) r.records
    pub distinct : DistinctEmails u r.records
    pub all_rows : accepted r ≡ true → IsRead u max_rows f r
    pub refused : accepted r ≡ false → IsGood u max_rows f → ⊥
    pub nothing : accepted r ≡ false → r.records ≡ []
    pub counts : (r.valid_rows ≤ r.total_rows) × (r.total_rows ≤ max_rows + 1)

  rejected-Strict :
      (max_rows : ℕ) (f : File) (i : ValidationIssue) (is : List ValidationIssue)
      → (IsGood u max_rows f → ⊥)
      → Strict max_rows f (record { total_rows = 0; valid_rows = 0; issues = i ∷ is; records = [] })
  unfolding accepted
  rejected-Strict max_rows f i is bad = record {
    customers = tt;
    distinct = tt;
    all_rows = λ h. absurd (cc);
    refused = λ h. bad;
    nothing = λ h. refl;
    counts = omega arith;
  }

  result_of-Strict :
      (max_rows : ℕ) (f : File) (b : Batch)
      → Inv u b
      → b.total_rows ≤ max_rows + 1
      → (b.issues ≡ [] → IsRead u max_rows f (result_of b))
      → (IsGood u max_rows f → b.issues ≡ [])
      → Strict max_rows f (result_of b)
  unfolding result_of accepted
  result_of-Strict max_rows f b v t l good = by_issues b.issues refl
    where
      by_issues : (is : List ValidationIssue) → b.issues ≡ is → Strict max_rows f (result_of b)
      by_issues [] clean = record {
        customers = rw clean v.customers;
        distinct = rw clean v.distinct;
        all_rows = λ h. l clean;
        refused = λ h. absurd (cc (rw clean at h));
        nothing = λ h. absurd (cc (rw clean at h));
        counts = (v.within, t);
      }
      by_issues (i ∷ is) dirty = record {
        customers = rw dirty tt;
        distinct = rw dirty tt;
        all_rows = λ h. absurd (cc (rw dirty at h));
        refused = λ h g. cc (good g, dirty);
        nothing = λ h. rw dirty refl;
        counts = (v.within, t);
      }

  -- a loop without issues behind a good header
  loop-IsRead :
      (max_rows size : ℕ) (names : Option (List Text)) (rs : Rows) (b : Batch)
      → size ≤ max_file_bytes
      → validate_headers names ≡ []
      → Read u 2 rs empty_batch b
      → (no_issue b.issues ≡ true → b.total_rows ≤ max_rows)
      → b.issues ≡ []
      → IsRead u max_rows (readable size (header names rs)) (result_of b)
  unfolding result_of
  loop-IsRead max_rows size names rs b small good w t clean = record {
    size = size;
    names = names;
    rows = w.rows;
    file = ap (λ (q : Rows). readable size (header names q)) w.all;
    bounded = (small, omega (arith, w.total, t (rw clean refl)));
    headed = good;
    plain = w.plain;
    one_each = rw clean w.records;
    counted = (omega (arith, w.total), omega (arith, w.valid));
  }

  -- a loop over a good file leaves no issue
  loop-good :
      (max_rows size : ℕ) (names : Option (List Text)) (rs : Rows)
      → IsGood u max_rows (readable size (header names rs))
      → (check_rows u max_rows 2 rs empty_batch).issues ≡ []
  loop-good max_rows size names rs g = rw (same_rows g.file) (
      check_rows-good u max_rows 2 g.rows empty_batch refl (omega (arith, g.bounded.1)) g.plain
        g.customers g.distinct (all_new (customers_from u 2 g.rows)))
    where
      same_rows :
          readable size (header names rs) ≡ readable g.size (header g.names (yields g.rows))
          → rs ≡ yields g.rows
      same_rows e = cc

      all_new :
          (cs : List ValidatedCustomer)
          → All (λ (c : ValidatedCustomer). lookup c.email empty_batch.seen_emails ≡ none) cs
      all_new [] = tt
      all_new (c ∷ cs) = (refl, all_new cs)

  headers-Strict :
      (max_rows size : ℕ) (names : Option (List Text)) (rs : Rows) (is : List ValidationIssue)
      → size ≤ max_file_bytes
      → validate_headers names ≡ is
      → Strict max_rows (readable size (header names rs)) (
          if no_issue is
          then result_of (check_rows u max_rows 2 rs empty_batch)
          else record { total_rows = 0; valid_rows = 0; issues = is; records = [] })
  headers-Strict max_rows size names rs [] small good =
      let (v, t, l) =
        check_rows-Inv u max_rows 2 rs empty_batch (omega arith) (empty_batch-Inv u) in
      result_of-Strict max_rows (readable size (header names rs))
        (check_rows u max_rows 2 rs empty_batch) v t
        (λ clean.
          loop-IsRead max_rows size names rs _ small good
            (check_rows-Read u max_rows 2 rs empty_batch clean) l clean)
        (loop-good max_rows size names rs)
  headers-Strict max_rows size names rs (i ∷ is) small bad =
      rejected-Strict max_rows (readable size (header names rs)) i is
        (λ g. other_headers g.names g.headed g.file)
    where
      other_headers :
          {n : ℕ} {q : Rows} (ns : Option (List Text))
          → validate_headers ns ≡ []
          → readable size (header names rs) ≡ readable n (header ns q)
          → ⊥
      other_headers ns h e = cc (h, e, bad)

  contents-Strict :
      (max_rows size : ℕ) (c : Contents)
      → size ≤ max_file_bytes
      → Strict max_rows (readable size c) (check_contents u max_rows c)
  unfolding check_contents
  contents-Strict max_rows size undecodable small =
      unfold result_of in
      rejected-Strict max_rows (readable size undecodable) _ [] (λ g. cc (g.file))
  contents-Strict max_rows size malformed small =
      unfold result_of in rejected-Strict max_rows (readable size malformed) _ [] (λ g. cc (g.file))
  contents-Strict max_rows size (header names rs) small =
      headers-Strict max_rows size names rs (validate_headers names) small refl

  -- For every file, whatever the reader yields: the records that come out are well-formed customers
  -- with pairwise different emails. An accepted file is one of at most 10 MiB with a good header, whose
  -- rows have no values without a header, are at most the limit and end without an exception; its
  -- records are the normalized values of exactly these rows, in their order and with their line
  -- numbers, and both counts are their number. A rejected file gives no record, and it is not such a
  -- file whose normalized rows are well-formed customers with pairwise different emails. The counts
  -- are in range.
  pub validate_csv-Strict :
      (max_rows : ℕ) (f : File) → Strict max_rows f (validate_csv u max_rows f)
  unfolding validate_csv
  validate_csv-Strict max_rows unreadable =
      rejected-Strict max_rows unreadable _ [] (λ g. cc (g.file))
  validate_csv-Strict max_rows (readable size contents) =
      elim (Bool-cases (ltb max_file_bytes size)) [
        | inl large ↦ rw large (
            rejected-Strict max_rows (readable size contents) _ []
              (λ g. too_large g.size g.bounded.0 large g.file))
        | inr small ↦ rw small (contents-Strict max_rows size contents (ground (arith, small)))
      ]
    where
      too_large :
          {c : Contents} (n : ℕ)
          → n ≤ max_file_bytes
          → ltb max_file_bytes size ≡ true
          → readable size contents ≡ readable n c
          → ⊥
      too_large n small large e = let same : size ≡ n = cc in ground (arith, small, large, same)
