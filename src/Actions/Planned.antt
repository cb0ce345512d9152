-- ===== src/Actions/Planned.antt =====
-- What the local planner of actions plans.
use Prim.Native.Char.{code}
use customer_data_foundation.Prelude.{
  ◌≡◌, refl, Bool, true, false, ◌&&◌, Option, none, some, String, ok, ok-injective, ap, leb, arith,
  Bool-cases, inl, inr,
}
use customer_data_foundation.Text.{Unicode}
use customer_data_foundation.Actions.{Template, Reason, PlannedAction}
use customer_data_foundation.Actions.Planner.{
  is_reference_char, after_prefix, find_template, find_reason, size, reference_run, after_cust,
  reference_after, reference_at, first_found, find_reference, explicit, plan_locally, all_chars,
  is_reference,
}

module _ (u : Unicode) where
  reference_run-All : (t : String) → all_chars is_reference_char (reference_run u t).0 ≡ true
  unfolding reference_run
  reference_run-All String.[] = refl
  reference_run-All (String.◌∷◌ c t) = elim (Bool-cases (is_reference_char (code c))) [
    | inl e ↦ rw (e, e) (reference_run-All t)
    | inr e ↦ rw e refl
  ]

  after_cust-is_reference :
      (x : String × Bool) {r : String}
      → all_chars is_reference_char x.0 ≡ true
      → after_cust u x ≡ some r
      → is_reference r ≡ true
  unfolding is_reference
  after_cust-is_reference (run, ends) {r} a h =
      elim (Bool-cases (leb 3 (size run) && leb (size run) 32 && ends)) [
        | inr e ↦ absurd (none_some (rw e at h))
        | inl e ↦ rw (← some_injective (rw e at h)) (
            three (all_chars is_reference_char run) (leb 3 (size run)) (leb (size run) 32) ends a e)
      ]
    where
      none_some : {s : String} → none ≡ some s → ⊥
      none_some k = cc

      some_injective : {s t : String} → some s ≡ some t → s ≡ t
      some_injective k = cc

      three : (x y z w : Bool) → x ≡ true → (y && z && w) ≡ true → (x && y && z) ≡ true
      three x y z w p q = ground (arith, p, q)

  reference_after-is_reference :
      (o : Option String) {r : String} → reference_after u o ≡ some r → is_reference r ≡ true
  reference_after-is_reference none h = absurd (cc)
  reference_after-is_reference (some t) h =
      after_cust-is_reference (reference_run u t) (reference_run-All t) h

  reference_at-is_reference :
      (previous : Bool) (t : String) {r : String}
      → reference_at u previous t ≡ some r
      → is_reference r ≡ true
  unfolding reference_at
  reference_at-is_reference true t h = absurd (cc)
  reference_at-is_reference false t h = reference_after-is_reference (after_prefix "CUST-" t) h

  first_found-is_reference :
      (o p : Option String) {r : String}
      → ((q : String) → o ≡ some q → is_reference q ≡ true)
      → ((q : String) → p ≡ some q → is_reference q ≡ true)
      → first_found u o p ≡ some r
      → is_reference r ≡ true
  first_found-is_reference (some x) p h k e = h _ e
  first_found-is_reference none p h k e = k _ e

  find_reference-is_reference :
      (previous : Bool) (t : String) {r : String}
      → find_reference u previous t ≡ some r
      → is_reference r ≡ true
  unfolding find_reference
  find_reference-is_reference previous String.[] h = absurd (cc)
  find_reference-is_reference previous (String.◌∷◌ c t) h =
      first_found-is_reference (reference_at u previous (String.◌∷◌ c t))
        (find_reference u (u.is_word (code c)) t)
        (λ q e. reference_at-is_reference previous (String.◌∷◌ c t) e)
        (λ q e. find_reference-is_reference (u.is_word (code c)) t e) h

  explicit-parts :
      (request_id : String) (o : Option String) (x : Option Template) (y : Option Reason)
      {p : PlannedAction}
      → explicit u request_id o x y ≡ ok p
      → (o ≡ some p.arguments.customer_reference)
        × (x ≡ some p.arguments.template)
        × (y ≡ some p.arguments.reason)
  explicit-parts request_id (some r) (some x) (some y) h =
      let e = ok-injective h in
      (
        ap (λ (q : PlannedAction). some q.arguments.customer_reference) e,
        ap (λ (q : PlannedAction). some q.arguments.template) e,
        ap (λ (q : PlannedAction). some q.arguments.reason) e,
      )
  explicit-parts request_id none x y h = absurd (cc)
  explicit-parts request_id (some r) none y h = absurd (cc)
  explicit-parts request_id (some r) (some x) none h = absurd (cc)

  -- What the local planner plans is what it finds in the instruction: its reference has the form that
  -- the arguments of an action demand, and its template and its reason are the first that are mentioned
  -- in the planner's order.
  pub plan_locally-is_reference :
      (upper : String → String) (instruction request_id : String) {p : PlannedAction}
      → plan_locally u upper instruction request_id ≡ ok p
      → (is_reference p.arguments.customer_reference ≡ true)
        × (find_template instruction ≡ some p.arguments.template)
        × (find_reason instruction ≡ some p.arguments.reason)
  unfolding plan_locally
  plan_locally-is_reference upper instruction request_id h =
      let (r, x, y) =
        explicit-parts request_id (find_reference u false (upper instruction))
          (find_template instruction) (find_reason instruction) h in
      (find_reference-is_reference false (upper instruction) r, x, y)
