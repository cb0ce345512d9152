-- ===== src/Outbox/Retry.antt =====
-- The retry policy of `mark_failed_attempt`: backoff, exhaustion and dead letters.
use Prim.Native.Nat.pow
use customer_data_foundation.Prelude.{
  subst, ℕ, zero, suc, ◌+◌, ◌*◌, ◌-◌, ◌^◌, ◌≤◌, ◌<◌, ◌≡◌, refl, Bool, true, false, List, none, some,
  arith, ok, ◌⊎◌, In, if◌then◌else◌,
}
use customer_data_foundation.Sql.{Timestamp, second, update, In-any_of, In-update}
use customer_data_foundation.Database.{Schema, require_current_schema}
use customer_data_foundation.Outbox.{
  pending, dead_letter, FailureCode, Row, OutboxEvent, marked, holds_lease, fail_row, next_status,
  backoff_seconds, mark_failed_attempt,
}

double_pow : (b n : ℕ) → b * 2 ^ (suc n) ≡ b * 2 ^ n + b * 2 ^ n
double_pow b n = rw pow.suc (omega arith)

pow_step : (b n : ℕ) → b * 2 ^ (n - 1) ≤ b * 2 ^ (suc n - 1)
pow_step b zero = omega arith
pow_step b (suc n) =
    let e : suc (suc n) - 1 ≡ suc n = omega arith in
    let d : suc n - 1 ≡ n = omega arith in rw (e, d) (omega (arith, double_pow b n))

pow_base : (b n : ℕ) → b ≤ b * 2 ^ n
pow_base b zero = omega arith
pow_base b (suc n) = omega (arith, pow_base b n, double_pow b n)

-- If the base is not above the cap, the wait is at least the base, at most the cap, and does not
-- fall when there is one more attempt.
pub backoff_bounds :
    (a base cap : ℕ)
    → base ≤ cap
    → (base ≤ backoff_seconds a base cap)
      × (backoff_seconds a base cap ≤ cap)
      × (backoff_seconds a base cap ≤ backoff_seconds (suc a) base cap)
unfolding backoff_seconds
backoff_bounds a base cap h =
    (omega (arith, pow_base base (a - 1)), omega arith, omega (arith, pow_step base a))

-- what a failed attempt leaves of its row
pub record Failed (now : Timestamp) (e : OutboxEvent) (c : FailureCode) (retry : Bool)
    (m base cap : ℕ) (r : Row) : Type 0 where
  pub same_event : r.event_id ≡ e.event_id
  pub same_attempt : r.attempt_count ≡ e.attempt_count
  pub unleased : r.lease_expires_at ≡ none
  pub coded : r.last_failure_code ≡ some c
  pub retried :
      (retry ≡ true) × (e.attempt_count < m)
      → (r.status ≡ pending)
        × (now + base * second ≤ r.available_at)
        × (r.available_at ≤ now + cap * second)
  pub exhausted : (retry ≡ false) ⊎ (m ≤ e.attempt_count) → r.status ≡ dead_letter

fail_row-Failed :
    (now : Timestamp) (e : OutboxEvent) (c : FailureCode) (retry : Bool) (m base cap : ℕ) (r : Row)
    → base ≤ cap
    → holds_lease e r ≡ true
    → Failed now e c retry m base cap (
        fail_row now
          (next_status e.attempt_count retry m)
          (backoff_seconds e.attempt_count base cap)
          c
          r)
unfolding fail_row next_status
fail_row-Failed now e c retry m base cap r h t = record {
  same_event = ground (arith, t);
  same_attempt = ground (arith, t);
  unleased = refl;
  coded = refl;
  retried = λ k. ground (arith, backoff_bounds e.attempt_count base cap h, k);
  exhausted = λ k. ground (arith, k);
}

-- On a current schema, with a base backoff of at most the cap, a worker that still holds the lease
-- and reports a failure gets the new status back. The event is pending again, due between the base
-- and the cap from now, if the failure is retryable and attempts are left; otherwise it is in dead
-- letter. Its code is recorded and its lease ends.
pub mark_failed_attempt-Failed :
    (schema : Schema) (now : Timestamp) (e : OutboxEvent) (c : FailureCode) (retry : Bool)
    (m base cap : ℕ) (rows : List Row) (r : Row) {u : Unit {0}}
    → require_current_schema schema ≡ ok u
    → base ≤ cap
    → In r rows
    → holds_lease e r ≡ true
    → ((q : Row) × (rows' : List Row) × (mark_failed_attempt schema now e c retry m base cap rows
          ≡ ok (marked q.status, rows'))
        × In q rows'
        × Failed now e c retry m base cap q)
unfolding mark_failed_attempt
mark_failed_attempt-Failed schema now e c retry m base cap rows r s h i t =
    let f : Row → Row =
      fail_row now (next_status e.attempt_count retry m) (backoff_seconds e.attempt_count base cap)
        c in
    (
      f r,
      update (holds_lease e) f rows,
      rw (s, In-any_of (holds_lease e) rows i t) (unfold fail_row in refl),
      subst (λ (b : Bool). In (if b then f r else r) (update (holds_lease e) f rows)) t
          (In-update (holds_lease e) f rows r i),
      fail_row-Failed now e c retry m base cap r h t,
    )
