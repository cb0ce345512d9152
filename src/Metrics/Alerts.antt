-- ===== src/Metrics/Alerts.antt =====
-- What the counts and the alerts say of the tables.
use customer_data_foundation.Prelude.{
  String, and_true, ℕ, suc, ◌+◌, ◌-◌, ◌*◌, ◌≤◌, ◌<◌, ◌≡◌, ◌↔◌, refl, Bool, true, false, not, ◌&&◌,
  List, [], ◌∷◌, ◌++◌, Result, ok, err, ◌>>=◌, inl, inr, arith, All, Bool-cases, leb, leb→le,
  length, select, if◌then◌else◌, max,
}
use customer_data_foundation.Sql.{Timestamp, second}
use customer_data_foundation.Database.{Schema, require_current_schema}
use customer_data_foundation.Outbox
use customer_data_foundation.Outbox.{ImportStatus, pending, delivering, delivered, dead_letter}
use customer_data_foundation.Operations.{Operation, Tables, is_processing}
use customer_data_foundation.Metrics.{
  is_failed, delivered_status, dead_status, OperationalSnapshot, is_expired, is_pending,
  is_delivering, is_delivered, is_dead_letter, is_undelivered, count, oldest, take_snapshot,
  collect_snapshot, alert_if, evaluate_alerts, exit_code, exit_snapshot, main,
}

-- nothing that wants an operator
pub record IsHealthy (now : Timestamp) (threshold : ℕ) (t : Tables) : Type 0 where
  pub no_expired : All (λ r. is_expired now r ≡ false) t.operations
  pub no_dead : All (λ r. is_dead_letter r ≡ false) t.outbox
  pub no_delay :
      All (λ r. is_undelivered r ≡ true → now < r.created_at + threshold * second) t.outbox

count_none :
    {A : Type 0} (test : A → Bool) (rows : List A)
    → leb 1 (count test rows) ≡ false
    → All (λ r. test r ≡ false) rows
count_none test [] h = tt
count_none test (r ∷ rows) h = elim (Bool-cases (test r)) [
  | inl e ↦ absurd (ground (arith, rw e at h))
  | inr e ↦ (e, count_none test rows (rw e at h))
]

none_count :
    {A : Type 0} (test : A → Bool) (rows : List A)
    → All (λ r. test r ≡ false) rows
    → leb 1 (count test rows) ≡ false
none_count test [] h = refl
none_count test (r ∷ rows) h = rw h.0 (none_count test rows h.1)

young :
    (now threshold : ℕ) (rows : List Outbox.Row)
    → leb (threshold * second) (oldest now (select is_undelivered rows)) ≡ false
    → All (λ r. is_undelivered r ≡ true → now < r.created_at + threshold * second) rows
young now threshold [] h = tt
young now threshold (r ∷ rows) h = elim (Bool-cases (is_undelivered r)) [
  | inl e ↦
      let k = rw e at h in
      (
        (λ i. below (now - r.created_at) now r.created_at (threshold * second) _ refl k),
        young now threshold rows (rest (now - r.created_at) (threshold * second) _ k),
      )
  | inr e ↦ ((λ i. cc (e, i)), young now threshold rows (rw e at h))
]
  where
    below : (d n c w o : ℕ) → d ≡ n - c → leb w (max d o) ≡ false → n < c + w
    below d n c w o e h = ground (arith, e, h)

    rest : (d w o : ℕ) → leb w (max d o) ≡ false → leb w o ≡ false
    rest d w o h = ground (arith, h)

not_old :
    (now threshold : ℕ) (rows : List Outbox.Row)
    → 1 ≤ threshold
    → All (λ r. is_undelivered r ≡ true → now < r.created_at + threshold * second) rows
    → leb (threshold * second) (oldest now (select is_undelivered rows)) ≡ false
not_old now threshold [] p h = ground (arith, p)
not_old now threshold (r ∷ rows) p h = elim (Bool-cases (is_undelivered r)) [
  | inl e ↦ rw e (
      both (now - r.created_at) (threshold * second) (oldest now (select is_undelivered rows))
        (less now r.created_at (threshold * second) (ground (arith, p)) (h.0 e))
        (not_old now threshold rows p h.1))
  | inr e ↦ rw e (not_old now threshold rows p h.1)
]
  where
    both : (d w o : ℕ) → d < w → leb w o ≡ false → leb w (max d o) ≡ false
    both d w o h k = ground (arith, h, k)

    less : (n c w : ℕ) → 1 ≤ w → n < c + w → n - c < w
    less n c w p h = ground (arith, p, h)

no_alerts :
    (a b c : Bool) (x y z : String) (l m n : ℕ)
    → exit_code (alert_if a x "critical" l ++ alert_if b y "critical" m ++ alert_if c z "warning" n)
      ≡ 0
    → (a ≡ false) × (b ≡ false) × (c ≡ false)
no_alerts a b c x y z l m n h = ground (arith, h)

exit_code-IsHealthy :
    (now threshold : ℕ) (t : Tables)
    → exit_code (evaluate_alerts threshold (take_snapshot now t)) ≡ 0
    → IsHealthy now threshold t
unfolding evaluate_alerts take_snapshot
exit_code-IsHealthy now threshold t h =
    let (a, b, c) = no_alerts _ _ _ _ _ _ _ _ _ h in
    record {
      no_expired = count_none (is_expired now) t.operations a;
      no_dead = count_none is_dead_letter t.outbox b;
      no_delay = young now threshold t.outbox c;
    }

IsHealthy-exit_code :
    (now threshold : ℕ) (t : Tables)
    → 1 ≤ threshold
    → IsHealthy now threshold t
    → exit_code (evaluate_alerts threshold (take_snapshot now t)) ≡ 0
unfolding evaluate_alerts take_snapshot
IsHealthy-exit_code now threshold t p h =
    rw
      (
        none_count (is_expired now) t.operations h.no_expired,
        none_count is_dead_letter t.outbox h.no_dead,
        not_old now threshold t.outbox p h.no_delay,
      )
      refl

ran :
    (m : Result (Unit {0})) (threshold : ℕ) (s : OperationalSnapshot)
    → exit_snapshot threshold (m >>= λ _. ok s) ≡ 0
    → (m ≡ ok tt) × (exit_code (evaluate_alerts threshold s) ≡ 0)
ran (err e) threshold s h = absurd (ground (arith, h))
ran (ok tt) threshold s h = (refl, h)

main_to :
    (configured : Bool) (schema : Schema) (now threshold : ℕ) (t : Tables)
    → main configured schema now threshold t ≡ 0
    → (1 ≤ threshold)
      × (threshold ≤ 86_400)
      × (configured ≡ true)
      × (require_current_schema schema ≡ ok tt)
      × IsHealthy now threshold t
unfolding main collect_snapshot
main_to configured schema now threshold t h =
    elim (Bool-cases (leb 1 threshold && leb threshold 86_400)) [
      | inr e ↦ absurd (ground (arith, rw e at h))
      | inl e ↦
          let (a, b) = and_true (leb 1 threshold) (leb threshold 86_400) e in
          configured_to configured (leb→le 1 threshold a) (leb→le threshold 86_400 b) (rw e at h)
    ]
  where
    configured_to :
        (c : Bool)
        → 1 ≤ threshold
        → threshold ≤ 86_400
        → (if not c then 1 else exit_snapshot threshold (collect_snapshot schema now t)) ≡ 0
        → (1 ≤ threshold)
          × (threshold ≤ 86_400)
          × (c ≡ true)
          × (require_current_schema schema ≡ ok tt)
          × IsHealthy now threshold t
    configured_to false a b k = absurd (ground (arith, k))
    configured_to true a b k =
        let (m, z) =
          ran (require_current_schema schema) threshold (take_snapshot now t)
            (unfold collect_snapshot in k) in
        (a, b, refl, m, exit_code-IsHealthy now threshold t z)

-- The command ends with status 0 exactly when its threshold is from 1 to 86400 seconds, its settings
-- are there, the schema is the current one, no operation is left with an expired lease, no event is a
-- dead letter, and every event that is not delivered is younger than the threshold.
pub main_iff :
    (configured : Bool) (schema : Schema) (now threshold : ℕ) (t : Tables)
    → (main configured schema now threshold t ≡ 0) ↔ (
        (1 ≤ threshold)
        × (threshold ≤ 86_400)
        × (configured ≡ true)
        × (require_current_schema schema ≡ ok tt)
        × IsHealthy now threshold t)
unfolding main collect_snapshot
main_iff configured schema now threshold t = (
  main_to configured schema now threshold t,
  λ (a, b, c, m, z).
      let e : (leb 1 threshold && leb threshold 86_400) ≡ true = ground (arith, a, b) in
      rw (e, c, m) (IsHealthy-exit_code now threshold t a z),
)

outbox_partition :
    (rows : List Outbox.Row)
    → count is_pending rows
        + count is_delivering rows
        + count is_delivered rows
        + count is_dead_letter rows
      ≡ length rows
outbox_partition [] = refl
outbox_partition (r ∷ rows) =
    pick r.status r (select is_pending rows) (select is_delivering rows) (select is_delivered rows)
      (select is_dead_letter rows) (length rows) (outbox_partition rows)
  where
    pick :
        (s : Outbox.Status) (r : Outbox.Row) (a b c d : List Outbox.Row) (n : ℕ)
        → length a + length b + length c + length d ≡ n
        → length (if Outbox.is_pending s then r ∷ a else a)
            + length (if Outbox.is_delivering s then r ∷ b else b)
            + length (if delivered_status s then r ∷ c else c)
            + length (if dead_status s then r ∷ d else d)
          ≡ suc n
    pick pending r a b c d n h = omega (arith, h)
    pick delivering r a b c d n h = omega (arith, h)
    pick delivered r a b c d n h = omega (arith, h)
    pick dead_letter r a b c d n h = omega (arith, h)

operations_within :
    (now : Timestamp) (rows : List Operation)
    → (count (λ (r : Operation). is_processing r.status) rows
          + count (λ (r : Operation). is_failed r.status) rows
        ≤ length rows)
      × (count (is_expired now) rows ≤ count (λ (r : Operation). is_processing r.status) rows)
operations_within now [] = (omega arith, omega arith)
operations_within now (r ∷ rows) =
    let (p, q) = operations_within now rows in
    (
      pick r.status r (select (λ (r : Operation). is_processing r.status) rows)
          (select (λ (r : Operation). is_failed r.status) rows) (length rows) p,
      expired (is_processing r.status) (leb r.lease_expires_at now) r (select (is_expired now) rows)
          (select (λ (r : Operation). is_processing r.status) rows) q,
    )
  where
    pick :
        (s : ImportStatus) (r : Operation) (a b : List Operation) (n : ℕ)
        → length a + length b ≤ n
        → length (if is_processing s then r ∷ a else a) + length (if is_failed s then r ∷ b else b)
          ≤ suc n
    pick s r a b n h = ground (arith, h)

    expired :
        (x y : Bool) (r : Operation) (a b : List Operation)
        → length a ≤ length b
        → length (if x && y then r ∷ a else a) ≤ length (if x then r ∷ b else b)
    expired true true r a b h = omega (arith, h)
    expired true false r a b h = omega (arith, h)
    expired false true r a b h = h
    expired false false r a b h = h

-- The counts of the outbox add up to its events, and those of the operations are within their number.
pub take_snapshot_partition :
    (now : Timestamp) (t : Tables)
    → let s = take_snapshot now t in
      (s.outbox_pending + s.outbox_delivering + s.outbox_delivered + s.outbox_dead_letter
        ≡ length t.outbox)
      × (s.imports_processing + s.imports_failed ≤ s.imports_total)
      × (s.expired_processing ≤ s.imports_processing)
unfolding take_snapshot
take_snapshot_partition now t =
    let (p, q) = operations_within now t.operations in (outbox_partition t.outbox, p, q)
