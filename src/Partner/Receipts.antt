-- ===== src/Partner/Receipts.antt =====
-- One receipt for each event.
use customer_data_foundation.Prelude.{
  ℕ, ◌≡◌, refl, sym, ap, ◌∙◌, Bool, true, false, List, [], ◌∷◌, ◌++◌, Option, none, some, arith,
  Result, ok, leb, ◌==◌, ==_refl, if◌then◌else◌, find, Bool-cases, inl, inr, >>=-eq-ok,
  ok-injective,
}
use customer_data_foundation.Sql.{Uuid, Digest}
use customer_data_foundation.Database.{Schema, require_current_schema}
use customer_data_foundation.Partner.{
  Receipt, Attempt, Tables, Outcome, accepted, conflict, receipt_of, bump_attempt, first_delivery,
  record_known, record_partner_delivery,
}

find-last :
    (u : Uuid) (rs : List Receipt) (r : Receipt)
    → receipt_of u rs ≡ none
    → r.event_id ≡ u
    → receipt_of u (rs ++ r ∷ []) ≡ some r
find-last u [] r f e = rw (e, ==_refl u)
find-last u (x ∷ rs) r f e = elim (Bool-cases (x.event_id == u)) [
  | inl t ↦ absurd (ground (arith, rw t at f))
  | inr t ↦ rw t (find-last u rs r (rw t at f) e)
]

pub record_known-accepted :
    (n : ℕ) (u : Uuid) (d : Digest) (t : Tables) (o : Option Receipt) (b : Bool)
    → receipt_of u t.receipts ≡ o
    → (record_known n u d t o).0 ≡ (accepted, b)
    → (r : Receipt) × (receipt_of u (record_known n u d t o).1.receipts ≡ some r)
      × (r.body_sha256 ≡ d)
unfolding record_known first_delivery
record_known-accepted n u d t (some r) b f h = elim (Bool-cases (r.body_sha256 == d)) [
  | inl same ↦ (r, rw same f, ground (arith, same))
  | inr other ↦ absurd (ground (arith, rw other at h))
]
record_known-accepted n u d t none b f h =
    stored (bump_attempt u t.attempts (find (λ (a : Attempt). a.event_id == u) t.attempts)) h
  where
    stored :
        (p : ℕ × List Attempt)
        → (first_delivery n u d t p).0 ≡ (accepted, b)
        → (r : Receipt) × (receipt_of u (first_delivery n u d t p).1.receipts ≡ some r)
          × (r.body_sha256 ≡ d)
    stored (c, attempts) h = elim (Bool-cases (leb c n)) [
      | inl fails ↦ absurd (ground (arith, rw fails at h))
      | inr passes ↦ (
        record { event_id = u; body_sha256 = d },
        rw passes (find-last u t.receipts (record { event_id = u; body_sha256 = d }) f refl),
        refl,
      )
    ]

-- Once an event was accepted, on a current schema the same body is accepted again as a duplicate, a
-- different body under the same identifier is a conflict, and neither changes a table.
pub record_partner_delivery-again :
    (schema schema' : Schema) (n n' : ℕ) (u : Uuid) (d d' : Digest) (t : Tables) (b : Bool)
    {t' : Tables}
    → record_partner_delivery schema n u d t ≡ ok ((accepted, b), t')
    → require_current_schema schema' ≡ ok tt
    → record_partner_delivery schema' n' u d' t'
      ≡ ok ((if d == d' then (accepted, true) else (conflict, false)), t')
unfolding record_partner_delivery
record_partner_delivery-again schema schema' n n' u d d' t b {t'} h s =
    let (_, _, g) = >>=-eq-ok (require_current_schema schema) _ h in
    let e = ok-injective g in
    let (r, f, same) =
      record_known-accepted n u d t (receipt_of u t.receipts) b refl
        (ap (λ (y : (Outcome × Bool) × Tables). y.0) e) in
    rw (s, ap (λ (y : (Outcome × Bool) × Tables). receipt_of u y.1.receipts) (sym e) ∙ f)
      (unfold record_known in rw same (by_body (d == d')))
  where
    by_body :
        (c : Bool)
        → ◌≡◌ {A = Result ((Outcome × Bool) × Tables)}
            (ok (if c then ((accepted, true), t') else ((conflict, false), t')))
            (ok ((if c then (accepted, true) else (conflict, false)), t'))
    by_body true = refl
    by_body false = refl
