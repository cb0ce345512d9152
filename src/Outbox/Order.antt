-- ===== src/Outbox/Order.antt =====
-- The order in which `claim_next_event` reserves the events.
use customer_data_foundation.Prelude.{
  ℕ, ◌+◌, ◌*◌, ◌≤◌, ◌<◌, ◌≡◌, refl, subst, true, false, not, ◌&&◌, ◌||◌, List, Option, none, some,
  arith, ok, All, All-weaken, In, ◌⊎◌, inl, inr, Bool-cases, ◌==◌, ==_refl, ==→eq, and_true,
  >>=-eq-ok, ok-injective, leb,
}
use customer_data_foundation.Sql.{Uuid, Timestamp, second, In-any_of, any_of-In}
use customer_data_foundation.Database.{Schema, require_current_schema}
use customer_data_foundation.Outbox.{
  Status, pending, delivering, Row, OutboxEvent, is_pending, is_delivering, expired, claimable,
  is_locked, sorts_before, event_from_row, claim_row, claim_candidate, candidate, claim_next_event,
}
use customer_data_foundation.Outbox.Claim.{eligible, Picks, candidate-Picks}

-- a row that may be reserved now: due, pending or with a lease that has ended, and not locked
pub record IsDue (now : Timestamp) (locked : List Uuid) (r : Row) : Type 0 where
  pub available : r.available_at ≤ now
  pub free :
      (r.status ≡ pending)
      ⊎ ((r.status ≡ delivering) × ((t : Timestamp) × (r.lease_expires_at ≡ some t) × (t ≤ now)))
  pub unlocked : In r.event_id locked → ⊥

-- `a` does not stand after `b` in the order of the due times, and then of the creation
abbrev pub NotAfter : Row → Row → Type 0
NotAfter a b =
    (a.available_at < b.available_at)
    ⊎ ((a.available_at ≡ b.available_at) × (a.created_at ≤ b.created_at))

not_before : (a b : Row) → sorts_before b a ≡ false → NotAfter a b
not_before a b h = ground (arith, h)

is_locked_sound :
    (locked : List Uuid) (r : Row) → is_locked locked r ≡ false → In r.event_id locked → ⊥
is_locked_sound locked r h m =
    cc (h, In-any_of (λ (u : Uuid). u == r.event_id) locked m (==_refl r.event_id))

is_locked_complete :
    (locked : List Uuid) (r : Row) → (In r.event_id locked → ⊥) → is_locked locked r ≡ false
is_locked_complete locked r h = elim (Bool-cases (is_locked locked r)) [
  | inr free ↦ free
  | inl held ↦
      let (u, m, e) = any_of-In (λ (u : Uuid). u == r.event_id) locked held in
      absurd (h (rw (==→eq u r.event_id e) at m))
]

free_of :
    (now : Timestamp) (s : Status) (l : Option Timestamp)
    → (is_pending s || (is_delivering s && expired now l)) ≡ true
    → (s ≡ pending) ⊎ ((s ≡ delivering) × ((t : Timestamp) × (l ≡ some t) × (t ≤ now)))
free_of now pending l h = inl refl
free_of now delivering none h = absurd (cc)
free_of now delivering (some t) h = inr (refl, (t, refl, ground (arith, h)))
free_of now _ l h = absurd (cc)

claimable-parts :
    (now : Timestamp) (r : Row)
    → claimable now r ≡ true
    → (r.available_at ≤ now)
      × ((r.status ≡ pending)
          ⊎ ((r.status ≡ delivering)
              × ((t : Timestamp) × (r.lease_expires_at ≡ some t) × (t ≤ now))))
claimable-parts now r h =
    let (a, b) = and_true (leb r.available_at now) _ h in
    (ground (arith, a), free_of now r.status r.lease_expires_at b)

eligible-IsDue :
    (now : Timestamp) (locked : List Uuid) (r : Row)
    → eligible now locked r ≡ true
    → IsDue now locked r
eligible-IsDue now locked r h =
    let (a, b) = and_true (claimable now r) (not (is_locked locked r)) h in
    let (time, free) = claimable-parts now r a in
    record {
      available = time;
      free = free;
      unlocked = is_locked_sound locked r (ground (arith, b));
    }

IsDue-eligible :
    (now : Timestamp) (locked : List Uuid) (r : Row)
    → IsDue now locked r
    → eligible now locked r ≡ true
IsDue-eligible now locked r d = rw (is_locked_complete locked r d.unlocked) (by_status d.free)
  where
    by_status :
        (r.status ≡ pending)
          ⊎ ((r.status ≡ delivering)
              × ((t : Timestamp) × (r.lease_expires_at ≡ some t) × (t ≤ now)))
        → (claimable now r && true) ≡ true
    by_status (inl p) = rw p (ground (arith, d.available))
    by_status (inr (w, (t, l, e))) = rw (w, l) (ground (arith, d.available, e))

-- what a reservation returns: nothing, since nothing is due; or the event of a due row, with one more
-- attempt and a new lease, and no due row stands before it
pub data Reserved (now : Timestamp) (locked : List Uuid) (lease : ℕ) (rows : List Row)
    : Option OutboxEvent → Type 0 where
  nothing : All (λ (r : Row). IsDue now locked r → ⊥) rows → Reserved now locked lease rows none
  reserved :
      (c : Row) (e : OutboxEvent)
      → In c rows
      → IsDue now locked c
      → All (λ (r : Row). (IsDue now locked r → ⊥) ⊎ NotAfter c r) rows
      → e.event_id ≡ c.event_id
      → e.payload ≡ c.payload
      → e.attempt_count ≡ c.attempt_count + 1
      → e.lease_expires_at ≡ some (now + lease * second)
      → Reserved now locked lease rows (some e)

claim_candidate-Reserved :
    (now : Timestamp) (locked : List Uuid) (lease : ℕ) (rows : List Row) (o : Option Row)
    → Picks now locked rows o
    → Reserved now locked lease rows (claim_candidate now lease rows o).0
unfolding claim_candidate event_from_row claim_row
claim_candidate-Reserved now locked lease rows none p =
    nothing (All-weaken _ _ rows (λ r f d. cc (f, IsDue-eligible now locked r d)) p)
claim_candidate-Reserved now locked lease rows (some c) p =
    reserved c (event_from_row (claim_row now lease c)) p.member
      (eligible-IsDue now locked c p.is_eligible)
      (All-weaken _ _ rows
        (λ r f. elim (Bool-cases (eligible now locked r)) [
          | inl e ↦ inr (not_before c r (f e))
          | inr e ↦ inl (λ d. cc (e, IsDue-eligible now locked r d))
        ])
        p.first)
      refl refl refl refl

-- A reservation that ends without an error returns no event only if no row is due; otherwise the
-- event is that of a due row, with one more attempt and the new lease, and each due row is available
-- later, or at the same time and was not created before it. Due is a row whose time has come, that is
-- pending or has a lease that ended, and that nobody has locked.
pub claim_next_event-Reserved :
    (schema : Schema) (now : Timestamp) (locked : List Uuid) (lease : ℕ) (rows : List Row)
    {o : Option OutboxEvent} {rows' : List Row}
    → claim_next_event schema now locked lease rows ≡ ok (o, rows')
    → Reserved now locked lease rows o
unfolding claim_next_event
claim_next_event-Reserved schema now locked lease rows {o} {rows'} h =
    let (_, _, g) = >>=-eq-ok (require_current_schema schema) _ h in
    subst (λ (x : Option OutboxEvent × List Row). Reserved now locked lease rows x.0)
      (ok-injective g)
      (claim_candidate-Reserved now locked lease rows (candidate now locked rows)
        (candidate-Picks now locked rows))
