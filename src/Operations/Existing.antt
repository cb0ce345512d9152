-- ===== src/Operations/Existing.antt =====
-- `reserve_operation` for a key that has an operation: taken over, or shown as it is.
use customer_data_foundation.Prelude.{
  ◌+◌, ◌*◌, ◌≤◌, ◌≡◌, refl, sym, ap, true, false, List, [], ◌∷◌, ◌++◌, some, arith, ok, find, All,
  All-In, In, ◌⊎◌, inl, inr, ◌==◌, ==→eq, ==_refl, and_true, Bool-cases, String, if◌then◌else◌,
}
use customer_data_foundation.Sql.{Uuid, Digest, Timestamp, second, update, update_id}
use customer_data_foundation.Database.{Schema, require_current_schema}
use customer_data_foundation.Outbox.{ImportStatus, processing}
use customer_data_foundation.Operations.{
  Operation, has_key, abandoned, recoverable, recover_row, reserve_operation, is_processing,
}
use customer_data_foundation.Operations.Replay.{KeysUnique, reserve_operation-found}

-- the operation is for the same body, it has not ended, and its lease has
pub record Abandoned (request_sha256 : Digest) (now : Timestamp) (r : Operation) : Type 0 where
  pub same_body : r.request_sha256 ≡ request_sha256
  pub unfinished : r.status ≡ processing
  pub expired : r.lease_expires_at ≤ now

has_key-eq :
    (actor key : Digest) (r : Operation)
    → has_key actor key r ≡ true
    → (r.actor_hash ≡ actor) × (r.idempotency_key_hash ≡ key)
has_key-eq actor key r h =
    let (a, k) = and_true (r.actor_hash == actor) (r.idempotency_key_hash == key) h in
    (==→eq _ _ a, ==→eq _ _ k)

-- two rows of a table do not share a key
other_key :
    (x : Operation) (rs : List Operation) (r : Operation)
    → KeysUnique (x ∷ rs)
    → In r rs
    → has_key r.actor_hash r.idempotency_key_hash x ≡ false
other_key x rs r u m = elim (Bool-cases (has_key r.actor_hash r.idempotency_key_hash x)) [
  | inr other ↦ other
  | inl same ↦
      let (a, k) = has_key-eq r.actor_hash r.idempotency_key_hash x same in
      absurd (
        twice a k (
          All-In (λ (q : Operation). has_key x.actor_hash x.idempotency_key_hash q ≡ false) rs u.0
            m))
]
  where
    twice :
        x.actor_hash ≡ r.actor_hash
        → x.idempotency_key_hash ≡ r.idempotency_key_hash
        → has_key x.actor_hash x.idempotency_key_hash r ≡ false
        → ⊥
    twice a k h = cc (rw (a, k) at h, ==_refl r.actor_hash, ==_refl r.idempotency_key_hash)

-- the row of a key is the one that the search finds
find-key :
    (rs : List Operation) (r : Operation)
    → KeysUnique rs
    → In r rs
    → find (has_key r.actor_hash r.idempotency_key_hash) rs ≡ some r
find-key [] r u m = absurd m
find-key (x ∷ rs) r u (inl e) = rw (← e, ==_refl r.actor_hash, ==_refl r.idempotency_key_hash) refl
find-key (x ∷ rs) r u (inr m) = rw (other_key x rs r u m) (find-key rs r u.1 m)

-- the recovery changes the row of the key and no other
update-key :
    (sha : Digest) (now : Timestamp) (rs : List Operation) (r : Operation)
    → KeysUnique rs
    → In r rs
    → abandoned sha now r ≡ true
    → (before after : List Operation) × (rs ≡ before ++ r ∷ after)
      × (update (recoverable r.actor_hash r.idempotency_key_hash sha now) (recover_row now) rs
          ≡ before ++ recover_row now r ∷ after)
unfolding update
update-key sha now [] r u m h = absurd m
update-key sha now (x ∷ rs) r u (inl e) h = (
  [],
  rs,
  ap (λ (y : Operation). y ∷ rs) (sym e),
  rw (← e, ==_refl r.actor_hash, ==_refl r.idempotency_key_hash, h, rest) refl,
)
  where
    rest :
        update (recoverable r.actor_hash r.idempotency_key_hash sha now) (recover_row now) rs ≡ rs
    rest =
        update_id (recoverable r.actor_hash r.idempotency_key_hash sha now) (recover_row now) rs
          (unrecoverable rs (rw (← e) at u.0))
      where
        unrecoverable :
            (qs : List Operation)
            → All (λ (q : Operation). has_key r.actor_hash r.idempotency_key_hash q ≡ false) qs
            → All
                (λ (q : Operation).
                  recoverable r.actor_hash r.idempotency_key_hash sha now q ≡ false)
                qs
        unrecoverable [] p = tt
        unrecoverable (q ∷ qs) p = (rw p.0, unrecoverable qs p.1)
update-key sha now (x ∷ rs) r u (inr m) h =
    let (before, after, split, new) = update-key sha now rs r u.1 m h in
    (x ∷ before, after, ap (λ (y : List Operation). x ∷ y) split, rw (other_key x rs r u m, new))

is_processing-eq : (s : ImportStatus) → is_processing s ≡ true → s ≡ processing
is_processing-eq processing h = refl
is_processing-eq _ h = absurd (cc)

abandoned-Abandoned :
    (sha : Digest) (now : Timestamp) (r : Operation)
    → abandoned sha now r ≡ true
    → Abandoned sha now r
abandoned-Abandoned sha now r h = record {
  same_body = ground (arith, h);
  unfinished = is_processing-eq r.status (ground (arith, h));
  expired = ground (arith, h);
}

Abandoned-abandoned :
    (sha : Digest) (now : Timestamp) (r : Operation)
    → Abandoned sha now r
    → abandoned sha now r ≡ true
Abandoned-abandoned sha now r a = rw a.unfinished (ground (arith, a.same_body, a.expired))

-- In a table with unique keys, on a current schema, a request whose actor and key have an operation
-- never starts a second one. If that operation is for the same body, still processing and past its
-- lease, the request takes it over: its row, and no other, then counts one more attempt and has a
-- new lease of six minutes and the time of the recovery. In every other case, another body included,
-- the request gets the operation as it is and the table does not change.
pub reserve_operation-existing :
    (protected_hash : String → String → Digest) (schema : Schema) (now : Timestamp) (id : Uuid)
    (subject key : String) (sha : Digest) (rows : List Operation) (r : Operation)
    → require_current_schema schema ≡ ok tt
    → KeysUnique rows
    → In r rows
    → r.actor_hash ≡ protected_hash "actor" subject
    → r.idempotency_key_hash ≡ protected_hash "idempotency" key
    → let taken : Operation = record r {
      attempt_count = r.attempt_count + 1;
      lease_expires_at = now + 360 * second;
      recovered_at = some now;
    } in
      (Abandoned sha now r
        × ((before after : List Operation) × (rows ≡ before ++ r ∷ after)
            × (reserve_operation protected_hash schema now id subject key sha rows
                ≡ ok (
                  record { created = false; recovered = true; operation = taken },
                  before ++ taken ∷ after,
                ))))
      ⊎ ((Abandoned sha now r → ⊥)
          × (reserve_operation protected_hash schema now id subject key sha rows
              ≡ ok (record { created = false; recovered = false; operation = r }, rows)))
unfolding recover_row
reserve_operation-existing protected_hash schema now id subject key sha rows r s u m a k =
    elim (Bool-cases (abandoned sha now r)) [
      | inl old ↦
          let (before, after, split, new) = update-key sha now rows r u m old in
          inl (
            abandoned-Abandoned sha now r old,
            (before, after, split, rw (found, old, ← a, ← k, new) refl),
          )
      | inr kept ↦ inr (λ b. cc (kept, Abandoned-abandoned sha now r b), rw (found, kept) refl)
    ]
  where
    found : reserve_operation protected_hash schema now id subject key sha rows ≡ (
        if abandoned sha now r
        then ok (
          record { created = false; recovered = true; operation = recover_row now r },
          update
              (recoverable
                (protected_hash "actor" subject)
                (protected_hash "idempotency" key)
                sha
                now)
              (recover_row now)
              rows,
        )
        else ok (record { created = false; recovered = false; operation = r }, rows))
    found =
        reserve_operation-found protected_hash schema now id subject key sha rows r s u
          (rw (← a, ← k) (find-key rows r u m))
