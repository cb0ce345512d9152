-- ===== src/Operations/Exclusive.antt =====
-- Two requests with one key: while the lease of the first lasts, the second does not process.
use customer_data_foundation.Prelude.{
  ◌+◌, ◌*◌, ◌<◌, ◌≡◌, refl, sym, ◌∙◌, subst, true, false, List, [], ◌∷◌, ◌++◌, Option, none, some,
  String, ok, err, database_error, find, any_of, All, Bool-cases, inl, inr, arith, ◌==◌, >>=-eq-ok,
  ok-injective, or_raise,
}
use customer_data_foundation.Sql.{Uuid, Digest, Timestamp, second, update}
use customer_data_foundation.Database.{Schema, require_current_schema, recovery_lease_seconds}
use customer_data_foundation.Operations.{
  Operation, Reservation, should_process, has_key, recoverable, recover_row, new_operation,
  reserve_existing, reserve_row, reserve_operation,
}
use customer_data_foundation.Operations.Replay.{KeysUnique, no_match}

module _ (actor key : Digest) where
  -- a request of the key at that time neither starts nor recovers an operation
  pub record Held (later : Timestamp) (rows : List Operation) : Type 0 where
    pub present : any_of (has_key actor key) rows ≡ true
    pub leased : (sha : Digest) → find (recoverable actor key sha later) rows ≡ none

  no_match-update :
      (sha sha' : Digest) (now later : Timestamp) (rs : List Operation)
      → All (λ (q : Operation). has_key actor key q ≡ false) rs
      → find
          (recoverable actor key sha' later)
          (update (recoverable actor key sha now) (recover_row now) rs)
        ≡ none
  unfolding update
  no_match-update sha sha' now later [] h = refl
  no_match-update sha sha' now later (r ∷ rs) h =
      rw (h.0, h.0) (no_match-update sha sha' now later rs h.1)

  recover_row-leased :
      (sha sha' : Digest) (now later : Timestamp) (r : Operation)
      → later < now + recovery_lease_seconds * second
      → recoverable actor key sha' later (recover_row now r) ≡ false
  unfolding recover_row
  recover_row-leased sha sha' now later r h = ground (arith, h)

  other_rows :
      (x : Operation) (rs : List Operation)
      → has_key actor key x ≡ true
      → All (λ (q : Operation). has_key x.actor_hash x.idempotency_key_hash q ≡ false) rs
      → All (λ (q : Operation). has_key actor key q ≡ false) rs
  other_rows x rs t h =
      let a : x.actor_hash ≡ actor = ground (arith, t) in
      let k : x.idempotency_key_hash ≡ key = ground (arith, t) in
      subst (λ (y : Digest). All (λ (q : Operation). has_key actor y q ≡ false) rs) k
        (subst
          (λ (y : Digest). All (λ (q : Operation). has_key y x.idempotency_key_hash q ≡ false) rs) a
          h)

  recovered-leased :
      (sha sha' : Digest) (now later : Timestamp) (rs : List Operation) {r : Operation}
      → later < now + recovery_lease_seconds * second
      → KeysUnique rs
      → find (recoverable actor key sha now) rs ≡ some r
      → find
          (recoverable actor key sha' later)
          (update (recoverable actor key sha now) (recover_row now) rs)
        ≡ none
  unfolding update
  recovered-leased sha sha' now later [] l u f = absurd (cc)
  recovered-leased sha sha' now later (x ∷ rs) {r} l u f = elim (Bool-cases (has_key actor key x)) [
    | inr other ↦ rw (other, other) (recovered-leased sha sha' now later rs l u.1 (rw other at f))
    | inl same ↦ elim (Bool-cases (recoverable actor key sha now x)) [
      | inl taken ↦
          rw (taken, recover_row-leased sha sha' now later x l)
            (no_match-update sha sha' now later rs (other_rows x rs same u.0))
      | inr not_taken ↦ absurd (
          none_ne
            (sym (no_match actor key sha now rs (other_rows x rs same u.0)) ∙ rw not_taken at f))
    ]
  ]
    where
      none_ne : none ≡ some r → ⊥
      none_ne e = cc

  any_of-update :
      (sha : Digest) (now : Timestamp) (rs : List Operation)
      → any_of (has_key actor key) (update (recoverable actor key sha now) (recover_row now) rs)
        ≡ any_of (has_key actor key) rs
  unfolding update recover_row
  any_of-update sha now [] = refl
  any_of-update sha now (r ∷ rs) = elim (Bool-cases (recoverable actor key sha now r)) [
    | inl e ↦ rw (e, any_of-update sha now rs)
    | inr e ↦ rw (e, any_of-update sha now rs)
  ]

  any_of-last :
      (rs : List Operation) (x : Operation)
      → has_key actor key x ≡ true
      → any_of (has_key actor key) (rs ++ x ∷ []) ≡ true
  any_of-last [] x h = rw h
  any_of-last (r ∷ rs) x h = ground (arith, any_of-last rs x h)

  new-leased :
      (sha' : Digest) (later : Timestamp) (rs : List Operation) (x : Operation)
      → any_of (has_key actor key) rs ≡ false
      → recoverable actor key sha' later x ≡ false
      → find (recoverable actor key sha' later) (rs ++ x ∷ []) ≡ none
  new-leased sha' later [] x n h = rw h
  new-leased sha' later (r ∷ rs) x n h = elim (Bool-cases (has_key actor key r)) [
    | inl e ↦ absurd (cc (n, e))
    | inr e ↦ rw e (new-leased sha' later rs x (rw e at n) h)
  ]

  new_operation-leased :
      (sha sha' : Digest) (now later : Timestamp) (id : Uuid)
      → later < now + recovery_lease_seconds * second
      → recoverable actor key sha' later (new_operation now id actor key sha) ≡ false
  unfolding new_operation
  new_operation-leased sha sha' now later id h = ground (arith, h)

  new_operation-has_key :
      (sha : Digest) (now : Timestamp) (id : Uuid)
      → has_key actor key (new_operation now id actor key sha) ≡ true
  unfolding new_operation
  new_operation-has_key sha now id = ground arith

  reserve_existing-Held :
      (sha : Digest) (now later : Timestamp) (rs : List Operation) (o : Option Operation)
      {x : Reservation × List Operation}
      → KeysUnique rs
      → any_of (has_key actor key) rs ≡ true
      → later < now + recovery_lease_seconds * second
      → find (recoverable actor key sha now) rs ≡ o
      → reserve_existing now actor key sha rs o ≡ ok x
      → should_process x.0 ≡ true
      → Held later x.1
  unfolding reserve_existing should_process
  reserve_existing-Held sha now later rs none {x} u p l f h w =
      let (r, _, g) = >>=-eq-ok (or_raise (find (has_key actor key) rs) database_error) _ h in
      let idle : should_process x.0 ≡ false =
        subst (λ (y : Reservation × List Operation). should_process y.0 ≡ false) (ok-injective g)
          refl in
      absurd (cc (w, idle))
  reserve_existing-Held sha now later rs (some r) u p l f h w =
      subst (λ (y : Reservation × List Operation). Held later y.1) (ok-injective h)
        (record {
          present = any_of-update sha now rs ∙ p;
          leased = λ sha'. recovered-leased sha sha' now later rs l u f;
        })

  reserve_row-Held :
      (sha : Digest) (now later : Timestamp) (id : Uuid) (rs : List Operation)
      {x : Reservation × List Operation}
      → KeysUnique rs
      → later < now + recovery_lease_seconds * second
      → reserve_row now id actor key sha rs ≡ ok x
      → should_process x.0 ≡ true
      → Held later x.1
  unfolding reserve_row
  reserve_row-Held sha now later id rs {x} u l h w =
      elim (Bool-cases (any_of (has_key actor key) rs)) [
        | inl old ↦
            reserve_existing-Held sha now later rs (find (recoverable actor key sha now) rs) u old l
              refl (rw old at h) w
        | inr new ↦ elim (Bool-cases (any_of (λ (r : Operation). r.operation_id == id) rs)) [
          | inl taken ↦ absurd (refuses (rw (new, taken) at h))
          | inr free ↦
              subst (λ (y : Reservation × List Operation). Held later y.1)
                (ok-injective (rw (new, free) at h))
                (record {
                  present =
                      any_of-last rs (new_operation now id actor key sha)
                        (new_operation-has_key sha now id);
                  leased = λ sha'.
                      new-leased sha' later rs (new_operation now id actor key sha) new
                        (new_operation-leased sha sha' now later id l);
                })
        ]
      ]
    where
      refuses : err database_error ≡ ok x → ⊥
      refuses k = cc

  reserve_row-idle :
      (sha : Digest) (later : Timestamp) (id : Uuid) (rs : List Operation)
      {y : Reservation × List Operation}
      → Held later rs
      → reserve_row later id actor key sha rs ≡ ok y
      → (should_process y.0 ≡ false) × (y.1 ≡ rs)
  unfolding reserve_row reserve_existing should_process
  reserve_row-idle sha later id rs {y} held h =
      let (r, _, g) =
        >>=-eq-ok (or_raise (find (has_key actor key) rs) database_error) _
          (rw (held.present, held.leased sha) at h) in
      subst (λ (z : Reservation × List Operation). (should_process z.0 ≡ false) × (z.1 ≡ rs))
        (ok-injective g) (refl, refl)

-- In a table with unique keys, once a request is to be processed, no other request of the same subject
-- with the same key, whatever its body, is to be processed before the lease of six minutes ends, and
-- none of them changes the table.
pub reserve_operation-exclusive :
    (protected_hash : String → String → Digest) (schema schema' : Schema) (now later : Timestamp)
    (id id' : Uuid) (subject key : String) (sha sha' : Digest) (rows : List Operation)
    {x y : Reservation × List Operation}
    → KeysUnique rows
    → reserve_operation protected_hash schema now id subject key sha rows ≡ ok x
    → should_process x.0 ≡ true
    → later < now + recovery_lease_seconds * second
    → reserve_operation protected_hash schema' later id' subject key sha' x.1 ≡ ok y
    → (should_process y.0 ≡ false) × (y.1 ≡ x.1)
unfolding reserve_operation
reserve_operation-exclusive protected_hash schema schema' now later id id' subject key sha sha' rows
      {x} {y} u h w l g =
    let (_, _, h') = >>=-eq-ok (require_current_schema schema) _ h in
    let (_, _, g') = >>=-eq-ok (require_current_schema schema') _ g in
    reserve_row-idle (protected_hash "actor" subject) (protected_hash "idempotency" key) sha' later
      id' x.1
      (reserve_row-Held (protected_hash "actor" subject) (protected_hash "idempotency" key) sha now
        later id rows u l h' w)
      g'
