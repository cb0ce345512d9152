-- ===== src/Operations/Replay.antt =====
-- What a request finds whose idempotency key was used before.
use customer_data_foundation.Prelude.{
  ◌≡◌, refl, subst, Bool, true, false, List, [], ◌∷◌, none, some, arith, ok, if◌then◌else◌, find,
  find_sound, any_of, All, Bool-cases, inl, inr, String,
}
use customer_data_foundation.Sql.{Uuid, Digest, Timestamp, update, In-any_of}
use customer_data_foundation.Database.{Schema, require_current_schema}
use customer_data_foundation.Operations.{
  Operation, has_key, abandoned, recoverable, recover_row, reserve_existing, reserve_row,
  reserve_operation,
}

-- UNIQUE (actor_hash, idempotency_key_hash)
abbrev pub KeysUnique : List Operation → Type 0
KeysUnique [] = Unit
KeysUnique (r ∷ rs) =
    All (λ (q : Operation). has_key r.actor_hash r.idempotency_key_hash q ≡ false) rs
    × KeysUnique rs

-- a key that nobody has
pub no_match :
    (actor key sha : Digest) (now : Timestamp) (rs : List Operation)
    → All (λ (q : Operation). has_key actor key q ≡ false) rs
    → find (recoverable actor key sha now) rs ≡ none
no_match actor key sha now [] h = refl
no_match actor key sha now (r ∷ rs) h = rw h.0 (no_match actor key sha now rs h.1)

-- the recovery looks at the row of the key only
find-recoverable :
    (actor key sha : Digest) (now : Timestamp) (rs : List Operation) (r : Operation)
    → KeysUnique rs
    → find (has_key actor key) rs ≡ some r
    → find (recoverable actor key sha now) rs ≡ (if abandoned sha now r then some r else none)
find-recoverable actor key sha now [] r u f = absurd (cc)
find-recoverable actor key sha now (x ∷ rs) r u f = elim (Bool-cases (has_key actor key x)) [
  | inr other ↦ rw other (find-recoverable actor key sha now rs r u.1 (rw other at f))
  | inl same ↦
      let one : x ≡ r = first_one (rw same at f) in
      rw (same, ← one) (by_abandoned same (abandoned sha now x) refl)
]
  where
    first_one : some x ≡ some r → x ≡ r
    first_one e = ground (arith, e)

    rest_none : has_key actor key x ≡ true → find (recoverable actor key sha now) rs ≡ none
    rest_none same = no_match actor key sha now rs (
        subst (λ (k : Digest). All (λ (q : Operation). has_key actor k q ≡ false) rs)
          (ground (arith, same))
          (subst
            (λ (a : Digest). All (λ (q : Operation). has_key a x.idempotency_key_hash q ≡ false) rs)
            (ground (arith, same)) u.0))

    by_abandoned :
        has_key actor key x ≡ true
        → (b : Bool) → abandoned sha now x ≡ b
        → (if abandoned sha now x then some x else find (recoverable actor key sha now) rs)
          ≡ (if abandoned sha now x then some x else none)
    by_abandoned same true e = rw e
    by_abandoned same false e = rw e (rest_none same)

find-any_of :
    (test : Operation → Bool) (rs : List Operation) (r : Operation)
    → find test rs ≡ some r
    → any_of test rs ≡ true
find-any_of test rs r f = let (m, t) = find_sound test rs f in In-any_of test rs m t

existing_answer :
    (now : Timestamp) (actor key sha : Digest) (rows : List Operation) (r : Operation) (b : Bool)
    → find (has_key actor key) rows ≡ some r
    → reserve_existing now actor key sha rows (if b then some r else none) ≡ (
        if b
        then ok (
          record { created = false; recovered = true; operation = recover_row now r },
          update (recoverable actor key sha now) (recover_row now) rows,
        )
        else ok (record { created = false; recovered = false; operation = r }, rows))
unfolding reserve_existing
existing_answer now actor key sha rows r true f = refl
existing_answer now actor key sha rows r false f = rw f

-- what the reservation returns of a key that the search finds
pub reserve_operation-found :
    (protected_hash : String → String → Digest) (schema : Schema) (now : Timestamp) (id : Uuid)
    (subject key : String) (sha : Digest) (rows : List Operation) (r : Operation)
    → require_current_schema schema ≡ ok tt
    → KeysUnique rows
    → find (has_key (protected_hash "actor" subject) (protected_hash "idempotency" key)) rows
      ≡ some r
    → reserve_operation protected_hash schema now id subject key sha rows ≡ (
        if abandoned sha now r
        then ok (
          record { created = false; recovered = true; operation = recover_row now r },
          update
              (recoverable
                (protected_hash "actor" subject)
                (protected_hash "idempotency" key)
                sha
                now)
              (recover_row now)
              rows,
        )
        else ok (record { created = false; recovered = false; operation = r }, rows))
unfolding reserve_operation reserve_row
reserve_operation-found protected_hash schema now id subject key sha rows r s u f =
    rw
      (
        s,
        find-any_of (has_key (protected_hash "actor" subject) (protected_hash "idempotency" key))
            rows r f,
        find-recoverable (protected_hash "actor" subject) (protected_hash "idempotency" key) sha now
            rows r u f,
      )
      (existing_answer now (protected_hash "actor" subject) (protected_hash "idempotency" key) sha
        rows r (abandoned sha now r) f)
