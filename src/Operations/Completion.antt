-- ===== src/Operations/Completion.antt =====
-- The completion of an operation and the outbox event that goes with it.
use customer_data_foundation.Prelude.{
  ℕ, ◌≡◌, ◌≢◌, refl, sym, ap, subst, ◌∙◌, Bool, true, List, [], ◌∷◌, ◌++◌, map, Option, none, some,
  arith, Result, ok, database_error, ◌==◌, ==→eq, ==_refl, find, find_sound, any_of, All,
  Bool-cases, Option-cases, inl, inr, ◌⊎◌, or_raise, >>=-eq-ok, ok-injective,
}
use customer_data_foundation.Sql.{Uuid, Timestamp, In-any_of, All-update, Unique, Unique-In}
use customer_data_foundation.Database.{Schema, require_current_schema}
use customer_data_foundation.Outbox
use customer_data_foundation.Outbox.{ImportStatus, processing, enqueue_completed_import, new_row}
use customer_data_foundation.Outbox.Validity
use customer_data_foundation.Outbox.Validity.{
  Enqueued, known, taken, added, table_after, enqueue_completed_import-cases,
  enqueue_completed_import-IsValid,
}
use customer_data_foundation.Importer.{ImportResult}
use customer_data_foundation.Operations.{
  Operation, Tables, holds_attempt, complete_row, notify, complete_found, complete_operation,
}

-- the outbox has an event for the operation
abbrev pub announced : Uuid → List Outbox.Row → Bool
announced operation_id outbox = any_of (λ (e : Outbox.Row). e.operation_id == operation_id) outbox

-- between two transactions: every accepted operation has its event
pub record IsConsistent (t : Tables) : Type 0 where
  pub every_event :
      All
        (λ (r : Operation). r.accepted ≡ true → announced r.operation_id t.outbox ≡ true)
        t.operations
  pub outbox_valid : Validity.IsValid t.outbox

announced-append :
    (id : Uuid) (outbox : List Outbox.Row) (q : Outbox.Row)
    → announced id outbox ≡ true
    → announced id (outbox ++ q ∷ []) ≡ true
announced-append id [] q h = absurd (cc)
announced-append id (e ∷ outbox) q h = ground (arith, announced-append id outbox q)

announced-last :
    (id : Uuid) (outbox : List Outbox.Row) (q : Outbox.Row)
    → q.operation_id ≡ id
    → announced id (outbox ++ q ∷ []) ≡ true
announced-last id [] q e = rw (e, ==_refl id)
announced-last id (x ∷ outbox) q e = ground (arith, announced-last id outbox q e)

-- what enqueueing does to the announcements
Enqueued-announced :
    (e o : Uuid) (q : Outbox.Row) (rows : List Outbox.Row) (m : Result (Uuid × List Outbox.Row))
    {u : Uuid} {rows' : List Outbox.Row}
    → q.operation_id ≡ o
    → Enqueued e o q rows m
    → m ≡ ok (u, rows')
    → (announced o rows' ≡ true)
      × ((id : Uuid) → announced id rows ≡ true → announced id rows' ≡ true)
Enqueued-announced e o q rows m {u} {rows'} qo (known r f) h =
    let same : rows ≡ rows' = ap (λ (x : Uuid × List Outbox.Row). x.1) (ok-injective h) in
    let (i, t) = find_sound (λ (r : Outbox.Row). r.operation_id == o) rows f in
    (
      rw (← same) (In-any_of (λ (r : Outbox.Row). r.operation_id == o) rows i t),
      λ id k. rw (← same) k,
    )
Enqueued-announced e o q rows m qo (taken t) h = absurd (cc)
Enqueued-announced e o q rows m {u} {rows'} qo (added he ho) h =
    let same : rows ++ q ∷ [] ≡ rows' = ap (λ (x : Uuid × List Outbox.Row). x.1) (ok-injective h) in
    (rw (← same) (announced-last o rows q qo), λ id k. rw (← same) (announced-append id rows q k))

enqueue_announces :
    (e : Uuid) (now : Timestamp) (o : Uuid) (s : ImportStatus) (t i x : ℕ) (rows : List Outbox.Row)
    {u : Uuid} {rows' : List Outbox.Row}
    → enqueue_completed_import e now o s t i x rows ≡ ok (u, rows')
    → (announced o rows' ≡ true)
      × ((id : Uuid) → announced id rows ≡ true → announced id rows' ≡ true)
enqueue_announces e now o s t i x rows h =
    Enqueued-announced e o (new_row e now o s t i x) rows _ (unfold new_row in refl)
      (enqueue_completed_import-cases e now o s t i x rows) h

notify_announces :
    (now : Timestamp) (e o : Uuid) (result : ImportResult) (rows : List Outbox.Row)
    {rows' : List Outbox.Row}
    → Validity.IsValid rows
    → notify now e o result rows ≡ ok rows'
    → Validity.IsValid rows'
      × (result.accepted ≡ true → announced o rows' ≡ true)
      × ((id : Uuid) → announced id rows ≡ true → announced id rows' ≡ true)
unfolding notify
notify_announces now e o result rows {rows'} v h = elim (Bool-cases result.accepted) [
  | inr no' ↦
      let same : rows ≡ rows' = ok-injective (rw no' at h) in
      (rw (← same) v, λ a. absurd (cc (a, no')), λ id k. rw (← same) k)
  | inl yes' ↦
      let (x, m, g) =
        >>=-eq-ok
          (enqueue_completed_import e now o result.status result.total_rows result.inserted_rows
            result.existing_rows rows)
          _ (rw yes' at h) in
      let same : x.1 ≡ rows' = ok-injective g in
      let (this, others) =
        enqueue_announces e now o result.status result.total_rows result.inserted_rows
          result.existing_rows rows m in
      (
        rw (← same) (
            rw m at (
              enqueue_completed_import-IsValid e now o result.status result.total_rows
                result.inserted_rows result.existing_rows rows v)),
        λ _. rw (← same) this,
        λ id k. rw (← same) (others id k),
      )
]

grow_announced :
    (rows rows' : List Outbox.Row) (rs : List Operation)
    → ((id : Uuid) → announced id rows ≡ true → announced id rows' ≡ true)
    → All (λ (r : Operation). r.accepted ≡ true → announced r.operation_id rows ≡ true) rs
    → All (λ (r : Operation). r.accepted ≡ true → announced r.operation_id rows' ≡ true) rs
grow_announced rows rows' [] g h = tt
grow_announced rows rows' (r ∷ rs) g h =
    (λ a. g r.operation_id (h.0 a), grow_announced rows rows' rs g h.1)

complete_row-announced :
    (now : Timestamp) (id : Uuid) (attempt : ℕ) (result : ImportResult) (d : ℕ)
    (rows : List Outbox.Row) (r : Operation)
    → (result.accepted ≡ true → announced id rows ≡ true)
    → holds_attempt id attempt r ≡ true
    → (complete_row now result d r).accepted ≡ true
    → announced (complete_row now result d r).operation_id rows ≡ true
unfolding complete_row
complete_row-announced now id attempt result d rows r this t a =
    let same : r.operation_id ≡ id = ground (arith, t) in rw same (this a)

-- Completing an operation, with the current attempt or an old one, keeps the tables consistent: an
-- accepted result and its outbox event are stored together or not at all.
pub complete_operation-IsConsistent :
    (schema : Schema) (now : Timestamp) (e id : Uuid) (attempt : ℕ) (result : ImportResult) (d : ℕ)
    (t : Tables) {x : Operation × Tables}
    → IsConsistent t
    → complete_operation schema now e id attempt result d t ≡ ok x
    → IsConsistent x.1
unfolding complete_operation complete_found
complete_operation-IsConsistent schema now e id attempt result d t {x} v h =
    let (_, _, g) = >>=-eq-ok (require_current_schema schema) _ h in
    found (find (holds_attempt id attempt) t.operations) g
  where
    found :
        (o : Option Operation)
        → complete_found now e id attempt result d t o ≡ ok x
        → IsConsistent x.1
    found none g =
        let (r, _, k) =
          >>=-eq-ok
            (or_raise (find (λ (r : Operation). r.operation_id == id) t.operations) database_error)
            _ g in
        subst (λ (y : Operation × Tables). IsConsistent y.1) (ok-injective k) v
    found (some r) g =
        let (rows, m, k) = >>=-eq-ok (notify now e id result t.outbox) _ g in
        let (w, this, others) = notify_announces now e id result t.outbox v.outbox_valid m in
        subst (λ (y : Operation × Tables). IsConsistent y.1) (ok-injective k)
          (record {
            every_event =
                All-update
                  (λ (r : Operation). r.accepted ≡ true → announced r.operation_id rows ≡ true)
                  (holds_attempt id attempt) (complete_row now result d) t.operations
                  (λ q _ held _ a.
                    complete_row-announced now id attempt result d rows q this held a)
                  (grow_announced t.outbox rows t.operations others v.every_event);
            outbox_valid = w;
          })

-- In a table with unique identifiers, on a current schema, a worker that lost its lease cannot
-- overwrite the result: if the operation's row has another attempt count or is no longer
-- processing, completing it returns the row and changes nothing, and no event is written.
pub complete_operation-stale :
    (schema : Schema) (now : Timestamp) (e id : Uuid) (attempt : ℕ) (result : ImportResult) (d : ℕ)
    (t : Tables) (r : Operation)
    → require_current_schema schema ≡ ok tt
    → Unique (map (λ (q : Operation). q.operation_id) t.operations)
    → find (λ (q : Operation). q.operation_id == id) t.operations ≡ some r
    → (r.attempt_count ≢ attempt) ⊎ (r.status ≢ processing)
    → complete_operation schema now e id attempt result d t ≡ ok (r, t)
unfolding complete_operation complete_found
complete_operation-stale schema now e id attempt result d t r s u f old =
    rw (s, nobody (Option-cases (find (holds_attempt id attempt) t.operations)), f)
  where
    not_held : (q : Operation) → q ≡ r → holds_attempt id attempt q ≡ true → ⊥
    not_held q same held = ground (arith, rw same at held, old)

    id_of : (q : Operation) → holds_attempt id attempt q ≡ true → q.operation_id ≡ id
    id_of q held = ground (arith, held)

    nobody :
        (find (holds_attempt id attempt) t.operations ≡ none)
          ⊎ ((q : Operation) × (find (holds_attempt id attempt) t.operations ≡ some q))
        → find (holds_attempt id attempt) t.operations ≡ none
    nobody (inl p) = p
    nobody (inr (q, p)) =
        let (i, held) = find_sound (holds_attempt id attempt) t.operations p in
        let (j, own) = find_sound (λ (q : Operation). q.operation_id == id) t.operations f in
        absurd (
          not_held q
            (Unique-In (λ (z : Operation). z.operation_id) t.operations u i j
              (id_of q held ∙ sym (==→eq _ _ own)))
            held)
