-- ===== src/Outbox/Tests.antt =====
-- The theorems on the outbox at small tables.
use customer_data_foundation.Prelude.{
  ◌≡◌, ◌≢◌, refl, true, false, List, [], ◌∷◌, some, arith, ok, inl, In,
}
use customer_data_foundation.Sql.{update}
use customer_data_foundation.Database.{current_schema, require_current_schema}
use customer_data_foundation.Outbox.{
  imported, Row, OutboxEvent, partner_timeout, new_row, event_from_row, claim_row, deliver_row,
  enqueue_completed_import, candidate, claim_candidate, claim_next_event, mark_delivered,
  mark_failed_attempt, stale_attempt, marked,
}
use customer_data_foundation.Outbox.Order.{Reserved, claim_next_event-Reserved}
use customer_data_foundation.Outbox.Validity.{IsValid}
use customer_data_foundation.Outbox.Trace.{
  Step, Reach, here, next, enqueues, claims, delivers, Reach-IsValid, Reach-Later, Later,
}
use customer_data_foundation.Outbox.Fencing.{mark-stale, claim-exclusive}
use customer_data_foundation.Outbox.Retry.{Failed, mark_failed_attempt-Failed}

-- an event that is enqueued, reserved, reserved again after its lease, and delivered
abbrev fresh_row : Row
fresh_row = new_row 11 1000 21 imported 3 2 1

abbrev other_row : Row
other_row = new_row 12 1500 22 imported 5 5 0

abbrev leased_row : Row
leased_row = claim_row 2000 60 fresh_row

abbrev again_row : Row
again_row = claim_row 70000000 60 leased_row

abbrev done_row : Row
done_row = deliver_row 80000000 again_row

abbrev first_event : OutboxEvent
first_event = event_from_row leased_row

abbrev second_event : OutboxEvent
second_event = event_from_row again_row

empty-IsValid : IsValid []
empty-IsValid = record { rows_valid = tt; event_key = tt; operation_key = tt }

is_current : require_current_schema current_schema ≡ ok tt
unfolding require_current_schema
is_current = refl

enqueue_step : Step [] (fresh_row ∷ [])
unfolding enqueue_completed_import
enqueue_step = enqueues 11 1000 21 imported 3 2 1 refl

claim_step : Step (fresh_row ∷ []) (leased_row ∷ [])
unfolding update claim_next_event claim_candidate candidate require_current_schema new_row
claim_step = claims current_schema 2000 [] 60 refl

again_step : Step (leased_row ∷ []) (again_row ∷ [])
unfolding update claim_next_event claim_candidate candidate require_current_schema new_row claim_row
again_step = claims current_schema 70000000 [] 60 refl

done_step : Step (again_row ∷ []) (done_row ∷ [])
unfolding update mark_delivered require_current_schema new_row claim_row event_from_row
done_step = delivers current_schema 80000000 second_event refl

idle_step : Step (done_row ∷ []) (done_row ∷ [])
unfolding update claim_next_event claim_candidate candidate require_current_schema new_row claim_row
    deliver_row
idle_step = claims current_schema 90000000 [] 60 refl

to_leased : Reach [] (leased_row ∷ [])
to_leased = next (next here enqueue_step) claim_step

to_again : Reach [] (again_row ∷ [])
to_again = next to_leased again_step

to_done : Reach [] (done_row ∷ [])
to_done = next to_again done_step

Reach-IsValid_example : IsValid (done_row ∷ [])
Reach-IsValid_example = Reach-IsValid to_done empty-IsValid

Reach-Later_example : Later leased_row (done_row ∷ [])
Reach-Later_example =
    Reach-Later leased_row (next (next here again_step) done_step)
      (Reach-IsValid to_leased empty-IsValid) (inl refl)

mark-stale_example :
    (mark_delivered current_schema 90000000 first_event (done_row ∷ []) ≡ ok (false, done_row ∷ []))
    × (mark_failed_attempt current_schema 90000000 first_event partner_timeout true 5 1 60
          (done_row ∷ [])
        ≡ ok (stale_attempt, done_row ∷ []))
unfolding new_row claim_row event_from_row
mark-stale_example =
    mark-stale current_schema 90000000 first_event partner_timeout true 5 1 60 again_row is_current
      (Reach-IsValid to_again empty-IsValid) (inl refl) refl (omega arith) (next here done_step)

pub claim_first :
    claim_next_event current_schema 2000 [] 60 (fresh_row ∷ other_row ∷ [])
    ≡ ok (some first_event, leased_row ∷ other_row ∷ [])
unfolding update claim_next_event claim_candidate candidate require_current_schema new_row
claim_first = refl

claim_other :
    claim_next_event current_schema 3000 [] 60 (leased_row ∷ other_row ∷ [])
    ≡ ok (
      some (event_from_row (claim_row 3000 60 other_row)),
      leased_row ∷ claim_row 3000 60 other_row ∷ [],
    )
unfolding update claim_next_event claim_candidate candidate require_current_schema new_row claim_row
claim_other = refl

both_step : Step (fresh_row ∷ []) (fresh_row ∷ other_row ∷ [])
unfolding enqueue_completed_import new_row
both_step = enqueues 12 1500 22 imported 5 5 0 refl

claim-exclusive_example :
    (event_from_row (claim_row 3000 60 other_row)).event_id ≢ first_event.event_id
claim-exclusive_example =
    claim-exclusive current_schema 2000 3000 [] [] 60 60 (fresh_row ∷ other_row ∷ [])
      (Reach-IsValid (next (next here enqueue_step) both_step) empty-IsValid) claim_first
      (omega arith) claim_other

claim_next_event-Reserved_example :
    Reserved 2000 [] 60 (fresh_row ∷ other_row ∷ []) (some first_event)
claim_next_event-Reserved_example =
    claim_next_event-Reserved current_schema 2000 [] 60 (fresh_row ∷ other_row ∷ []) claim_first

mark_failed_attempt-Failed_example :
    (q : Row) × (rows : List Row) × (mark_failed_attempt current_schema 5000 first_event
        partner_timeout true 5 1 60
        (leased_row ∷ [])
      ≡ ok (marked q.status, rows))
    × In q rows
    × Failed 5000 first_event partner_timeout true 5 1 60 q
unfolding new_row claim_row event_from_row
mark_failed_attempt-Failed_example =
    mark_failed_attempt-Failed current_schema 5000 first_event partner_timeout true 5 1 60
      (leased_row ∷ []) leased_row is_current (omega arith) (inl refl) refl
