-- ===== src/Worker/Outcomes.antt =====
-- How a round of the worker may end, whatever the partner answers.
use customer_data_foundation.Prelude.{ℕ, ◌≤◌, ◌<◌, ◌≡◌, Bool, Option, none, some, ◌⊎◌}
use customer_data_foundation.Outbox.{Marked, marked, delivered, pending, dead_letter, stale_attempt}
use customer_data_foundation.Worker.{HttpOutcome, response, http_error, timeout_error, url_error}
use customer_data_foundation.Worker.Rounds.{IsTransient}

-- the answers that deliver an event, and those after which the worker tries again
pub IsSuccess : HttpOutcome → Type 0
IsSuccess o = (s : ℕ) × (o ≡ response s) × (200 ≤ s) × (s < 300)

pub IsRetryable : HttpOutcome → Type 0
IsRetryable o =
    (o ≡ timeout_error)
    ⊎ ((b : Bool) × (o ≡ url_error b))
    ⊎ ((s : ℕ) × ((o ≡ response s) ⊎ (o ≡ http_error s)) × IsTransient s)

-- how a round with such an answer may end
pub data Ended (o : HttpOutcome) : Option Marked → Type 0 where
  idle : Ended o none
  stale : Ended o (some stale_attempt)
  done : IsSuccess o → Ended o (some (marked delivered))
  again : IsRetryable o → Ended o (some (marked pending))
  dead : (IsSuccess o → ⊥) → Ended o (some (marked dead_letter))
