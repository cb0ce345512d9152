-- ===== src/Rag/Gates.antt =====
-- The limits on a principal's use of the answers: requests in a minute and tokens in a day. A negative
-- limit is refused like one that is too large.
use customer_data_foundation.Prelude.{
  ℕ, ◌+◌, ◌*◌, Bool, ◌&&◌, List, [], ◌∷◌, Result, ok, value_error, ai_request_limit,
  ai_daily_budget, guard, ◌>>◌, ◌==◌, leb, ltb, length, select, if◌then◌else◌,
}
use customer_data_foundation.Sql.{Digest, Timestamp, second}
use customer_data_foundation.Database.{Schema, require_current_schema}
use customer_data_foundation.Rag.Records.{TraceRow, Call}

abbrev pub within_minute : Timestamp → Digest → TraceRow → Bool
within_minute now principal r =
    r.principal_hash == principal && leb now (r.created_at + 60 * second)

unfoldable pub recent_traces : Timestamp → Digest → List TraceRow → ℕ
recent_traces now principal traces = length (select (within_minute now principal) traces)

unfoldable pub enforce_request_rate : Schema → Digest → Call → List TraceRow → Result (Unit {0})
unfolding recent_traces
enforce_request_rate schema principal call traces =
    if call.requests_per_minute == 0 then ok tt else (do
      guard (leb 1 call.requests_per_minute && leb call.requests_per_minute 10_000) value_error
      require_current_schema schema
      guard (ltb (recent_traces call.rate_at principal traces) call.requests_per_minute)
          ai_request_limit)

abbrev pub tokens : List TraceRow → ℕ
tokens [] = 0
tokens (r ∷ rs) = r.input_tokens + r.output_tokens + tokens rs

abbrev pub since : Timestamp → Digest → TraceRow → Bool
since start principal r = r.principal_hash == principal && leb start r.created_at

unfoldable pub tokens_of_day : Timestamp → Digest → List TraceRow → ℕ
tokens_of_day start principal traces = tokens (select (since start principal) traces)

unfoldable pub enforce_daily_budget : Schema → Digest → Call → List TraceRow → Result (Unit {0})
unfolding tokens_of_day
enforce_daily_budget schema principal call traces =
    if call.daily_token_budget == 0 then ok tt else (do
      guard (leb 1 call.daily_token_budget && leb call.daily_token_budget 1_000_000_000) value_error
      require_current_schema schema
      guard (ltb (tokens_of_day call.day_began principal traces) call.daily_token_budget)
          ai_daily_budget)
