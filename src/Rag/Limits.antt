-- ===== src/Rag/Limits.antt =====
-- The limit on the answers of a principal in a minute.
use customer_data_foundation.Prelude.{
  ltb→lt, guard-ok, ◌+◌, ◌≤◌, ◌<◌, ◌≡◌, ◌&&◌, List, [], ◌∷◌, ◌++◌, inl, inr, arith, ok, err, Error,
  value_error, ai_request_limit, guard-eq-ok, >>=-eq-ok, Result-cases, All, Bool-cases, ◌==◌, leb,
}
use customer_data_foundation.Sql.{Digest, Timestamp}
use customer_data_foundation.Database.{Schema, require_current_schema}
use customer_data_foundation.Knowledge.ChunkRows.{ChunkKey}
use customer_data_foundation.Rag.Records.{TraceRow, AnswerResult, Tables, Call}
use customer_data_foundation.Rag.Gates.{within_minute, recent_traces, enforce_request_rate}
use customer_data_foundation.Rag.Answers.{Assistant, principal_of, answer_question}
use customer_data_foundation.Rag.Outcome.{IsCacheRow, row_of}
use customer_data_foundation.Rag.Answered.{answer_question-IsSound}

one_more :
    (now : Timestamp) (principal : Digest) (rows : List TraceRow) (r : TraceRow)
    → recent_traces now principal (rows ++ r ∷ []) ≤ recent_traces now principal rows + 1
unfolding recent_traces
one_more now principal [] r = elim (Bool-cases (within_minute now principal r)) [
  | inl e ↦ rw e (omega arith)
  | inr e ↦ rw e (omega arith)
]
one_more now principal (q ∷ rows) r = elim (Bool-cases (within_minute now principal q)) [
  | inl e ↦ rw e (omega (arith, one_more now principal rows r))
  | inr e ↦ rw e (one_more now principal rows r)
]

enforce_request_rate-lt :
    (schema : Schema) (principal : Digest) (call : Call) (rows : List TraceRow)
    → 1 ≤ call.requests_per_minute
    → enforce_request_rate schema principal call rows ≡ ok tt
    → recent_traces call.rate_at principal rows < call.requests_per_minute
unfolding enforce_request_rate
enforce_request_rate-lt schema principal call rows positive h =
    elim (Bool-cases (call.requests_per_minute == 0)) [
      | inl e ↦ absurd (ground (arith, e, positive))
      | inr e ↦
          let (_, h1) =
            guard-eq-ok (leb 1 call.requests_per_minute && leb call.requests_per_minute 10_000)
              value_error _ (rw e at h) in
          let (_, _, h2) = >>=-eq-ok (require_current_schema schema) _ h1 in
          ltb→lt (recent_traces call.rate_at principal rows) call.requests_per_minute
            (guard-ok _ ai_request_limit h2)
    ]

module _ (a : Assistant) (schema : Schema) (call : Call) (t : Tables) where
  passed :
      {r : AnswerResult}
      → (answer_question a schema call t).0 ≡ ok r
      → enforce_request_rate schema (principal_of a schema call) call t.traces ≡ ok tt
  unfolding answer_question
  passed h =
      elim (Result-cases (enforce_request_rate schema (principal_of a schema call) call t.traces)) [
        | inl (x, e) ↦ e
        | inr (f, e) ↦ absurd (err_ok (rw e at h))
      ]
    where
      err_ok : {e : Error} {q : AnswerResult} → err e ≡ ok q → ⊥
      err_ok k = cc

  -- With a limit of requests in a minute, the answers that a principal has been given since a minute
  -- before the call, this one included, are at most as many.
  pub answer_question-rate :
      {r : AnswerResult}
      → ChunkKey t.knowledge.chunks
      → All IsCacheRow t.cache
      → 1 ≤ call.requests_per_minute
      → (answer_question a schema call t).0 ≡ ok r
      → recent_traces call.rate_at
          (principal_of a schema call)
          (answer_question a schema call t).1.traces
        ≤ call.requests_per_minute
  answer_question-rate {r} u c positive h =
      let s = answer_question-IsSound a schema call t u c in
      let below =
        enforce_request_rate-lt schema (principal_of a schema call) call t.traces positive
          (passed h) in
      let more =
        one_more call.rate_at (principal_of a schema call) t.traces
          (row_of a schema call r.trace) in
      rw (s.appended, (s.told r h).1) (omega (arith, below, more))
