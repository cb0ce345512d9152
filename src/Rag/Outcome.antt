-- ===== src/Rag/Outcome.antt =====
-- What a call of `answer_question` leaves and returns, step by step.
use customer_data_foundation.Prelude.{
  ◌≤◌, ◌≡◌, ◌≢◌, refl, sym, ap, subst, not, ◌&&◌, List, [], ◌∷◌, ◌++◌, ◌⊎◌, inl, inr, arith, Result,
  ok, err, Error, database_error, value_error, >>=-eq-ok, guard-eq-ok, ok-injective, Result-cases,
  All, All-append, Bool-cases, any_of, leb, ◌==◌, length,
}
use customer_data_foundation.Sql.{Digest, All-update}
use customer_data_foundation.Database.{Schema, require_current_schema}
use customer_data_foundation.Knowledge.Store.{storable}
use customer_data_foundation.Rag.Records.{
  Status, refused, provider_unavailable, Citation, RagTrace, AnswerResult, TraceRow, CacheRow,
  Tables, Call,
}
use customer_data_foundation.Rag.Cache.{
  trace_row, persist_trace, of_key, put_cached, response_of, store_cached_answer,
}
use customer_data_foundation.Rag.Cited.{IsCitable}
use customer_data_foundation.Rag.Answers.{Assistant, principal_of, cache_key, write_trace, deliver}

-- a refusal cites nothing, and an answer cites something
abbrev pub Fits : Status → List Citation → Type 0
Fits refused cs = cs ≡ []
Fits provider_unavailable cs = ⊥
Fits _ cs = cs ≢ []

abbrev pub IsCacheRow : CacheRow → Type 0
IsCacheRow r = Fits r.response.status r.response.citations

put_cached-All :
    (row : CacheRow) (rows : List CacheRow)
    → IsCacheRow row
    → All IsCacheRow rows
    → All IsCacheRow (put_cached row rows)
unfolding put_cached
put_cached-All row rows p h =
    elim (Bool-cases (any_of (of_key row.principal_hash row.cache_key_hash) rows)) [
      | inl e ↦ rw e (
          All-update IsCacheRow (of_key row.principal_hash row.cache_key_hash) _ rows (λ r m t q. p)
            h)
      | inr e ↦ rw e (All-append IsCacheRow rows _ h (p, tt))
    ]

-- a result whose citations the principal may read
abbrev pub IsGrounded : Tables → Digest → AnswerResult → Type 0
IsGrounded t principal r =
    Fits r.status r.citations × All (λ c. IsCitable t.knowledge principal c.chunk_id) r.citations

module _ (a : Assistant) (schema : Schema) (call : Call) where
  abbrev pub row_of : RagTrace → TraceRow
  row_of trace =
      trace_row call.traced_at (principal_of a schema call) (a.query_hash call.question) trace

  -- From the tables `t`: the knowledge stays, the cache stays well formed, at most one trace is new, and
  -- a result is grounded and has its trace.
  pub record IsSound (t : Tables) (x : Result AnswerResult × Tables) : Type 0 where
    pub knowledge : x.1.knowledge ≡ t.knowledge
    pub cache : All IsCacheRow t.cache → All IsCacheRow x.1.cache
    pub new : List TraceRow
    pub appended : x.1.traces ≡ t.traces ++ new
    pub short : length new ≤ 1
    pub told :
        (r : AnswerResult)
        → x.0 ≡ ok r
        → IsGrounded t (principal_of a schema call) r × (new ≡ row_of r.trace ∷ [])

  append_nil : (rs : List TraceRow) → rs ≡ rs ++ []
  append_nil [] = refl
  append_nil (r ∷ rs) = ap (λ (l : List TraceRow). r ∷ l) (append_nil rs)

  -- an exception before anything is written
  pub fails_clean : (t : Tables) (e : Error) → IsSound t (err e, t)
  fails_clean t e = record {
    knowledge = refl;
    cache = λ c. c;
    new = [];
    appended = append_nil t.traces;
    short = omega arith;
    told = λ r h. cc;
  }

  persist_trace-eq-ok :
      (trace : RagTrace) (t : Tables) {x : Unit × Tables}
      → persist_trace schema call.traced_at
          (principal_of a schema call)
          (a.query_hash call.question)
          trace
          t
        ≡ ok x
      → x ≡ (tt, record t { traces = t.traces ++ row_of trace ∷ [] })
  unfolding persist_trace
  persist_trace-eq-ok trace t h =
      let (_, _, h1) = >>=-eq-ok (require_current_schema schema) _ h in
      let (_, h2) =
        guard-eq-ok
          (storable trace.provider
            && storable trace.model
            && leb (length trace.provider) 40
            && leb (length trace.model) 120)
          database_error _ h1 in
      let (_, h3) =
        guard-eq-ok (not (any_of (λ (r : TraceRow). r.request_id == trace.request_id) t.traces))
          database_error _ h2 in
      sym (ok-injective h3)

  -- the tables after the trace
  abbrev pub traced : RagTrace → Tables → Tables
  traced trace t = record t { traces = t.traces ++ row_of trace ∷ [] }

  -- the trace is written, or nothing is
  pub write_trace-cases :
      (trace : RagTrace) (t : Tables)
      → (write_trace a schema call trace t ≡ (ok tt, traced trace t))
        ⊎ ((e : Error) × (write_trace a schema call trace t ≡ (err e, t)))
  unfolding write_trace
  write_trace-cases trace t =
      elim (Result-cases (
        persist_trace schema call.traced_at (principal_of a schema call)
          (a.query_hash call.question) trace t)) [
            | inl (x, e) ↦ inl (rw (e, persist_trace-eq-ok trace t e) refl)
            | inr (f, e) ↦ inr (f, rw e refl)
          ]

  -- only the cache may have changed, and it is well formed
  pub record IsStored (t t' : Tables) : Type 0 where
    pub knowledge : t'.knowledge ≡ t.knowledge
    pub traces : t'.traces ≡ t.traces
    pub cache : All IsCacheRow t.cache → All IsCacheRow t'.cache

  store_cached_answer-IsStored :
      (result : AnswerResult) (t : Tables) {x : Unit × Tables}
      → Fits result.status result.citations
      → store_cached_answer schema call.stored_at call.cache_ttl_seconds
          (principal_of a schema call)
          (cache_key a schema call)
          result
          t
        ≡ ok x
      → IsStored t x.1
  unfolding store_cached_answer response_of
  store_cached_answer-IsStored result t f h = elim (Bool-cases (call.cache_ttl_seconds == 0)) [
    | inl e ↦
        rw (← ok-injective (rw e at h)) (record { knowledge = refl; traces = refl; cache = λ c. c })
    | inr e ↦
        let (_, h1) =
          guard-eq-ok (leb 1 call.cache_ttl_seconds && leb call.cache_ttl_seconds 86_400)
            value_error _ (rw e at h) in
        let (_, _, h2) = >>=-eq-ok (require_current_schema schema) _ h1 in
        let (_, h3) =
          guard-eq-ok (storable result.answer && storable result.trace.model) database_error _ h2 in
        rw (← ok-injective h3)
          (record { knowledge = refl; traces = refl; cache = λ c. put_cached-All _ t.cache f c })
  ]

  -- after the trace, and whether or not the cache takes the result
  delivered :
      (result : AnswerResult) (t t' : Tables)
      → IsStored (traced result.trace t) t'
      → (x : Result AnswerResult) → ((r : AnswerResult) → x ≡ ok r → r ≡ result)
      → IsGrounded t (principal_of a schema call) result
      → IsSound t (x, t')
  delivered result t t' s x same g = record {
    knowledge = s.knowledge;
    cache = s.cache;
    new = row_of result.trace ∷ [];
    appended = s.traces;
    short = omega arith;
    told = λ r h.
        let e = same r h in
        subst
          (λ (q : AnswerResult).
            IsGrounded t (principal_of a schema call) q
            × ((row_of result.trace ∷ []) ≡ (row_of q.trace ∷ [])))
          (sym e) (g, refl);
  }

  pub deliver-IsSound :
      (result : AnswerResult) (t : Tables)
      → IsGrounded t (principal_of a schema call) result
      → IsSound t (deliver a schema call result t)
  unfolding deliver
  deliver-IsSound result t g = elim (write_trace-cases result.trace t) [
    | inr (e, w) ↦ rw w (fails_clean t e)
    | inl w ↦
        rw w
          (elim (Result-cases (
            store_cached_answer schema call.stored_at call.cache_ttl_seconds
              (principal_of a schema call) (cache_key a schema call) result
              (traced result.trace t))) [
                | inl (x, e) ↦ rw e (
                    delivered result t x.1 (store_cached_answer-IsStored result _ g.0 e) _
                      (λ r h. sym (ok-injective h)) g)
                | inr (f, e) ↦ rw e (
                    delivered result t (traced result.trace t)
                      (record { knowledge = refl; traces = refl; cache = λ c. c }) _ (λ r h. cc) g)
              ])
  ]
