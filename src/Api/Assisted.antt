-- ===== src/Api/Assisted.antt =====
-- What the handlers of knowledge and of the assistant promise.
use customer_data_foundation.Prelude.{
  ltb→lt, guard-ok, ℕ, ◌<◌, ◌≡◌, refl, sym, ap, subst, ◌∙◌, Bool, true, not, ◌&&◌, [], ◌∷◌, ◌++◌,
  Option, none, some, String, Result, ok, err, Error, value_error, database_error,
  action_rate_limit, >>=-eq-ok, guard-eq-ok, ok-injective, arith, All, leb, Bool-cases, inl, inr,
  any_of, ◌==◌,
}
use customer_data_foundation.Sql.{Uuid, Digest, Timestamp}
use customer_data_foundation.Database.{Schema, require_current_schema}
use customer_data_foundation.Text.{Text}
use customer_data_foundation.Actions
use customer_data_foundation.Actions.{
  ActionRecord, PlannedAction, ActionArguments, pending, Status, recent_requests,
  enforce_action_rate_limit, create_action_request, new_request, record_audit,
}
use customer_data_foundation.Knowledge.Store.{Services, Tables as KnowledgeTables}
use customer_data_foundation.Knowledge.ChunkRows.{ChunkKey}
use customer_data_foundation.Knowledge.Ingest.{Upload, DocumentRecord, ingest_document}
use customer_data_foundation.Knowledge.Validity.{IsValid, ingest_document-IsValid}
use customer_data_foundation.Rag.Records.{AnswerResult, Tables, Call}
use customer_data_foundation.Rag.Answers.{Assistant, principal_of, answer_question}
use customer_data_foundation.Rag.Outcome.{IsCacheRow, IsGrounded}
use customer_data_foundation.Rag.Answered.{answer_question-IsSound}
use customer_data_foundation.Api.{answer, refused, answer-injective, Principal, has_role}
use customer_data_foundation.Api.Assistants.{
  is_document_request, refuse_ingestion, answer_ingestion, create_knowledge_document, Controls,
  refuse_answer, answer_result, with_controls, within_bounds, create_grounded_answer, refuse_plan,
  answer_plan, PlanCall, plan_action, create_controlled_action,
}

module _ {A : Type 0} where
  refused_ne : {n : ℕ} {code : String} {x : A} → refused n code ≡ answer x → ⊥
  refused_ne h = cc

  refuse_answer-ne : (e : Error) {x : A} → refuse_answer e ≡ answer x → ⊥
  unfolding refuse_answer
  refuse_answer-ne e h = ground (arith, h)

  refuse_ingestion-ne : (e : Error) {x : A} → refuse_ingestion e ≡ answer x → ⊥
  unfolding refuse_ingestion
  refuse_ingestion-ne e h = ground (arith, h)

  refuse_plan-ne : (e : Error) {x : A} → refuse_plan e ≡ answer x → ⊥
  unfolding refuse_plan
  refuse_plan-ne e h = ground (arith, h)

-- a result that is answered is the store's
answer_result-ok :
    (x : Result AnswerResult × Tables) {r : AnswerResult}
    → (answer_result x).0 ≡ answer r
    → (x.0 ≡ ok r) × ((answer_result x).1 ≡ x.1)
answer_result-ok (err e, t) h = absurd (refuse_answer-ne e h)
answer_result-ok (ok r, t) h = (ap (λ (q : AnswerResult). ok q) (answer-injective h), refl)

with_controls-ok :
    (a : Assistant) (schema : Schema) (call : Call) (d : Bool) (rate budget ttl : Option ℕ)
    (t : Tables) {r : AnswerResult}
    → (with_controls a schema call d rate budget ttl t).0 ≡ answer r
    → (full : Call) × (full.actor_subject ≡ call.actor_subject)
      × ((answer_question a schema full t).0 ≡ ok r)
      × ((with_controls a schema call d rate budget ttl t).1 ≡ (answer_question a schema full t).1)
with_controls-ok a schema call d (some rate) (some budget) (some ttl) t h =
    let full = record call {
      requests_per_minute = rate;
      daily_token_budget = budget;
      cache_ttl_seconds = ttl;
      allow_degraded = d;
    } in
    let (e, same) = answer_result-ok (answer_question a schema full t) h in (full, refl, e, same)
with_controls-ok a schema call d none budget ttl t h = absurd (refused_ne h)
with_controls-ok a schema call d (some rate) none ttl t h = absurd (refused_ne h)
with_controls-ok a schema call d (some rate) (some budget) none t h = absurd (refused_ne h)

with_controls-IsGrounded :
    (a : Assistant) (schema : Schema) (call : Call) (d : Bool) (rate budget ttl : Option ℕ)
    (t : Tables) {r : AnswerResult}
    → ChunkKey t.knowledge.chunks
    → All IsCacheRow t.cache
    → (with_controls a schema call d rate budget ttl t).0 ≡ answer r
    → IsGrounded t (a.services.principal call.actor_subject) r
      × ((with_controls a schema call d rate budget ttl t).1.knowledge ≡ t.knowledge)
      × All IsCacheRow (with_controls a schema call d rate budget ttl t).1.cache
unfolding principal_of
with_controls-IsGrounded a schema call d rate budget ttl t {r} u k h =
    let (full, who, m, same) = with_controls-ok a schema call d rate budget ttl t h in
    let s = answer_question-IsSound a schema full t u k in
    (
      subst (λ (n : String). IsGrounded t (a.services.principal n) r) who (s.told r m).0,
      ap (λ (x : Tables). x.knowledge) same ∙ s.knowledge,
      subst (λ (x : Tables). All IsCacheRow x.cache) (sym same) (s.cache k),
    )

-- An answer that the API gives is grounded for the principal of the token, whatever subject the
-- request names, and the tables after it still have a well-formed cache and the same knowledge.
pub create_grounded_answer-IsGrounded :
    (a : Assistant) (schema : Schema) (c : Controls) (p : Principal) (request : Call) (t : Tables)
    {r : AnswerResult}
    → ChunkKey t.knowledge.chunks
    → All IsCacheRow t.cache
    → (create_grounded_answer a schema c p request t).0 ≡ answer r
    → IsGrounded t (a.services.principal p.subject) r
      × ((create_grounded_answer a schema c p request t).1.knowledge ≡ t.knowledge)
      × All IsCacheRow (create_grounded_answer a schema c p request t).1.cache
unfolding create_grounded_answer
create_grounded_answer-IsGrounded a schema c p request t u k h =
    elim (Bool-cases (not (within_bounds 3 2000 request.question))) [
      | inl e ↦ absurd (refused_ne (rw e at h))
      | inr e ↦ rw e (
          with_controls-IsGrounded a schema (record request { actor_subject = p.subject })
            c.allow_degraded c.requests_per_minute c.daily_token_budget c.cache_ttl_seconds t u k
            (rw e at h))
    ]

answer_ingestion-ok :
    (t : KnowledgeTables) (x : Result (DocumentRecord × KnowledgeTables)) {r : DocumentRecord}
    → (answer_ingestion t x).0 ≡ answer r
    → x ≡ ok (r, (answer_ingestion t x).1)
answer_ingestion-ok t (err e) h = absurd (refuse_ingestion-ne e h)
answer_ingestion-ok t (ok (q, t')) h = ap (λ (y : DocumentRecord). ok (y, t')) (answer-injective h)

-- an action that was planned and stored for its requester
pub record IsRequested (principal : String → Digest) (p : Principal) (limit : Option ℕ)
    (call : PlanCall) (t : Actions.Tables) (r : ActionRecord) (t' : Actions.Tables) : Type 0 where
  pub operator : has_role "operator" p ≡ true
  pub requester : r.requester_hash ≡ principal p.subject
  pub waiting : r.status ≡ pending
  pub stored : t'.requests ≡ t.requests ++ r ∷ []
  pub rate :
      (n : ℕ) × (limit ≡ some n)
      × (recent_requests call.limited_at (principal p.subject) t.requests < n)

enforce_action_rate_limit-lt :
    (principal : String → Digest) (schema : Schema) (now : Timestamp) (subject : String) (n : ℕ)
    (t : Actions.Tables) {u : Unit {0}}
    → enforce_action_rate_limit principal schema now subject n t ≡ ok u
    → recent_requests now (principal subject) t.requests < n
unfolding enforce_action_rate_limit
enforce_action_rate_limit-lt principal schema now subject n t h =
    let (_, h1) = guard-eq-ok (leb 1 n && leb n 1000) value_error _ h in
    let (_, _, h2) = >>=-eq-ok (require_current_schema schema) _ h1 in
    ltb→lt (recent_requests now (principal subject) t.requests) n (guard-ok _ action_rate_limit h2)

module _ (principal : String → Digest) (sha256 : ActionArguments → Digest) where
  create_action_request-stored :
      (schema : Schema) (now : Timestamp) (id ev : Uuid) (subject : String)
      (planned : PlannedAction) (t : Actions.Tables) {x : ActionRecord × Actions.Tables}
      → create_action_request principal sha256 schema now id ev subject planned t ≡ ok x
      → (x.0.requester_hash ≡ principal subject)
        × (x.0.status ≡ pending)
        × (x.1.requests ≡ t.requests ++ x.0 ∷ [])
  unfolding create_action_request new_request
  create_action_request-stored schema now id ev subject planned t h =
      let (_, _, h1) = >>=-eq-ok (require_current_schema schema) _ h in
      let (_, h2) =
        guard-eq-ok (not (any_of (λ (r : ActionRecord). r.action_id == id) t.requests))
          database_error _ h1 in
      let (audit, _, h3) = >>=-eq-ok (record_audit _ t.audit) _ h2 in
      rw (← ok-injective h3) (refl, refl, refl)

  module _ (plan : Text → Result PlannedAction) (schema : Schema) where
    plan_action-IsRequested :
        (limit : Option ℕ) (p : Principal) (call : PlanCall) (t : Actions.Tables)
        {x : ActionRecord × Actions.Tables}
        → has_role "operator" p ≡ true
        → plan_action principal sha256 plan schema limit p.subject call t ≡ ok x
        → IsRequested principal p limit call t x.0 x.1
    unfolding plan_action
    plan_action-IsRequested none p call t o h = absurd (cc)
    plan_action-IsRequested (some n) p call t o h =
        let (_, e, h1) =
          >>=-eq-ok (enforce_action_rate_limit principal schema call.limited_at p.subject n t) _
            h in
        let (planned, _, h2) = >>=-eq-ok (plan call.instruction) _ h1 in
        let (who, waits, kept) =
          create_action_request-stored schema call.created_at call.action_id call.event_id p.subject
            planned t h2 in
        record {
          operator = o;
          requester = who;
          waiting = waits;
          stored = kept;
          rate = (
            n,
            refl,
            enforce_action_rate_limit-lt principal schema call.limited_at p.subject n t e,
          );
        }

    answer_plan-ok :
        (t : Actions.Tables) (x : Result (ActionRecord × Actions.Tables)) {r : ActionRecord}
        → (answer_plan t x).0 ≡ answer r
        → x ≡ ok (r, (answer_plan t x).1)
    answer_plan-ok t (err e) h = absurd (refuse_plan-ne e h)
    answer_plan-ok t (ok (q, t')) h = ap (λ (y : ActionRecord). ok (y, t')) (answer-injective h)

    -- An action that the API plans is a new pending request of the operator who asked for it, and that
    -- operator had made fewer requests in the last minute than the limit.
    pub create_controlled_action-IsRequested :
        (limit : Option ℕ) (p : Principal) (call : PlanCall) (t : Actions.Tables) {r : ActionRecord}
        → (create_controlled_action principal sha256 plan schema limit p call t).0 ≡ answer r
        → IsRequested principal p limit call t r
            (create_controlled_action principal sha256 plan schema limit p call t).1
    unfolding create_controlled_action
    create_controlled_action-IsRequested limit p call t h =
        elim (Bool-cases (has_role "operator" p)) [
          | inr e ↦ absurd (refused_ne (rw e at h))
          | inl o ↦ elim (Bool-cases (within_bounds 10 1000 call.instruction)) [
            | inr e ↦ absurd (refused_ne (rw (o, e) at h))
            | inl b ↦
                rw (o, b)
                  (plan_action-IsRequested limit p call t o (
                    answer_plan-ok t
                      (plan_action principal sha256 plan schema limit p.subject call t)
                      (rw (o, b) at h)))
          ]
        ]

-- A document that the API ingests is an operator's, and the tables stay valid.
pub create_knowledge_document-IsValid :
    (s : Services) (schema : Schema) (p : Principal) (request : Upload) (t : KnowledgeTables)
    {r : DocumentRecord}
    → IsValid t
    → (create_knowledge_document s schema p request t).0 ≡ answer r
    → (has_role "operator" p ≡ true) × IsValid (create_knowledge_document s schema p request t).1
unfolding create_knowledge_document
create_knowledge_document-IsValid s schema p request t v h =
    elim (Bool-cases (has_role "operator" p)) [
      | inr e ↦ absurd (refused_ne (rw e at h))
      | inl o ↦ elim (Bool-cases (is_document_request request)) [
        | inr e ↦ absurd (refused_ne (rw (o, e) at h))
        | inl b ↦
            let up = record request { actor_subject = p.subject } in
            rw (o, b)
              (
                refl,
                ingest_document-IsValid s schema up t v
                    (answer_ingestion-ok t (ingest_document s schema up t) (rw (o, b) at h)),
              )
      ]
    ]
