-- ===== src/Api/Assistants.antt =====
-- The handlers of knowledge and of the assistant in api.py. A database that cannot be reached answers
-- as one whose schema is not current; an exception that no handler takes is the server's 500.
use customer_data_foundation.Prelude.{
  ℕ, Bool, not, ◌&&◌, List, Option, none, some, String, Result, ok, err, Error, schema_not_current,
  database_error, value_error, action_rate_limit, ai_request_limit, ai_daily_budget,
  ai_provider_unavailable, embedding_provider_error, ◌>>=◌, ◌>>◌, leb, length, if◌then◌else◌,
}
use customer_data_foundation.Sql.{Uuid, Digest, Timestamp}
use customer_data_foundation.Database.{Schema}
use customer_data_foundation.Text.{Text}
use customer_data_foundation.Actions.{
  ActionRecord, PlannedAction, ActionArguments, create_action_request, enforce_action_rate_limit,
  Tables as ActionTables,
}
use customer_data_foundation.Knowledge.Store.{Services, Tables as KnowledgeTables}
use customer_data_foundation.Knowledge.Ingest.{Upload, DocumentRecord, ingest_document}
use customer_data_foundation.Knowledge.Retrieval.{Search, Question, RetrievalHit, retrieve_chunks}
use customer_data_foundation.Rag.Records.{AnswerResult, Tables, Call}
use customer_data_foundation.Rag.Answers.{Assistant, answer_question}
use customer_data_foundation.Api.{Answer, answer, refused, Principal, has_role}

abbrev pub within_bounds : ℕ → ℕ → Text → Bool
within_bounds low high t = leb low (length t) && leb (length t) high

abbrev pub invalid_request : {A : Type 0} → Answer A
invalid_request = refused 422 "invalid_request"

abbrev pub server_error : {A : Type 0} → Answer A
server_error = refused 500 "internal_server_error"

-- the bounds of DocumentIngestRequest
unfoldable pub is_document_request : Upload → Bool
is_document_request up =
    within_bounds 3 500 up.source_uri
    && within_bounds 1 200 up.title
    && within_bounds 1 100_000 up.content
    && leb (length up.reader_subjects) 100

unfoldable pub refuse_ingestion : {A : Type 0} → Error → Answer A
refuse_ingestion value_error = refused 422 "invalid_document"
refuse_ingestion embedding_provider_error = refused 503 "embedding_provider_unavailable"
refuse_ingestion database_error = refused 503 "knowledge_store_unavailable"
refuse_ingestion schema_not_current = refused 503 "knowledge_store_unavailable"
refuse_ingestion _ = server_error

abbrev pub answer_ingestion :
    KnowledgeTables
    → Result (DocumentRecord × KnowledgeTables)
    → Answer DocumentRecord × KnowledgeTables
answer_ingestion t (err e) = (refuse_ingestion e, t)
answer_ingestion t (ok (r, t')) = (answer r, t')

-- the actor is the principal of the token, whatever the request says
unfoldable pub create_knowledge_document :
    Services
    → Schema
    → Principal
    → Upload
    → KnowledgeTables
    → Answer DocumentRecord × KnowledgeTables
unfolding is_document_request refuse_ingestion ingest_document
create_knowledge_document s schema p request t =
    if not (has_role "operator" p)
    then (refused 403 "forbidden", t)
    else if not (is_document_request request)
    then (invalid_request, t)
    else answer_ingestion t
        (ingest_document s schema (record request { actor_subject = p.subject }) t)

unfoldable pub refuse_retrieval : {A : Type 0} → Error → Answer A
refuse_retrieval value_error = refused 422 "invalid_retrieval"
refuse_retrieval embedding_provider_error = refused 422 "invalid_retrieval"
refuse_retrieval database_error = refused 503 "knowledge_store_unavailable"
refuse_retrieval schema_not_current = refused 503 "knowledge_store_unavailable"
refuse_retrieval _ = server_error

abbrev pub answer_hits : Result (List RetrievalHit) → Answer (List RetrievalHit)
answer_hits (err e) = refuse_retrieval e
answer_hits (ok hits) = answer hits

-- the bounds of RetrievalRequest
unfoldable pub is_retrieval_request : Question → Bool
is_retrieval_request q = within_bounds 3 2000 q.query && leb 1 q.limit && leb q.limit 20

unfoldable pub retrieve_knowledge :
    Services → Search → Schema → Principal → Question → KnowledgeTables → Answer (List RetrievalHit)
unfolding is_retrieval_request refuse_retrieval retrieve_chunks
retrieve_knowledge s search schema p request t =
    if not (is_retrieval_request request)
    then invalid_request
    else answer_hits
        (retrieve_chunks s search schema (record request { actor_subject = p.subject }) t)

-- the three settings of the limits, which `int` may refuse, and the one of the fallback
pub record Controls : Type 0 where
  pub requests_per_minute : Option ℕ
  pub daily_token_budget : Option ℕ
  pub cache_ttl_seconds : Option ℕ
  pub allow_degraded : Bool

unfoldable pub refuse_answer : {A : Type 0} → Error → Answer A
refuse_answer ai_request_limit = refused 429 "ai_limit_reached"
refuse_answer ai_daily_budget = refused 429 "ai_limit_reached"
refuse_answer value_error = refused 422 "invalid_answer_request"
refuse_answer embedding_provider_error = refused 422 "invalid_answer_request"
refuse_answer ai_provider_unavailable = refused 503 "answer_provider_unavailable"
refuse_answer database_error = refused 503 "knowledge_store_unavailable"
refuse_answer schema_not_current = refused 503 "knowledge_store_unavailable"
refuse_answer _ = server_error

abbrev pub answer_result : Result AnswerResult × Tables → Answer AnswerResult × Tables
answer_result (err e, t) = (refuse_answer e, t)
answer_result (ok r, t) = (answer r, t)

abbrev pub with_controls :
    Assistant
    → Schema
    → Call
    → Bool
    → Option ℕ
    → Option ℕ
    → Option ℕ
    → Tables
    → Answer AnswerResult × Tables
with_controls a schema call degraded (some rate) (some budget) (some ttl) t = answer_result (
    answer_question a schema
      (record call {
        requests_per_minute = rate;
        daily_token_budget = budget;
        cache_ttl_seconds = ttl;
        allow_degraded = degraded;
      })
      t)
with_controls a schema call degraded _ _ _ t = (refused 503 "ai_controls_not_configured", t)

unfoldable pub create_grounded_answer :
    Assistant → Schema → Controls → Principal → Call → Tables → Answer AnswerResult × Tables
unfolding refuse_answer answer_question
create_grounded_answer a schema c p request t =
    if not (within_bounds 3 2000 request.question)
    then (invalid_request, t)
    else with_controls a schema (record request { actor_subject = p.subject }) c.allow_degraded
        c.requests_per_minute c.daily_token_budget c.cache_ttl_seconds t

unfoldable pub refuse_plan : {A : Type 0} → Error → Answer A
refuse_plan value_error = refused 422 "invalid_action_request"
refuse_plan action_rate_limit = refused 429 "action_rate_limited"
refuse_plan ai_provider_unavailable = refused 503 "action_provider_unavailable"
refuse_plan database_error = refused 503 "action_store_unavailable"
refuse_plan schema_not_current = refused 503 "action_store_unavailable"
refuse_plan _ = server_error

abbrev pub answer_plan :
    ActionTables → Result (ActionRecord × ActionTables) → Answer ActionRecord × ActionTables
answer_plan t (err e) = (refuse_plan e, t)
answer_plan t (ok (r, t')) = (answer r, t')

-- the bounds of a limit that `int` has not refused
abbrev pub int_setting : Option ℕ → Result ℕ
int_setting none = err value_error
int_setting (some n) = ok n

-- a request for an action, and the identifiers and times of its transactions
pub record PlanCall : Type 0 where
  pub instruction : Text
  pub limited_at : Timestamp
  pub created_at : Timestamp
  pub action_id : Uuid
  pub event_id : Uuid

-- `principal` and `sha256` are as in the store of actions; `plan` is what the planner does
-- No other transaction stands between the one of the limit and the one of the creation here.
unfoldable pub plan_action :
    (String → Digest)
    → (ActionArguments → Digest)
    → (Text → Result PlannedAction)
    → Schema
    → Option ℕ
    → String
    → PlanCall
    → ActionTables
    → Result (ActionRecord × ActionTables)
unfolding enforce_action_rate_limit create_action_request
plan_action principal sha256 plan schema limit subject call t = do
  rate_limit ← int_setting limit
  enforce_action_rate_limit principal schema call.limited_at subject rate_limit t
  planned ← plan call.instruction
  create_action_request principal sha256 schema call.created_at call.action_id call.event_id subject
      planned t

unfoldable pub create_controlled_action :
    (String → Digest)
    → (ActionArguments → Digest)
    → (Text → Result PlannedAction)
    → Schema
    → Option ℕ
    → Principal
    → PlanCall
    → ActionTables
    → Answer ActionRecord × ActionTables
unfolding plan_action refuse_plan
create_controlled_action principal sha256 plan schema limit p call t =
    if not (has_role "operator" p)
    then (refused 403 "forbidden", t)
    else if not (within_bounds 10 1000 call.instruction)
    then (invalid_request, t)
    else answer_plan t (plan_action principal sha256 plan schema limit p.subject call t)
