-- ===== src/Api/AssistTests.antt =====
-- The theorems on the handlers of knowledge and of the assistant at one document and one operator.
use customer_data_foundation.Prelude.{
  ◌≡◌, refl, true, false, [], ◌∷◌, some, String, str_eq, Result, ok, err, value_error,
  if◌then◌else◌, All,
}
use customer_data_foundation.Sql.{Digest, update}
use customer_data_foundation.Database.{current_schema, require_current_schema}
use customer_data_foundation.Text.{Text, codes, strip, casefold}
use customer_data_foundation.Actions
use customer_data_foundation.Actions.{
  case_update, status_update, PlannedAction, ActionArguments, ActionRecord, create_action_request,
  enforce_action_rate_limit, recent_requests, new_request, record_audit,
}
use customer_data_foundation.Validation.Tests.{small_unicode}
use customer_data_foundation.Knowledge.Tests.{services, upload, one_document, made}
use customer_data_foundation.Knowledge.Store.{Tables as KnowledgeTables}
use customer_data_foundation.Knowledge.Ingest.{DocumentRecord}
use customer_data_foundation.Rag.Records.{AnswerResult, Tables}
use customer_data_foundation.Rag.Tests.{tables, assistant, call, given}
use customer_data_foundation.Rag.Outcome.{IsCacheRow, IsGrounded}
use customer_data_foundation.Api.{Answer, answer, refused, Principal}
use customer_data_foundation.Api.Providers.{app_env_of, is_development}
use customer_data_foundation.Api.Assistants.{
  is_document_request, Controls, create_grounded_answer, create_knowledge_document,
  create_controlled_action, PlanCall, plan_action,
}
use customer_data_foundation.Api.Assisted.{
  create_grounded_answer-IsGrounded, IsRequested, create_controlled_action-IsRequested,
}
use customer_data_foundation.Knowledge.Chunks.{
  normalize_content, chunk_text, chunk_loop, windows_from, chunk_end, chunks_of,
}
use customer_data_foundation.Knowledge.Query.{lexical_query, query_terms, dedupe}
use customer_data_foundation.Knowledge.Store.{
  vector_literal, storable, storable_metadata, contains, latest_version,
}
use customer_data_foundation.Knowledge.Ingest.{
  ingest_document, find_content, place_document, store_version, next_version, insert_chunks,
  insert_chunk, new_chunk, safe_metadata,
}
use customer_data_foundation.Knowledge.Retrieval.{
  retrieve_chunks, lexical_rows, semantic_rows, base_select, readable, fuse, add_lexical,
  add_semantic, set_default, sort_by,
}
use customer_data_foundation.Rag.Gates.{recent_traces, enforce_request_rate, enforce_daily_budget}
use customer_data_foundation.Rag.Cache.{persist_trace, store_cached_answer, find_cached}
use customer_data_foundation.Rag.Answers.{
  principal_of, evidence_of, evidence_is_sufficient, evidence_before, write_trace, deliver,
  citations_of, citations_valid, grounded_result, answer_status, conclude, conclude_generation,
  answer_from, retrieve_and_answer, answer_cached, look_up, answer_question,
}

production :
    is_development small_unicode (app_env_of small_unicode (some (codes " Production"))) ≡ false
unfolding app_env_of strip casefold
production = refl

abbrev operator : Principal
operator = record { subject = "ana"; roles = "operator" ∷ [] }

abbrev principal : String → Digest
principal subject = if str_eq subject "ana" then 1 else 2

abbrev no_actions : Actions.Tables
no_actions = record { requests = []; audit = [] }

abbrev plan : Text → Result PlannedAction
plan instruction = ok (record {
  action_type = "send_customer_followup";
  arguments = record {
    customer_reference = "CUST-123";
    template = case_update;
    reason = status_update;
  };
  provider = "openai";
  model = "m";
  provider_response_id = "r";
})

abbrev plan_call : PlanCall
plan_call = record {
  instruction = codes "Follow up CUST-123";
  limited_at = 1000;
  created_at = 1001;
  action_id = 5;
  event_id = 6;
}

abbrev planned : Answer ActionRecord × Actions.Tables
planned =
    create_controlled_action principal (λ a. 77) plan current_schema (some 5) operator plan_call
      no_actions

abbrev shown : {A : Type 0} → A → Answer A → A
shown default (answer a) = a
shown default (refused n code) = default

abbrev no_action : ActionRecord
no_action =
    new_request principal (λ a. 77) 0 0 ""
      (record {
        action_type = "";
        arguments = record {
          customer_reference = "";
          template = case_update;
          reason = status_update;
        };
        provider = "";
        model = "";
        provider_response_id = "";
      })

is_planned : planned.0 ≡ answer (shown no_action planned.0)
unfolding create_controlled_action plan_action enforce_action_rate_limit recent_requests
    require_current_schema create_action_request record_audit
is_planned = refl

create_controlled_action-IsRequested_example :
    IsRequested principal operator
      (some 5)
      plan_call
      no_actions
      (shown no_action planned.0)
      planned.1
create_controlled_action-IsRequested_example =
    create_controlled_action-IsRequested principal (λ a. 77) plan current_schema (some 5) operator
      plan_call no_actions is_planned

abbrev ingested : Answer DocumentRecord × KnowledgeTables
ingested =
    create_knowledge_document services current_schema operator (upload 7 (codes "Cards."))
      one_document

abbrev no_record : DocumentRecord
no_record = (made (err value_error)).0

is_ingested : ingested.0 ≡ answer (shown no_record ingested.0)
unfolding create_knowledge_document is_document_request ingest_document chunk_text vector_literal
    storable storable_metadata require_current_schema find_content place_document store_version
    insert_chunks insert_chunk new_chunk safe_metadata next_version latest_version normalize_content
    strip chunk_loop windows_from chunk_end chunks_of
is_ingested = refl

abbrev reader : Principal
reader = record { subject = "luis"; roles = "auditor" ∷ [] }

abbrev controls : Controls
controls = record {
  requests_per_minute = some 2;
  daily_token_budget = some 10;
  cache_ttl_seconds = some 300;
  allow_degraded = true;
}

abbrev replied : Answer AnswerResult × Tables
replied = create_grounded_answer assistant current_schema controls reader call tables

abbrev no_answer : AnswerResult
no_answer = given (err value_error)

is_replied : replied.0 ≡ answer (shown no_answer replied.0)
unfolding create_grounded_answer answer_question enforce_request_rate recent_traces look_up
    find_cached require_current_schema answer_cached retrieve_and_answer retrieve_chunks strip
    vector_literal lexical_query lexical_rows semantic_rows storable_metadata base_select readable
    contains query_terms fuse add_lexical add_semantic set_default update sort_by evidence_of
    evidence_is_sufficient evidence_before answer_from enforce_daily_budget conclude_generation
    conclude dedupe citations_valid citations_of deliver write_trace persist_trace grounded_result
    answer_status store_cached_answer storable principal_of
is_replied = refl

create_grounded_answer-IsGrounded_example :
    IsGrounded tables 2 (shown no_answer replied.0)
    × (replied.1.knowledge ≡ tables.knowledge)
    × All IsCacheRow replied.1.cache
create_grounded_answer-IsGrounded_example =
    create_grounded_answer-IsGrounded assistant current_schema controls reader call tables (tt, tt)
      tt is_replied
