-- ===== src/Rag/Records.antt =====
-- The models and the tables of rag.py.
use customer_data_foundation.Prelude.{ℕ, Bool, Option, List, String}
use customer_data_foundation.Sql.{Uuid, Digest, Timestamp}
use customer_data_foundation.Text.{Text, codes}
use customer_data_foundation.Knowledge.Store.{Metadata, Tables as KnowledgeTables}
use customer_data_foundation.Knowledge.Retrieval.{RetrievalHit}

abbrev pub prompt_version : Text
prompt_version = codes "1.0.0"

abbrev pub safe_refusal : Text
safe_refusal = codes "No encontre evidencia autorizada suficiente para responder esa pregunta."

pub data Status : Type 0 where
  answered refused degraded provider_unavailable : Status

-- a `Decimal`, by its code; 0 is that of Decimal("0")
abbrev pub Decimal : Type 0
Decimal = ℕ

pub record TokenUsage : Type 0 where
  pub input_tokens : ℕ
  pub output_tokens : ℕ
  pub total_tokens : ℕ
  pub cached_input_tokens : ℕ
  pub reasoning_tokens : ℕ

abbrev pub no_usage : TokenUsage
no_usage = record {
  input_tokens = 0;
  output_tokens = 0;
  total_tokens = 0;
  cached_input_tokens = 0;
  reasoning_tokens = 0;
}

pub record GroundedDraft : Type 0 where
  pub answer : Text
  pub supported : Bool
  pub cited_chunk_ids : List Text

pub record GeneratedAnswer : Type 0 where
  pub draft : GroundedDraft
  pub provider : Text
  pub model : Text
  pub provider_response_id : Text
  pub duration_ms : ℕ
  pub usage : TokenUsage
  pub estimated_cost_usd : Option Decimal

-- what `generate` does: an answer, AIRefusalError, AIProviderUnavailableError, or a ValueError, which
-- the validation of a draft raises
pub data Generation : Type 0 where
  generated : GeneratedAnswer → Generation
  refusal unavailable invalid : Generation

-- the protocol AnswerGenerator, and the attributes that `getattr` may find
pub record AnswerGenerator : Type 0 where
  pub name : Option Text
  pub model : Option Text
  pub generate : Text → List RetrievalHit → Text → Generation

pub record Citation : Type 0 where
  pub chunk_id : Uuid
  pub document_id : Uuid
  pub source_uri : Text
  pub title : Text
  pub chunk_index : ℕ

pub record RagTrace : Type 0 where
  pub request_id : Uuid
  pub status : Status
  pub provider : Text
  pub model : Text
  pub duration_ms : ℕ
  pub usage : TokenUsage
  pub estimated_cost_usd : Option Decimal
  pub retrieved_count : ℕ
  pub citation_count : ℕ
  pub cached : Bool

pub record AnswerResult : Type 0 where
  pub status : Status
  pub answer : Text
  pub citations : List Citation
  pub trace : RagTrace

-- a row of rag_traces
pub record TraceRow : Type 0 where
  pub request_id : Uuid
  pub principal_hash : Digest
  pub query_hash : Digest
  pub status : Status
  pub provider : Text
  pub model : Text
  pub prompt_version : Text
  pub duration_ms : ℕ
  pub input_tokens : ℕ
  pub output_tokens : ℕ
  pub estimated_cost_usd : Option Decimal
  pub retrieved_count : ℕ
  pub citation_count : ℕ
  pub cached : Bool
  pub created_at : Timestamp

-- the JSON of a cached response
pub record Response : Type 0 where
  pub status : Status
  pub answer : Text
  pub citations : List Citation
  pub model : Text

-- a row of rag_cache
pub record CacheRow : Type 0 where
  pub principal_hash : Digest
  pub cache_key_hash : Digest
  pub response : Response
  pub expires_at : Timestamp
  pub created_at : Timestamp

pub record Tables : Type 0 where
  pub knowledge : KnowledgeTables
  pub traces : List TraceRow
  pub cache : List CacheRow

-- what the key of the cache is made of
pub record CacheKey : Type 0 where
  pub question : Text
  pub metadata_filter : Metadata
  pub prompt_version : Text
  pub embedding_provider : Text
  pub embedding_model : Text
  pub answer_provider : Text
  pub answer_model : Text

-- The arguments of a call, the times of its transactions, the beginning of the day of the third, and
-- what it measures on its clock.
pub record Call : Type 0 where
  pub request_id : Uuid
  pub actor_subject : String
  pub question : Text
  pub metadata_filter : Metadata
  pub requests_per_minute : ℕ
  pub daily_token_budget : ℕ
  pub cache_ttl_seconds : ℕ
  pub allow_degraded : Bool
  pub rate_at : Timestamp
  pub cached_at : Timestamp
  pub day_began : Timestamp
  pub traced_at : Timestamp
  pub stored_at : Timestamp
  pub duration_ms : ℕ
