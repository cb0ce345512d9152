-- ===== src/Rag/Answers.antt =====
-- `answer_question` of rag.py. A call runs alone between the transactions of others.
use customer_data_foundation.Prelude.{
  ℕ, Bool, true, false, not, ◌&&◌, ◌||◌, List, [], ◌∷◌, Option, none, some, Result, ok, value_error,
  ai_provider_unavailable, ◌==◌, if◌then◌else◌, length, find, all_of, select, is_some,
}
use customer_data_foundation.Sql.{Uuid, Digest}
use customer_data_foundation.Database.{Schema}
use customer_data_foundation.Text.{Text, codes, text_eq}
use customer_data_foundation.Knowledge.Query.{dedupe}
use customer_data_foundation.Knowledge.Store.{Float, Services}
use customer_data_foundation.Knowledge.Retrieval.{
  Search, RetrievalHit, hybrid, sort_by, by_key, retrieve_chunks,
}
use customer_data_foundation.Rag.Steps.{Step, ◌>>=◌, ◌>>◌, return, raise, reading, transaction}
use customer_data_foundation.Rag.Records.{
  Status, answered, refused, degraded, provider_unavailable, prompt_version, safe_refusal,
  TokenUsage, no_usage, Decimal, GeneratedAnswer, Generation, generated, refusal, unavailable,
  invalid, AnswerGenerator, Citation, RagTrace, AnswerResult, Response, Tables, CacheKey, Call,
}
use customer_data_foundation.Rag.Gates.{enforce_request_rate, enforce_daily_budget}
use customer_data_foundation.Rag.Extractive.{generate_extractive}
use customer_data_foundation.Rag.Cache.{
  persist_trace, find_cached, cached_result, store_cached_answer,
}

-- What the answers use besides: the comparison with MIN_SEMANTIC_SIMILARITY, with zero, and the number
-- -1.0; `str` of an identifier; the digests of a question and of a key of the cache; the generator.
pub record Assistant : Type 0 where
  pub services : Services
  pub search : Search
  pub is_similar : Float → Bool
  pub is_positive : Float → Bool
  pub is_zero : Float → Bool
  pub minus_one : Float
  pub uuid_text : Uuid → Text
  pub query_hash : Text → Digest
  pub key_hash : CacheKey → Digest
  pub generator : AnswerGenerator

abbrev pub passes : (Float → Bool) → Option Float → Bool
passes test none = false
passes test (some x) = test x

abbrev pub or_else : Option Text → Text → Text
or_else none default = default
or_else (some t) default = t

abbrev pub new_citation : RetrievalHit → Citation
new_citation h = record {
  chunk_id = h.chunk_id;
  document_id = h.document_id;
  source_uri = h.source_uri;
  title = h.title;
  chunk_index = h.chunk_index;
}

module _ (a : Assistant) (schema : Schema) (call : Call) where
  open a use {services, search}

  unfoldable pub principal_of : Digest
  principal_of = services.principal call.actor_subject

  unfoldable pub evidence_is_sufficient : RetrievalHit → Bool
  evidence_is_sufficient h =
      passes a.is_positive h.lexical_score || passes a.is_similar h.semantic_similarity

  -- `x or default`
  abbrev pub number_or : Float → Option Float → Float
  number_or default none = default
  number_or default (some x) = if a.is_zero x then default else x

  -- more words first, then closer vectors, then the score, and then the identifier
  unfoldable pub evidence_before : RetrievalHit → RetrievalHit → Bool
  evidence_before h k =
      let words = number_or search.zero_score in
      let closeness = number_or a.minus_one in
      if search.less (words k.lexical_score) (words h.lexical_score)
      then true
      else if search.less (words h.lexical_score) (words k.lexical_score)
      then false
      else if search.less (closeness k.semantic_similarity) (closeness h.semantic_similarity)
      then true
      else if search.less (closeness h.semantic_similarity) (closeness k.semantic_similarity)
      then false
      else by_key search.less k.score h.score h.chunk_id k.chunk_id

  unfoldable pub evidence_of : List RetrievalHit → List RetrievalHit
  unfolding evidence_is_sufficient evidence_before sort_by
  evidence_of hits = sort_by evidence_before (select evidence_is_sufficient hits)

  unfoldable pub cache_key : Digest
  cache_key = a.key_hash (record {
    question = call.question;
    metadata_filter = call.metadata_filter;
    prompt_version = prompt_version;
    embedding_provider = services.provider.name;
    embedding_model = services.provider.model;
    answer_provider = or_else a.generator.name (codes "openai");
    answer_model = or_else a.generator.model (codes "configured");
  })

  -- the trace of an answer of this call that no cache gave
  unfoldable pub new_trace : Status → Text → Text → TokenUsage → Option Decimal → ℕ → ℕ → RagTrace
  new_trace status provider model usage cost retrieved cited = record {
    request_id = call.request_id;
    status = status;
    provider = provider;
    model = model;
    duration_ms = call.duration_ms;
    usage = usage;
    estimated_cost_usd = cost;
    retrieved_count = retrieved;
    citation_count = cited;
    cached = false;
  }

  unfoldable pub refusal_trace : ℕ → RagTrace
  unfolding new_trace
  refusal_trace retrieved =
      new_trace refused (codes "retrieval_gate") (codes "none") no_usage (some 0) retrieved 0

  unfoldable pub refusal_result : RagTrace → AnswerResult
  refusal_result trace = record {
    status = refused;
    answer = safe_refusal;
    citations = [];
    trace = trace;
  }

  unfoldable pub write_trace : RagTrace → Step Tables Unit
  unfolding persist_trace principal_of
  write_trace trace =
      transaction
        (persist_trace schema call.traced_at principal_of (a.query_hash call.question) trace)

  -- the trace of a result, and its place in the cache
  unfoldable pub deliver : AnswerResult → Step Tables AnswerResult
  unfolding write_trace store_cached_answer cache_key
  deliver result = do
    write_trace result.trace
    transaction (
        store_cached_answer schema call.stored_at call.cache_ttl_seconds principal_of cache_key
          result)
    return result

  unfoldable pub refuse : RagTrace → Step Tables AnswerResult
  unfolding deliver refusal_result
  refuse trace = deliver (refusal_result trace)

  abbrev pub is_cited : Text → RetrievalHit → Bool
  is_cited id h = text_eq (a.uuid_text h.chunk_id) id

  abbrev pub cite : Option RetrievalHit → List Citation → List Citation
  cite none cs = cs
  cite (some h) cs = new_citation h ∷ cs

  -- the evidence of each identifier
  unfoldable pub citations_of : List RetrievalHit → List Text → List Citation
  citations_of evidence [] = []
  citations_of evidence (id ∷ ids) = cite (find (is_cited id) evidence) (citations_of evidence ids)

  abbrev pub is_nil : List Text → Bool
  is_nil [] = true
  is_nil (id ∷ ids) = false

  unfoldable pub citations_valid : List RetrievalHit → List Text → Bool
  citations_valid evidence ids =
      not (is_nil ids) && all_of (λ (id : Text). is_some (find (is_cited id) evidence)) ids

  unfoldable pub answer_status : Bool → Status
  answer_status degraded' = if degraded' then degraded else answered

  unfoldable pub grounded_result : Bool → GeneratedAnswer → ℕ → List Citation → AnswerResult
  unfolding new_trace answer_status
  grounded_result degraded' g retrieved citations = record {
    status = answer_status degraded';
    answer = g.draft.answer;
    citations = citations;
    trace =
        new_trace (answer_status degraded') g.provider g.model g.usage g.estimated_cost_usd
          retrieved (length citations);
  }

  -- the check of a draft's citations
  unfoldable pub conclude : List RetrievalHit → Bool → GeneratedAnswer → Step Tables AnswerResult
  unfolding dedupe citations_valid citations_of refuse deliver grounded_result
  conclude evidence degraded' g =
      let cited_ids = dedupe g.draft.cited_chunk_ids in
      if not g.draft.supported || not (citations_valid evidence cited_ids)
      then refuse
          (new_trace refused g.provider g.model g.usage g.estimated_cost_usd (length evidence) 0)
      else deliver (grounded_result degraded' g (length evidence) (citations_of evidence cited_ids))

  unfoldable pub unavailable_trace : ℕ → RagTrace
  unfolding new_trace
  unavailable_trace retrieved =
      new_trace provider_unavailable (codes "answer_provider") (codes "unavailable") no_usage none
        retrieved 0

  unfoldable pub give_up : ℕ → Step Tables AnswerResult
  unfolding unavailable_trace write_trace
  give_up retrieved = do write_trace (unavailable_trace retrieved); raise ai_provider_unavailable

  -- what the local generator makes of the evidence; it is never refused and never unavailable
  unfoldable pub conclude_local : List RetrievalHit → Generation → Step Tables AnswerResult
  unfolding conclude
  conclude_local evidence (generated g) = conclude evidence true g
  conclude_local evidence refusal = raise value_error
  conclude_local evidence unavailable = raise value_error
  conclude_local evidence invalid = raise value_error

  unfoldable pub fall_back : RetrievalHit → List RetrievalHit → Step Tables AnswerResult
  unfolding generate_extractive conclude_local give_up
  fall_back hit hits =
      if call.allow_degraded
      then conclude_local (hit ∷ hits) (
          generate_extractive services.unicode a.uuid_text call.duration_ms call.question hit
            (a.uuid_text call.request_id))
      else give_up (length (hit ∷ hits))

  -- what the provider made of the evidence
  unfoldable pub conclude_generation :
      RetrievalHit → List RetrievalHit → Generation → Step Tables AnswerResult
  unfolding conclude refuse refusal_trace fall_back
  conclude_generation hit hits (generated g) = conclude (hit ∷ hits) false g
  conclude_generation hit hits refusal = refuse (refusal_trace (length (hit ∷ hits)))
  conclude_generation hit hits unavailable = fall_back hit hits
  conclude_generation hit hits invalid = raise value_error

  unfoldable pub answer_from : List RetrievalHit → List RetrievalHit → Step Tables AnswerResult
  unfolding refuse refusal_trace enforce_daily_budget conclude_generation
  answer_from hits [] = refuse (refusal_trace (length hits))
  answer_from hits (hit ∷ evidence) = do
    reading (λ (t : Tables). enforce_daily_budget schema principal_of call t.traces)
    conclude_generation hit evidence
        (a.generator.generate call.question (hit ∷ evidence) (a.uuid_text call.request_id))

  unfoldable pub retrieve_and_answer : Step Tables AnswerResult
  unfolding retrieve_chunks evidence_of answer_from
  retrieve_and_answer = do
    hits ← reading (λ (t : Tables).
        retrieve_chunks services search schema
          (record {
            actor_subject = call.actor_subject;
            query = call.question;
            mode = hybrid;
            limit = 8;
            metadata_filter = call.metadata_filter;
          })
          t.knowledge)
    answer_from hits (evidence_of hits)

  -- the answer of the cache, with a trace, or a new one
  unfoldable pub answer_cached : Option Response → Step Tables AnswerResult
  unfolding cached_result write_trace retrieve_and_answer
  answer_cached none = retrieve_and_answer
  answer_cached (some r) = do
    write_trace (cached_result call.request_id r).trace
    return (cached_result call.request_id r)

  unfoldable pub look_up : Tables → Result (Option Response)
  unfolding find_cached cache_key principal_of
  look_up t =
      if call.cache_ttl_seconds == 0
      then ok none
      else find_cached schema principal_of cache_key call.cached_at t

  unfoldable pub answer_question : Step Tables AnswerResult
  unfolding enforce_request_rate look_up answer_cached principal_of
  answer_question = do
    reading (λ (t : Tables). enforce_request_rate schema principal_of call t.traces)
    cached ← reading look_up
    answer_cached cached
