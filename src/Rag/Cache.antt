-- ===== src/Rag/Cache.antt =====
-- The traces of the answers, and the answers that a principal's cache keeps for a while.
use customer_data_foundation.Prelude.{
  ℕ, ◌+◌, ◌*◌, Bool, true, false, not, ◌&&◌, List, [], ◌∷◌, ◌++◌, map, Option, none, some, Result,
  ok, database_error, value_error, guard, ◌>>◌, ◌==◌, leb, ltb, if◌then◌else◌, length, find, any_of,
  select,
}
use customer_data_foundation.Sql.{Uuid, Digest, Timestamp, second, update}
use customer_data_foundation.Database.{Schema, require_current_schema}
use customer_data_foundation.Text.{codes}
use customer_data_foundation.Knowledge.Store.{
  Document, Chunk, Tables as KnowledgeTables, grants, storable,
}
use customer_data_foundation.Rag.Records.{
  Status, provider_unavailable, prompt_version, no_usage, Citation, RagTrace, AnswerResult,
  TraceRow, Response, CacheRow, Tables,
}

-- the principal and the digest of the question
unfoldable pub trace_row : Timestamp → Digest → Digest → RagTrace → TraceRow
trace_row now principal query_hash trace = record {
  request_id = trace.request_id;
  principal_hash = principal;
  query_hash = query_hash;
  status = trace.status;
  provider = trace.provider;
  model = trace.model;
  prompt_version = prompt_version;
  duration_ms = trace.duration_ms;
  input_tokens = trace.usage.input_tokens;
  output_tokens = trace.usage.output_tokens;
  estimated_cost_usd = trace.estimated_cost_usd;
  retrieved_count = trace.retrieved_count;
  citation_count = trace.citation_count;
  cached = trace.cached;
  created_at = now;
}

-- INSERT INTO rag_traces, with its key and the widths of its columns
unfoldable pub persist_trace :
    Schema → Timestamp → Digest → Digest → RagTrace → Tables → Result (Unit {0} × Tables)
unfolding trace_row storable
persist_trace schema now principal query_hash trace t = do
  require_current_schema schema
  guard
      (storable trace.provider
        && storable trace.model
        && leb (length trace.provider) 40
        && leb (length trace.model) 120)
      database_error
  guard (not (any_of (λ (r : TraceRow). r.request_id == trace.request_id) t.traces)) database_error
  ok (tt, record t { traces = t.traces ++ trace_row now principal query_hash trace ∷ [] })

abbrev pub of_key : Digest → Digest → CacheRow → Bool
of_key principal key r = r.principal_hash == principal && r.cache_key_hash == key

abbrev pub lives : Timestamp → Digest → Digest → CacheRow → Bool
lives now principal key r = of_key principal key r && ltb now r.expires_at

-- a chunk of an active document that the principal may read
unfoldable pub citable : KnowledgeTables → Digest → Chunk → Bool
citable k principal c =
    any_of
      (λ (d : Document).
        d.document_id == c.document_id
        && d.active
        && any_of (grants d.document_id principal) k.permissions)
      k.documents

abbrev pub one_of : List Uuid → Uuid → Bool
one_of ids id = any_of (λ (i : Uuid). id == i) ids

-- c.chunk_id = ANY(ids)
unfoldable pub count_authorized : KnowledgeTables → Digest → List Uuid → ℕ
unfolding citable
count_authorized k principal ids =
    length (select (λ (c : Chunk). one_of ids c.chunk_id && citable k principal c) k.chunks)

abbrev pub cited_chunk : Citation → Uuid
cited_chunk c = c.chunk_id

abbrev pub is_response_status : Status → Bool
is_response_status provider_unavailable = false
is_response_status _ = true

unfoldable pub cached_trace : Uuid → Response → RagTrace
cached_trace request_id r = record {
  request_id = request_id;
  status = r.status;
  provider = codes "cache";
  model = r.model;
  duration_ms = 0;
  usage = no_usage;
  estimated_cost_usd = some 0;
  retrieved_count = 0;
  citation_count = length r.citations;
  cached = true;
}

unfoldable pub cached_result : Uuid → Response → AnswerResult
unfolding cached_trace
cached_result request_id r = record {
  status = r.status;
  answer = r.answer;
  citations = r.citations;
  trace = cached_trace request_id r;
}

-- a response that may still be shown: every chunk that it cites is authorized
unfoldable pub usable : KnowledgeTables → Digest → Response → Bool
unfolding count_authorized
usable k principal r =
    (count_authorized k principal (map cited_chunk r.citations) == length r.citations)
    && is_response_status r.status

abbrev pub if_usable : KnowledgeTables → Digest → Option CacheRow → Option Response
if_usable k principal none = none
if_usable k principal (some r) = if usable k principal r.response then some r.response else none

-- `_cached_answer` up to the trace
unfoldable pub find_cached :
    Schema → Digest → Digest → Timestamp → Tables → Result (Option Response)
unfolding usable
find_cached schema principal key now t = do
  require_current_schema schema
  ok (if_usable t.knowledge principal (find (lives now principal key) t.cache))

unfoldable pub response_of : AnswerResult → Response
response_of r = record {
  status = r.status;
  answer = r.answer;
  citations = r.citations;
  model = r.trace.model;
}

-- INSERT ... ON CONFLICT (principal_hash, cache_key_hash) DO UPDATE
unfoldable pub put_cached : CacheRow → List CacheRow → List CacheRow
put_cached row rows =
    if any_of (of_key row.principal_hash row.cache_key_hash) rows
    then update (of_key row.principal_hash row.cache_key_hash) (λ (r : CacheRow). row) rows
    else rows ++ row ∷ []

unfoldable pub store_cached_answer :
    Schema → Timestamp → ℕ → Digest → Digest → AnswerResult → Tables → Result (Unit {0} × Tables)
unfolding put_cached response_of storable
store_cached_answer schema now ttl principal key result t = if ttl == 0 then ok (tt, t) else (do
  guard (leb 1 ttl && leb ttl 86_400) value_error
  require_current_schema schema
  guard (storable result.answer && storable result.trace.model) database_error
  ok (
    tt,
    record t {
      cache =
          put_cached
            (record {
              principal_hash = principal;
              cache_key_hash = key;
              response = response_of result;
              expires_at = now + ttl * second;
              created_at = now;
            })
            t.cache;
    },
  ))
