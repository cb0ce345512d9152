-- ===== src/Knowledge/Tests.antt =====
-- The theorems on knowledge at one document of two versions.
use customer_data_foundation.Prelude.{
  ◌⊎◌, sym, ap, ◌∙◌, In, inl, inr, ltb, ◌-◌, ℕ, zero, suc, ◌+◌, ◌*◌, ◌≤◌, ◌≡◌, refl, true, false,
  List, [], ◌∷◌, none, str_eq, Result, ok, err, if◌then◌else◌, length, All, arith,
}
use customer_data_foundation.Sql.{Uuid, update}
use customer_data_foundation.Database.{current_schema, require_current_schema}
use customer_data_foundation.Text.{Text, codes, is_empty, strip}
use customer_data_foundation.Validation.Tests.{small_unicode}
use customer_data_foundation.Knowledge.Windows.{Covers, IsChunk, chunk_text-Covers}
use customer_data_foundation.Knowledge.Chunks.{
  Window, max_document_characters, normalize_content, chunk_text, chunk_loop, windows_from,
  chunk_end, chunks_of,
}
use customer_data_foundation.Knowledge.Query.{lexical_query, query_terms}
use customer_data_foundation.Knowledge.Terms.{IsSafe, lexical_query-IsSafe}
use customer_data_foundation.Knowledge.Store.{
  Float, Tables, Document, Services, vector_literal, storable, storable_metadata, deactivate,
  contains, latest_version,
}
use customer_data_foundation.Knowledge.Ingest.{
  Upload, DocumentRecord, ingest_document, find_content, place_document, store_version,
  next_version, next_documents, insert_chunks, insert_chunk, new_chunk, permit, grant_all,
  reader_hashes, safe_metadata,
}
use customer_data_foundation.Knowledge.Validity.{IsValid, ingest_document-IsValid}
use customer_data_foundation.Knowledge.Ingested.{
  IsPublished, IsReused, HasContent, ingest_document-IsPublished, ingest_document-IsGranted,
  ingest_document-reused,
}
use customer_data_foundation.Knowledge.Readers.{IsGranted}
use customer_data_foundation.Knowledge.Retrieval.{
  Search, Question, hybrid, RetrievalHit, retrieve_chunks, lexical_rows, semantic_rows, base_select,
  readable, fuse, add_lexical, add_semantic, set_default, sort_by,
}
use customer_data_foundation.Knowledge.Authorized.{IsAuthorized, retrieve_chunks-IsAuthorized}

-- equal floats, as many as a vector has
abbrev pub floats : ℕ → List Float
floats zero = []
floats (suc n) = 1 ∷ floats n

abbrev pub vectors : List Text → List (List Float)
vectors [] = []
vectors (t ∷ ts) = floats 256 ∷ vectors ts

abbrev pub services : Services
services = record {
  unicode = small_unicode;
  is_finite = λ x. true;
  ten_decimals = λ x. x;
  provider = record { name = codes "local"; model = codes "m"; embed = λ ts. ok (vectors ts) };
  principal = λ subject. if str_eq subject "ana" then 1 else 2;
  sha256 = length;
}

abbrev pub empty_tables : Tables
empty_tables = record { documents = []; permissions = []; chunks = [] }

abbrev pub upload : Uuid → Text → Upload
upload id content = record {
  now = 1000;
  document_id = id;
  chunk_id = λ index. id * 100 + index;
  actor_subject = "ana";
  reader_subjects = "luis" ∷ [];
  source_uri = codes "kb:a";
  title = codes "A";
  content = content;
  metadata = [];
}

-- the second version of a source takes the place of the first
abbrev old_version : Document
old_version = record {
  document_id = 6;
  source_uri = codes "kb:a";
  title = codes "A";
  version = 1;
  content_sha256 = 3;
  created_by_hash = 1;
  metadata = [];
  active = true;
  created_at = 900;
}

abbrev pub one_document : Tables
one_document = record { documents = old_version ∷ []; permissions = []; chunks = [] }

abbrev pub made : Result (DocumentRecord × Tables) → DocumentRecord × Tables
made (ok x) = x
made (err e) = (
  record {
    document_id = 0;
    source_uri = [];
    title = [];
    version = 0;
    chunk_count = 0;
    permission_count = 0;
    embedding_provider = [];
    embedding_model = [];
    reused = false;
  },
  empty_tables,
)

not_blank : is_empty (normalize_content small_unicode (codes "Cards.  Fees.")) ≡ false
unfolding normalize_content strip
not_blank = refl

short : length (normalize_content small_unicode (codes "Cards.  Fees.")) ≤ max_document_characters
unfolding normalize_content strip
short = omega arith

chunk_text-Covers_example :
    (ws : List Window) × (chunk_text small_unicode (codes "Cards.  Fees.")
      ≡ ok (chunks_of small_unicode (normalize_content small_unicode (codes "Cards.  Fees.")) ws))
    × Covers 0 (length (normalize_content small_unicode (codes "Cards.  Fees."))) ws
    × All
        (IsChunk small_unicode)
        (chunks_of small_unicode (normalize_content small_unicode (codes "Cards.  Fees.")) ws)
chunk_text-Covers_example = chunk_text-Covers small_unicode (codes "Cards.  Fees.") not_blank short

lexical_query-IsSafe_example :
    IsSafe small_unicode (lexical_query small_unicode (codes "What IS a refund & a card?"))
lexical_query-IsSafe_example =
    lexical_query-IsSafe small_unicode (codes "What IS a refund & a card?")

refund_query :
    lexical_query small_unicode (codes "What IS a refund & a card?") ≡ codes "refund | card"
unfolding lexical_query
refund_query = refl

abbrev second : Result (DocumentRecord × Tables)
second = ingest_document services current_schema (upload 7 (codes "Cards.")) one_document

second_done : second ≡ ok ((made second).0, (made second).1)
unfolding ingest_document chunk_text vector_literal storable storable_metadata
    require_current_schema find_content place_document store_version insert_chunks insert_chunk
    new_chunk safe_metadata next_version latest_version normalize_content strip chunk_loop
    windows_from chunk_end chunks_of
second_done = refl

same_row : (d e : Document) → In d one_document.documents → In e one_document.documents → d ≡ e
same_row d e (inl x) (inl y) = x ∙ sym y
same_row d e (inl x) (inr n) = absurd n
same_row d e (inr m) n = absurd m

pub one_document-IsValid : IsValid one_document
one_document-IsValid = record {
  versions = record {
    document_key = (tt, tt);
    one_version = λ d e m n same h. ap (λ (x : Document). x.document_id) (same_row d e m n);
    active_is_latest =
        λ d e m n same h. omega (arith, ap (λ (x : Document). x.version) (same_row d e m n));
  };
  chunk_key = tt;
  permission_key = tt;
  chunk_documents = λ c m. absurd m;
  permission_documents = λ p m. absurd m;
}

ingest_document-IsValid_example : IsValid (made second).1
ingest_document-IsValid_example =
    ingest_document-IsValid services current_schema (upload 7 (codes "Cards.")) one_document
      one_document-IsValid second_done

not_found : find_content services (upload 7 (codes "Cards.")) one_document.documents ≡ none
unfolding find_content
not_found = refl

ingest_document-IsPublished_example :
    ((made second).0.reused ≡ false)
    × IsPublished services (upload 7 (codes "Cards.")) one_document (made second).0 (made second).1
ingest_document-IsPublished_example =
    ingest_document-IsPublished services (upload 7 (codes "Cards.")) current_schema one_document
      not_found second_done

ingest_document-IsGranted_example :
    IsGranted 1000
      (made second).0.document_id
      1
      (reader_hashes services (upload 7 (codes "Cards.")))
      one_document.permissions
      (made second).1.permissions
ingest_document-IsGranted_example =
    ingest_document-IsGranted services (upload 7 (codes "Cards.")) current_schema one_document
      second_done

-- the content of an inactive version comes again
abbrev inactive_document : Tables
inactive_document = record one_document { documents = deactivate old_version ∷ [] }

abbrev third : Result (DocumentRecord × Tables)
third = ingest_document services current_schema (upload 8 (codes "Old")) inactive_document

third_done : third ≡ ok ((made third).0, (made third).1)
unfolding ingest_document chunk_text vector_literal storable require_current_schema find_content
    place_document normalize_content strip chunk_loop windows_from chunk_end chunks_of
third_done = refl

ingest_document-reused_example :
    IsReused services (upload 8 (codes "Old")) inactive_document (made third).0 (made third).1
    ⊎ (All
          (λ (d : Document). HasContent services (upload 8 (codes "Old")) d → ⊥)
          inactive_document.documents
        × ((made third).0.reused ≡ false)
        × IsPublished services
            (upload 8 (codes "Old"))
            inactive_document
            (made third).0
            (made third).1)
ingest_document-reused_example =
    ingest_document-reused services (upload 8 (codes "Old")) current_schema inactive_document
      third_done

-- a search in which every content matches
abbrev pub search : Search
search = record {
  matches = λ content query. true;
  ts_rank_cd = λ content query. 1;
  distance = λ v w. 1;
  one_minus = λ x. 1 - x;
  column_less = ltb;
  less = ltb;
  add = λ x y. x + y;
  half_over = λ rank. 100 - rank;
  zero_score = 0;
}

abbrev pub published : Tables
published = (made second).1

abbrev ask : Question
ask = record {
  actor_subject = "luis";
  query = codes "Cards?";
  mode = hybrid;
  limit = 5;
  metadata_filter = [];
}

abbrev hits_of : Result (List RetrievalHit) → List RetrievalHit
hits_of (ok hits) = hits
hits_of (err e) = []

abbrev answer : Result (List RetrievalHit)
answer = retrieve_chunks services search current_schema ask published

answered : answer ≡ ok (hits_of answer)
unfolding retrieve_chunks lexical_rows semantic_rows vector_literal require_current_schema
    storable_metadata lexical_query strip query_terms
answered = refl

one_hit : length (hits_of answer) ≡ 1
unfolding retrieve_chunks lexical_rows semantic_rows vector_literal require_current_schema
    storable_metadata lexical_query strip ingest_document chunk_text storable find_content
    place_document store_version insert_chunks insert_chunk new_chunk safe_metadata next_version
    latest_version normalize_content chunk_loop windows_from chunk_end chunks_of base_select
    readable permit grant_all reader_hashes next_documents fuse update add_lexical add_semantic
    set_default sort_by contains
one_hit = refl

retrieve_chunks-IsAuthorized_example :
    (length (hits_of answer) ≤ 5) × All (IsAuthorized published 2 []) (hits_of answer)
retrieve_chunks-IsAuthorized_example =
    retrieve_chunks-IsAuthorized services search current_schema ask published answered
