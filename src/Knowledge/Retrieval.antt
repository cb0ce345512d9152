-- ===== src/Knowledge/Retrieval.antt =====
-- `retrieve_chunks` of knowledge.py: the chunks that a principal may read, by words, by vectors, or by
-- both. The keys of the tables leave a chunk at most one row of the join. An identifier is compared
-- by its number, which is the order of `uuid` and of its text.
use customer_data_foundation.Prelude.{
  ℕ, suc, max, Bool, true, false, not, ◌&&◌, List, [], ◌∷◌, ◌++◌, map, Option, none, some, String,
  Result, ok, err, database_error, value_error, index_error, guard, ◌>>=◌, ◌>>◌, ◌==◌, ltb, leb,
  if◌then◌else◌, find, any_of, select, take,
}
use customer_data_foundation.Sql.{Uuid, Digest, update}
use customer_data_foundation.Database.{Schema, require_current_schema}
use customer_data_foundation.Text.{Text, is_empty, strip}
use customer_data_foundation.Knowledge.Query.{lexical_query}
use customer_data_foundation.Knowledge.Store.{
  Float, Metadata, contains, Document, Chunk, Tables, Services, vector_literal, storable_metadata,
  grants,
}

pub data Mode : Type 0 where
  lexical semantic hybrid : Mode

-- What PostgreSQL computes of a content and a query, and of two vectors, and its order of numbers;
-- and the arithmetic and the order of Python's `float`. `half_over rank` is 0.5 / (60 + rank).
pub record Search : Type 0 where
  pub matches : Text → Text → Bool
  pub ts_rank_cd : Text → Text → Float
  pub distance : List Float → List Float → Float
  pub one_minus : Float → Float
  pub column_less : Float → Float → Bool
  pub less : Float → Float → Bool
  pub add : Float → Float → Float
  pub half_over : ℕ → Float
  pub zero_score : Float

-- a row of the join
pub record Row : Type 0 where
  pub chunk : Chunk
  pub document : Document

pub record RetrievalHit : Type 0 where
  pub chunk_id : Uuid
  pub document_id : Uuid
  pub source_uri : Text
  pub title : Text
  pub chunk_index : ℕ
  pub content : Text
  pub metadata : Metadata
  pub score : Float
  pub lexical_rank : Option ℕ
  pub semantic_rank : Option ℕ
  pub lexical_score : Option Float
  pub semantic_similarity : Option Float

-- an entry of `combined`
pub record Combined : Type 0 where
  pub row : Row
  pub lexical_rank : Option ℕ
  pub semantic_rank : Option ℕ
  pub lexical_score : Option Float
  pub semantic_similarity : Option Float

-- a stable sort: an element goes before the first that is not less
unfoldable pub insert_by : {A : Type 0} → (A → A → Bool) → A → List A → List A
insert_by before x [] = x ∷ []
insert_by before x (y ∷ ys) =
    let rest = insert_by before x ys in if before y x then y ∷ rest else x ∷ y ∷ ys

unfoldable pub sort_by : {A : Type 0} → (A → A → Bool) → List A → List A
unfolding insert_by
sort_by before [] = []
sort_by before (x ∷ xs) = insert_by before x (sort_by before xs)

-- the order by a first number, and then by the identifier
abbrev pub by_key : (Float → Float → Bool) → Float → Float → Uuid → Uuid → Bool
by_key less a b c d = if less a b then true else if less b a then false else ltb c d

abbrev pub row_of : Chunk → Option Document → List Row
row_of c none = []
row_of c (some d) = record { chunk = c; document = d } ∷ []

-- the document of a chunk, if the principal may read it and it has the metadata
unfoldable pub readable : Tables → Digest → Metadata → Document → Bool
unfolding contains
readable t actor filter d =
    d.active && any_of (grants d.document_id actor) t.permissions && contains d.metadata filter

abbrev pub joins : Tables → Digest → Metadata → Chunk → Document → Bool
joins t actor filter c d = d.document_id == c.document_id && readable t actor filter d

-- `base_select`
unfoldable pub base_select : Tables → Digest → Metadata → List Chunk → List Row
unfolding readable
base_select t actor filter [] = []
base_select t actor filter (c ∷ cs) =
    row_of c (find (joins t actor filter c) t.documents) ++ base_select t actor filter cs

abbrev pub is_lexical : Mode → Bool
is_lexical semantic = false
is_lexical _ = true

abbrev pub is_semantic : Mode → Bool
is_semantic lexical = false
is_semantic _ = true

module _ (q : Search) where
  unfoldable pub lexical_before : Text → Row → Row → Bool
  lexical_before query r s =
      by_key q.column_less (q.ts_rank_cd s.chunk.content query) (q.ts_rank_cd r.chunk.content query)
        r.chunk.chunk_id s.chunk.chunk_id

  unfoldable pub semantic_before : List Float → Row → Row → Bool
  semantic_before vector r s =
      by_key q.column_less (q.distance r.chunk.embedding vector)
        (q.distance s.chunk.embedding vector) r.chunk.chunk_id s.chunk.chunk_id

  unfoldable pub lexical_rows : Mode → Text → Metadata → ℕ → List Row → Result (List Row)
  unfolding lexical_before sort_by
  lexical_rows mode query filter limit rows =
      if is_lexical mode && not (is_empty query)
      then (do
        guard (storable_metadata filter) database_error
        ok (
            take (max limit 20) (
              sort_by (lexical_before query)
                (select (λ (r : Row). q.matches r.chunk.content query) rows))))
      else ok []

  unfoldable pub semantic_rows : Mode → List Float → Metadata → ℕ → List Row → Result (List Row)
  unfolding semantic_before sort_by
  semantic_rows mode vector filter limit rows =
      if is_semantic mode
      then (do
        guard (storable_metadata filter) database_error
        ok (take (max limit 20) (sort_by (semantic_before vector) rows)))
      else ok []

  abbrev pub has_chunk : Uuid → Combined → Bool
  has_chunk id e = e.row.chunk.chunk_id == id

  -- `combined.setdefault(row["chunk_id"], dict(row))`
  unfoldable pub set_default : Combined → List Combined → List Combined
  set_default e combined =
      if any_of (has_chunk e.row.chunk.chunk_id) combined then combined else combined ++ e ∷ []

  -- the loop over the lexical rows, from a rank on
  unfoldable pub add_lexical : Text → ℕ → List Row → List Combined → List Combined
  unfolding set_default
  add_lexical query rank [] combined = combined
  add_lexical query rank (r ∷ rs) combined = add_lexical query (suc rank) rs (
      update (has_chunk r.chunk.chunk_id) (λ (e : Combined). record e { lexical_rank = some rank })
        (set_default
          (record {
            row = r;
            lexical_rank = none;
            semantic_rank = none;
            lexical_score = some (q.ts_rank_cd r.chunk.content query);
            semantic_similarity = none;
          })
          combined))

  -- the loop over the semantic rows
  unfoldable pub add_semantic : List Float → ℕ → List Row → List Combined → List Combined
  unfolding set_default
  add_semantic vector rank [] combined = combined
  add_semantic vector rank (r ∷ rs) combined =
      let similarity = some (q.one_minus (q.distance r.chunk.embedding vector)) in
      add_semantic vector (suc rank) rs (
        update (has_chunk r.chunk.chunk_id)
          (λ (e : Combined). record e {
            semantic_rank = some rank;
            semantic_similarity = similarity;
          })
          (set_default
            (record {
              row = r;
              lexical_rank = none;
              semantic_rank = none;
              lexical_score = none;
              semantic_similarity = similarity;
            })
            combined))

  abbrev pub rank_score : Option ℕ → Float
  rank_score none = q.zero_score
  rank_score (some rank) = q.half_over rank

  unfoldable pub new_hit : Combined → RetrievalHit
  new_hit e = record {
    chunk_id = e.row.chunk.chunk_id;
    document_id = e.row.chunk.document_id;
    source_uri = e.row.document.source_uri;
    title = e.row.document.title;
    chunk_index = e.row.chunk.chunk_index;
    content = e.row.chunk.content;
    metadata = e.row.chunk.metadata;
    score = q.add (rank_score e.lexical_rank) (rank_score e.semantic_rank);
    lexical_rank = e.lexical_rank;
    semantic_rank = e.semantic_rank;
    lexical_score = e.lexical_score;
    semantic_similarity = e.semantic_similarity;
  }

  unfoldable pub hit_before : RetrievalHit → RetrievalHit → Bool
  hit_before a b = by_key q.less b.score a.score a.chunk_id b.chunk_id

  -- the hits of both lists of rows
  unfoldable pub fuse : Text → List Float → ℕ → List Row → List Row → List RetrievalHit
  unfolding add_lexical add_semantic new_hit hit_before sort_by
  fuse query vector limit lexicals semantics = take limit (
      sort_by hit_before
        (map new_hit (add_semantic vector 1 semantics (add_lexical query 1 lexicals []))))

abbrev pub first_vector : List (List Float) → Result (List Float)
first_vector [] = err index_error
first_vector (v ∷ vs) = ok v

-- the arguments of a call
pub record Question : Type 0 where
  pub actor_subject : String
  pub query : Text
  pub mode : Mode
  pub limit : ℕ
  pub metadata_filter : Metadata

module _ (s : Services) (q : Search) where
  unfoldable pub retrieve_chunks : Schema → Question → Tables → Result (List RetrievalHit)
  unfolding base_select lexical_rows semantic_rows fuse
  retrieve_chunks schema ask t = do
    guard (not (is_empty (strip s.unicode ask.query)) && leb 1 ask.limit && leb ask.limit 20)
        value_error
    vectors ← s.provider.embed (ask.query ∷ [])
    first ← first_vector vectors
    vector ← vector_literal s first
    require_current_schema schema
    let rows = base_select t (s.principal ask.actor_subject) ask.metadata_filter t.chunks
    let words = lexical_query s.unicode ask.query
    lexicals ← lexical_rows q ask.mode words ask.metadata_filter ask.limit rows
    semantics ← semantic_rows q ask.mode vector ask.metadata_filter ask.limit rows
    ok (fuse q words vector ask.limit lexicals semantics)
