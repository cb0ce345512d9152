-- ===== src/Knowledge/Ingest.antt =====
-- `ingest_document` of knowledge.py. The transaction is one step on the tables.
use customer_data_foundation.Prelude.{
  ℕ, ◌+◌, Bool, true, false, not, ◌&&◌, List, [], ◌∷◌, ◌++◌, map, Option, none, some, String,
  Result, ok, err, database_error, value_error, guard, ◌>>=◌, ◌>>◌, ◌==◌, leb, if◌then◌else◌,
  length, find, any_of, select,
}
use customer_data_foundation.Sql.{Uuid, Digest, Timestamp, update}
use customer_data_foundation.Database.{Schema, require_current_schema}
use customer_data_foundation.Text.{Text, codes}
use customer_data_foundation.Knowledge.Chunks.{chunk_text, token_estimate}
use customer_data_foundation.Knowledge.Query.{injection_search}
use customer_data_foundation.Knowledge.Store.{
  Float, string, boolean, number, Metadata, set_key, Document, Permission, Chunk, Tables, Services,
  vector_literal, storable, storable_metadata, of_source, latest_version, deactivate, grants,
}

pub record DocumentRecord : Type 0 where
  pub document_id : Uuid
  pub source_uri : Text
  pub title : Text
  pub version : ℕ
  pub chunk_count : ℕ
  pub permission_count : ℕ
  pub embedding_provider : Text
  pub embedding_model : Text
  pub reused : Bool

-- the arguments of a call, its time, and the identifiers that it draws: the document's, and one for
-- the chunk at each index
pub record Upload : Type 0 where
  pub now : Timestamp
  pub document_id : Uuid
  pub chunk_id : ℕ → Uuid
  pub actor_subject : String
  pub reader_subjects : List String
  pub source_uri : Text
  pub title : Text
  pub content : Text
  pub metadata : Metadata

-- INSERT ... ON CONFLICT (document_id, principal_hash) DO NOTHING, for each reader
unfoldable pub grant_all :
    Timestamp → Uuid → Digest → List Digest → List Permission → List Permission
grant_all now document_id actor [] ps = ps
grant_all now document_id actor (r ∷ rs) ps = grant_all now document_id actor rs (
    if any_of (grants document_id r) ps
    then ps
    else ps
      ++ record {
        document_id = document_id;
        principal_hash = r;
        granted_by_hash = actor;
        granted_at = now;
      }
        ∷ [])

-- the document of a transaction, its version, the documents and chunks, and whether it was there
pub record Placed : Type 0 where
  pub document_id : Uuid
  pub version : ℕ
  pub documents : List Document
  pub chunks : List Chunk
  pub reused : Bool

abbrev pub same_content : Digest → Text → Digest → Document → Bool
same_content actor source_uri sha d = of_source actor source_uri d && d.content_sha256 == sha

abbrev pub active_of : Digest → Text → Document → Bool
active_of actor source_uri d = of_source actor source_uri d && d.active

module _ (s : Services) where
  unfoldable pub safe_metadata : Upload → Metadata
  unfolding set_key injection_search
  safe_metadata up = set_key (codes "embedding_model") (string s.provider.model) (
      set_key (codes "embedding_provider") (string s.provider.name) (
        set_key (codes "untrusted_instruction_detected")
          (boolean (injection_search s.unicode up.content)) up.metadata))

  unfoldable pub new_chunk : Upload → ℕ → ℕ → Text → List Float → Chunk
  unfolding injection_search token_estimate
  new_chunk up version index chunk embedding = record {
    chunk_id = up.chunk_id index;
    document_id = up.document_id;
    chunk_index = index;
    content = chunk;
    content_sha256 = s.sha256 chunk;
    token_estimate = token_estimate chunk;
    metadata =
        (codes "document_version", number version)
        ∷ (codes "untrusted_instruction_detected", boolean (injection_search s.unicode chunk))
        ∷ [];
    embedding = embedding;
    created_at = up.now;
  }

  -- INSERT INTO knowledge_chunks, with its keys and the CHECK on the content
  unfoldable pub insert_chunk : Chunk → List Chunk → Result (List Chunk)
  unfolding storable
  insert_chunk c rows = do
    guard (storable c.content) database_error
    guard (leb 1 (length c.content) && leb (length c.content) 4000) database_error
    guard (not (any_of (λ (r : Chunk). r.chunk_id == c.chunk_id) rows)) database_error
    guard
        (not (
          any_of (λ (r : Chunk). r.document_id == c.document_id && r.chunk_index == c.chunk_index)
            rows))
        database_error
    ok (rows ++ c ∷ [])

  -- `for index, (chunk, vector) in enumerate(zip(chunks, vectors, strict=True))`
  unfoldable pub insert_chunks :
      Upload → ℕ → ℕ → List Text → List (List Float) → List Chunk → Result (List Chunk)
  unfolding new_chunk insert_chunk vector_literal
  insert_chunks up version index [] [] rows = ok rows
  insert_chunks up version index [] (v ∷ vs) rows = err value_error
  insert_chunks up version index (c ∷ cs) [] rows = err value_error
  insert_chunks up version index (c ∷ cs) (v ∷ vs) rows = do
    embedding ← vector_literal s v
    rows' ← insert_chunk (new_chunk up version index c embedding) rows
    insert_chunks up version (index + 1) cs vs rows'

  unfoldable pub new_document : Upload → ℕ → Document
  unfolding safe_metadata
  new_document up version = record {
    document_id = up.document_id;
    source_uri = up.source_uri;
    title = up.title;
    version = version;
    content_sha256 = s.sha256 up.content;
    created_by_hash = s.principal up.actor_subject;
    metadata = safe_metadata up;
    active = true;
    created_at = up.now;
  }

  -- the next version of a source becomes the active one
  unfoldable pub next_documents : Upload → ℕ → List Document → List Document
  unfolding new_document
  next_documents up version documents =
      update (active_of (s.principal up.actor_subject) up.source_uri) deactivate documents
      ++ new_document up version ∷ []

  unfoldable pub next_version : Upload → List Document → ℕ
  unfolding latest_version
  next_version up documents =
      latest_version (select (of_source (s.principal up.actor_subject) up.source_uri) documents) + 1

  unfoldable pub store_version : Upload → List Text → List (List Float) → Tables → Result Placed
  unfolding next_documents next_version insert_chunks storable_metadata
  store_version up chunks vectors t = do
    guard (storable up.title && storable_metadata (safe_metadata up)) database_error
    guard (not (any_of (λ (d : Document). d.document_id == up.document_id) t.documents))
        database_error
    rows ← insert_chunks up (next_version up t.documents) 0 chunks vectors t.chunks
    ok (record {
      document_id = up.document_id;
      version = next_version up t.documents;
      documents = next_documents up (next_version up t.documents) t.documents;
      chunks = rows;
      reused = false;
    })

  -- the document that has the content already, or a new version
  unfoldable pub place_document :
      Upload → List Text → List (List Float) → Tables → Option Document → Result Placed
  unfolding store_version
  place_document up chunks vectors t (some d) = ok (record {
    document_id = d.document_id;
    version = d.version;
    documents = t.documents;
    chunks = t.chunks;
    reused = true;
  })
  place_document up chunks vectors t none = store_version up chunks vectors t

  -- who is to read the document: the actor, and the readers
  unfoldable pub reader_hashes : Upload → List Digest
  reader_hashes up = map s.principal (up.actor_subject ∷ up.reader_subjects)

  -- the permissions, and the record that goes back
  unfoldable pub permit : Upload → List Text → Tables → Placed → DocumentRecord × Tables
  unfolding grant_all reader_hashes
  permit up chunks t p =
      let permissions =
        grant_all up.now p.document_id (s.principal up.actor_subject) (reader_hashes up)
          t.permissions in
      (
        record {
          document_id = p.document_id;
          source_uri = up.source_uri;
          title = up.title;
          version = p.version;
          chunk_count = length chunks;
          permission_count =
              length (select (λ (q : Permission). q.document_id == p.document_id) permissions);
          embedding_provider = s.provider.name;
          embedding_model = s.provider.model;
          reused = p.reused;
        },
        record { documents = p.documents; permissions = permissions; chunks = p.chunks },
      )

  unfoldable pub find_content : Upload → List Document → Option Document
  find_content up documents =
      find (same_content (s.principal up.actor_subject) up.source_uri (s.sha256 up.content))
        documents

  unfoldable pub ingest_document : Schema → Upload → Tables → Result (DocumentRecord × Tables)
  unfolding place_document permit find_content
  ingest_document schema up t = do
    chunks ← chunk_text s.unicode up.content
    vectors ← s.provider.embed chunks
    require_current_schema schema
    guard (storable up.source_uri) database_error
    placed ← place_document up chunks vectors t (find_content up t.documents)
    ok (permit up chunks t placed)
