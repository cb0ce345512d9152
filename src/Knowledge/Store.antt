-- ===== src/Knowledge/Store.antt =====
-- The migration 0005 and the parts of embeddings.py and knowledge.py that its tables hold: documents
-- in versions, who may read them, and their chunks. A `source_uri` and a `title` fit their columns,
-- as the model of the request demands.
use customer_data_foundation.Prelude.{
  ℕ, max, Bool, true, false, not, ◌&&◌, List, [], ◌∷◌, map, String, Result, ok,
  embedding_provider_error, guard, ◌>>◌, ◌==◌, if◌then◌else◌, length, all_of, any_of,
}
use customer_data_foundation.Sql.{Uuid, Digest, Timestamp}
use customer_data_foundation.Text.{Text, Unicode, text_eq}

-- a number of type `float`, by its code
abbrev pub Float : Type 0
Float = ℕ

-- the values of the metadata: the request's are strings, and the program adds the others
pub data Json : Type 0 where
  string : Text → Json
  boolean : Bool → Json
  number : ℕ → Json

-- a `dict`, and the jsonb object of it: no key stands twice
abbrev pub Metadata : Type 0
Metadata = List (Text × Json)

-- `metadata[key] = value`
unfoldable pub set_key : Text → Json → Metadata → Metadata
set_key key value [] = (key, value) ∷ []
set_key key value ((k, v) ∷ m) =
    if text_eq k key then (key, value) ∷ m else (k, v) ∷ set_key key value m

abbrev pub json_eq : Json → Json → Bool
json_eq (string a) (string b) = text_eq a b
json_eq (boolean true) (boolean b) = b
json_eq (boolean false) (boolean b) = not b
json_eq (number a) (number b) = a == b
json_eq _ _ = false

abbrev pub holds : Metadata → Text × Json → Bool
holds m (key, value) = any_of (λ (e : Text × Json). text_eq e.0 key && json_eq e.1 value) m

-- metadata @> filter
unfoldable pub contains : Metadata → Metadata → Bool
contains m filter = all_of (holds m) filter

-- a row of knowledge_documents
pub record Document : Type 0 where
  pub document_id : Uuid
  pub source_uri : Text
  pub title : Text
  pub version : ℕ
  pub content_sha256 : Digest
  pub created_by_hash : Digest
  pub metadata : Metadata
  pub active : Bool
  pub created_at : Timestamp

-- a row of knowledge_document_permissions
pub record Permission : Type 0 where
  pub document_id : Uuid
  pub principal_hash : Digest
  pub granted_by_hash : Digest
  pub granted_at : Timestamp

-- a row of knowledge_chunks; the search vector is a function of the content
pub record Chunk : Type 0 where
  pub chunk_id : Uuid
  pub document_id : Uuid
  pub chunk_index : ℕ
  pub content : Text
  pub content_sha256 : Digest
  pub token_estimate : ℕ
  pub metadata : Metadata
  pub embedding : List Float
  pub created_at : Timestamp

pub record Tables : Type 0 where
  pub documents : List Document
  pub permissions : List Permission
  pub chunks : List Chunk

-- the protocol EmbeddingProvider
pub record EmbeddingProvider : Type 0 where
  pub name : Text
  pub model : Text
  pub embed : List Text → Result (List (List Float))

-- What the operations on knowledge use: the character database, `math.isfinite`, the number that a
-- column keeps of a vector's element with ten decimals, the provider of embeddings,
-- `protected_hash(key, "knowledge-principal", subject)`, and SHA-256.
pub record Services : Type 0 where
  pub unicode : Unicode
  pub is_finite : Float → Bool
  pub ten_decimals : Float → Float
  pub provider : EmbeddingProvider
  pub principal : String → Digest
  pub sha256 : Text → Digest

abbrev pub embedding_dimensions : ℕ
embedding_dimensions = 256

-- the vector that the column keeps of the literal
unfoldable pub vector_literal : Services → List Float → Result (List Float)
vector_literal s vector = do
  guard (length vector == embedding_dimensions && all_of s.is_finite vector)
      embedding_provider_error
  ok (map s.ten_decimals vector)

-- PostgreSQL's text takes no character 0
unfoldable pub storable : Text → Bool
storable t = all_of (λ (c : ℕ). not (c == 0)) t

abbrev pub storable_entry : Text × Json → Bool
storable_entry (key, string value) = storable key && storable value
storable_entry (key, value) = storable key

unfoldable pub storable_metadata : Metadata → Bool
storable_metadata m = all_of storable_entry m

-- WHERE created_by_hash = ... AND source_uri = ...
abbrev pub of_source : Digest → Text → Document → Bool
of_source actor source_uri d = d.created_by_hash == actor && text_eq d.source_uri source_uri

-- coalesce(max(version), 0)
unfoldable pub latest_version : List Document → ℕ
latest_version [] = 0
latest_version (d ∷ ds) = max d.version (latest_version ds)

abbrev pub deactivate : Document → Document
deactivate d = record d { active = false }

abbrev pub grants : Uuid → Digest → Permission → Bool
grants document_id reader p = p.document_id == document_id && p.principal_hash == reader
