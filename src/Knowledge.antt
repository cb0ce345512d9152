-- ===== src/Knowledge.antt =====
-- knowledge.py and the migration 0005: versioned documents, their chunks and who may read them. The
-- embeddings and PostgreSQL's text search are arguments.
pub mod Chunks
pub mod Windows
pub mod Query
pub mod Terms
pub mod Store
pub mod Ingest
pub mod Versions
pub mod Readers
pub mod ChunkRows
pub mod Validity
pub mod Ingested
pub mod Retrieval
pub mod Authorized
pub mod Tests
