-- ===== src/Lib.antt =====
-- Customer data foundation: the customer import, its notifications, its controlled actions, and its
-- answers from a store of documents.
--
-- The program takes a CSV of customers over HTTP or from the command line, validates it strictly,
-- imports it into PostgreSQL in one transaction, records each request as an idempotent operation, and
-- leaves an event in an outbox from which a worker notifies a partner. Beside that, operators request
-- actions that an auditor has to approve before they are executed. A store of documents in versions, with
-- permissions for readers, is cut in chunks and searched by words and by vectors; an assistant answers
-- questions from the chunks that the asking principal may read, and cites them. All parts meet in the
-- database: a function of a store opens one transaction, so it is a function from tables to tables or to
-- an error, and an error leaves the tables as they were. The assistant alone uses several transactions in
-- one call, so an error of it comes with the tables that it leaves.
--
-- Files, and what they model (paths from the root of the repository):
--   Prelude, Sql      shared names, lists, results and the UPDATE and keys of a table
--   Database          src/fde_foundation/database.py: require_current_schema
--   Outbox            src/fde_foundation/integration_store.py and migrations/versions/0004: the table
--                     as a list of rows, one function per transaction. Validity has the invariant,
--                     Claim and Order the choice of an event, Trace the interleavings, Fencing the
--                     leases and tokens, Retry the backoff
--   Worker            src/fde_foundation/integration_worker.py: one round; Rounds and Outcomes its
--                     effect
--   Actions           src/fde_foundation/actions.py and migrations/versions/0007; Audit has the
--                     invariant, Approval keeps it, Trace the sequences of calls, Replay repeated and
--                     refused calls; Planner is the local planner, Planned what it plans
--   Text              Python's str as a list of code points; Words is about split and join
--   Validation        src/fde_foundation/validation.py: Patterns, Fields, Headers and Batch are the
--                     code, Clean, Invariant, Rows, Complete, Accepted and Normalized the
--                     proofs
--   Importer          src/fde_foundation/importer.py and migrations/versions/0001; Atomic the proofs
--   Operations        src/fde_foundation/api_store.py and migrations/versions/0002 and 0003;
--                     Replay, Existing, Exclusive and Completion the proofs
--   Partner           src/fde_foundation/partner_api.py; Receipts and Signed the proofs
--   Knowledge         src/fde_foundation/knowledge.py, the vectors of embeddings.py and
--                     migrations/versions/0005: Chunks, Query, Store, Ingest and Retrieval are the
--                     code. Windows is about the chunking, Terms about lexical queries; Versions,
--                     Readers, ChunkRows and Validity keep the invariant of the tables, Ingested says
--                     what an ingestion achieves, Authorized who may see what a retrieval finds
--   Rag               src/fde_foundation/rag.py and migrations/versions/0006: Steps is a call of several
--                     transactions, Records the models, Gates the limits, Extractive the local
--                     generator, Cache the traces and the cache, Answers the orchestrator. Cited is
--                     about the count of citations, Outcome, Grounded and Answered about the results
--                     of a call, Limits, Kept and Extracts about the limit, the cache and the generator
--   Metrics           src/fde_foundation/operations.py; Alerts the proofs
--   Api               src/fde_foundation/auth.py and api.py: Uploads, Imports, ActionCalls, Providers
--                     and Assistants are the handlers, Access, Recovery, Stored, First,
--                     Separation and Assisted the proofs
-- Each Tests module applies the theorems of its part to small concrete data.
--
-- A function of the model has the name of the function of the source; helpers name the piece of it that
-- they are. Identifiers, digests and times are natural numbers, times in microseconds: what the program
-- draws or reads from a clock is an argument. The integer columns of PostgreSQL are not bounded here. A
-- statement sees one snapshot of its table; rows that others have locked are an argument of the
-- reservation that skips them, and what others do between two transactions is a function on the tables.
-- Only the loop of the chunking runs on fuel, one for each character and one more, which is enough since
-- every round moves the start; every other loop of the source is a recursion over a list.
--
-- Arguments stand for code that is not in the repository: the hashes, `jwt.decode`, `csv.DictReader`
-- and UTF-8, the Unicode character database, the function `lower` of PostgreSQL, its text search and
-- vector distance, the arithmetic of floats, `int` and the parse of JSON, what `urlopen` does, and the
-- remote providers of embeddings, answers and plans. A provider of embeddings may return anything; what
-- the program checks of it is in the model.
--
-- Not modelled: the hashing vectorizer and the remote providers, the query planner, settings, log
-- output, reports, evaluation, backup and release tooling, and the isolation of concurrent transactions:
-- imports of different files, two ingestions of one content at a time, and other calls between the
-- transactions of one answer. The transactions of an import and of an ingestion take PostgreSQL's unique
-- keys and constraints as tests at the insert. A connection that fails answers like a schema that is not
-- current, which the handlers treat alike.
pub mod Prelude
pub mod Sql
pub mod Database
pub mod Outbox
pub mod Worker
pub mod Actions
pub mod Text
pub mod Validation
pub mod Importer
pub mod Operations
pub mod Partner
pub mod Api
pub mod Knowledge
pub mod Rag
pub mod Metrics
