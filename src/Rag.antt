-- ===== src/Rag.antt =====
-- rag.py and the migration 0006: answers from evidence, with a cache, limits, and a trace of each.
-- Every statement is a transaction of its own, so what a call has written stays when it fails later.
pub mod Steps
pub mod Records
pub mod Gates
pub mod Extractive
pub mod Cache
pub mod Answers
pub mod Cited
pub mod Outcome
pub mod Grounded
pub mod Answered
pub mod Limits
pub mod Extracts
pub mod Kept
pub mod Tests
