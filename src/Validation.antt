-- ===== src/Validation.antt =====
-- validation.py: strict validation of a customer CSV. The reading of the file, its decoding and
-- `csv.DictReader` are arguments: a file is what the program sees of it.
pub mod Patterns
pub mod Fields
pub mod Headers
pub mod Batch
pub mod Normalized
pub mod Clean
pub mod Invariant
pub mod Rows
pub mod Complete
pub mod Accepted
pub mod Tests
