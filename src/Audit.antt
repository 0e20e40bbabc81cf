-- ===== src/Audit.antt =====
-- crates/audit: the hash chain of audit records, its writer and its verifier.
pub mod Hex
pub mod Chain
