-- ===== src/Identity.antt =====
-- crates/identity: who asked, and whether the message is new.
pub mod Enrollment
pub mod Replay
pub mod Attest
