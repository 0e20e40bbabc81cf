-- ===== src/Gateway.antt =====
-- crates/gateway-core: what the gateway does with a message, from the check of its signature to its
-- answer, and the sessions that it keeps.
pub mod Operation
pub mod Sessions
pub mod Environment
pub mod Phases
pub mod Opening
pub mod Intent
pub mod Frames
pub mod Dispatch
pub mod Guard
