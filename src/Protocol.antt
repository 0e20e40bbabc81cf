-- ===== src/Protocol.antt =====
-- crates/protocol: the parts of the wire protocol that carry logic of their own.
pub mod Endpoint
