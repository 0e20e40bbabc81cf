-- ===== src/Transport.antt =====
-- crates/transport: the frames of the local channel and the loop over the messages of a connection.
pub mod Codec
pub mod Message
pub mod Server
