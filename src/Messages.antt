-- ===== src/Messages.antt =====
-- The messages crate, rust/src/lib.rs: what is hashed, signed and compared when an app and an Orb
-- pair, and the relay messages of proto/relay.proto.
pub mod Blake3
pub mod AppData
pub mod OrbData
pub mod Announce
