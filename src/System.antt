-- ===== src/System.antt =====
-- crates/upspa-quorum/src/protocols/roupspa.rs and synchronization.rs: the client, which drives the
-- providers and the login server through the phases of the protocol.
pub mod Types
pub mod Plaintext
pub mod Selection
pub mod Reads
pub mod AccountRead
pub mod Writes
pub mod Account
pub mod Password
pub mod Synchronization
pub mod Phases
pub mod Setup
unfoldable pub use Types.*
