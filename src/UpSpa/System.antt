-- ===== src/UpSpa/System.antt =====
-- crates/upspa/src/protocols/system.rs: the client with its providers and login server.
pub mod Types
pub mod Plaintext
pub mod Events
pub mod Setup
pub mod Identification
pub mod Finalization
pub mod Prepare
pub mod Entries
pub mod Accounts
pub mod Authentication
pub mod Passwords
pub mod Locking
