-- ===== src/UpSpa/Provider.antt =====
-- crates/upspa/src/protocols/provider.rs: a storage provider and its handlers. A handler gives its
-- answer and the provider that it leaves.
pub mod Disposition
pub mod Records
pub mod Accounts
pub mod Passwords
pub mod Calls
pub mod Contract
pub mod Validity
pub mod Updates
pub use Disposition.{WriteDisposition, accepted, idempotent}
unfoldable pub use Records.*
unfoldable pub use Accounts.*
unfoldable pub use Passwords.*
