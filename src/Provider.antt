-- ===== src/Provider.antt =====
-- crates/upspa-quorum/src/protocols/provider.rs: a storage provider and its handlers. A handler that
-- writes gives back the changed provider; on an error the provider is as it was.
pub mod Records
pub mod Reads
pub mod Writes
pub mod History
pub mod Retransmission
pub mod Counters
pub mod Validity
unfoldable pub use Records.*
unfoldable pub use Reads.*
unfoldable pub use Writes.*
