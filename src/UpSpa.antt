-- ===== src/UpSpa.antt =====
-- crates/upspa: the UpSPA protocol, whose writes reach every provider in coordinated terminal steps.
pub mod Messages
pub mod Clock
pub mod TwoPhase
pub mod LoginServer
pub mod Provider
pub mod System
