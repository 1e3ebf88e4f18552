-- ===== src/Coordinator.antt =====
-- coordinator.py: the polling coordinator. Each child models a part of the class; the proofs stand
-- in the modules below them.
pub mod Report
pub mod State
pub mod Verified
pub mod Judge
pub mod Settle
pub mod Update
pub mod Isolated
pub mod Manual
pub mod Samples
mod Tests
