-- ===== src/Bluez.antt =====
-- The exchange over BlueZ of probe.py and telemetry.py, on the adapter that is pinned.
pub mod Objects
pub mod Guards
pub mod Permits
pub mod Faults
pub mod Probe
pub mod Query
pub mod Release
pub mod Exchange
pub mod Chain
pub mod Samples
mod Tests
