-- ===== src/Protocol.antt =====
-- protocol.py: the legacy codec. Each child models a part; the proofs stand in their children.
pub mod Crc
pub mod Codec
pub mod Query
pub mod Decoder
pub mod Scan
pub mod Reply
pub mod Telemetry
pub mod Hint
pub mod Evidence
pub mod Preview
mod Tests
