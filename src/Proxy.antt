-- ===== src/Proxy.antt =====
-- proxy_trace.py: the log of an ESPHome proxy around one query, and the route that is pinned to it.
pub mod Pattern
pub mod Header
pub mod Events
pub mod Lines
pub mod Capture
mod Tests
