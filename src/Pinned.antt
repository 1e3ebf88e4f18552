-- ===== src/Pinned.antt =====
-- The exchanges that are pinned to one adapter (local_bleak.py) or to one ESPHome proxy
-- (proxy_trace.py).
pub mod Routes
pub mod Local
pub mod Proxy
pub mod Trace
mod Tests
