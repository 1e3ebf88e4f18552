-- ===== src/Transport.antt =====
-- The transports: what one exchange with the robot over Bluetooth is.
pub mod Watch
pub mod Inbox
pub mod Routes
pub mod Session
pub mod Exchange
pub mod Release
pub mod Bluetooth
pub mod Samples
mod Tests
