-- ===== src/Programs.antt =====
-- The programs under examples that use the crate.
pub mod Routes
pub mod Capture
pub mod Closing
pub mod Echo
pub mod Server
pub mod Basic
pub mod Configured
pub mod Tunnel
pub mod Async
pub mod Readers
pub mod Finding
pub mod Stopping
pub mod Tasks
