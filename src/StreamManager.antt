-- ===== src/StreamManager.antt =====
-- src/stream_manager.rs: the streams that are on air, over the database and the four components that
-- the manager drives.
pub mod State
pub mod Streams
pub mod Stop
pub mod Media
pub mod Viewers
pub mod Info
pub mod Tables
pub mod Counted
pub mod Samples
mod Tests
