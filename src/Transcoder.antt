-- ===== src/Transcoder.antt =====
-- src/transcoder.rs: the transcoding jobs and the tasks that run them.
pub mod Job
pub mod Manager
mod Tests
