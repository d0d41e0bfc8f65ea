-- ===== src/Hls.antt =====
-- src/hls_server.rs: the HLS streams, their segments and their playlists.
pub mod Stream
pub mod Writer
pub mod Server
mod Tests
