-- ===== src/Rtmp.antt =====
-- The RTMP ingest, src/rtmp_server.rs.
pub mod Message
pub mod Codec
pub mod Amf
pub mod Server
pub mod Connection
mod Tests
