-- ===== src/WebRtc.antt =====
-- src/webrtc_server.rs: the streams, their peers and the packets that they are sent.
pub mod Stream
pub mod Server
pub mod Peers
mod Tests
