-- ===== src/Multicast.antt =====
-- The multicast layer, src/multicast.rs.
pub mod Allocator
pub mod Packet
pub mod Group
pub mod Manager
mod Tests
