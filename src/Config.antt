-- ===== src/Config.antt =====
-- `MulticastConfig` of src/config.rs.
use oxide_cast.Prelude.{ℕ, Bool}
use oxide_cast.Net.{IpAddr, Ipv4Addr}

pub record MulticastConfig : Type 0 where
  pub interface : IpAddr
  pub base_address : Ipv4Addr
  pub port_range : ℕ × ℕ
  pub ttl : ℕ
  pub buffer_size : ℕ
  pub packet_size : ℕ
  -- in seconds
  pub group_timeout : ℕ
  pub enable_igmp : Bool
