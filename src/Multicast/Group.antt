-- ===== src/Multicast/Group.antt =====
-- `MulticastGroup` and `ViewerInfo` of src/multicast.rs, and what the manager's operations do to the
-- group that they have looked up. Times are in nanoseconds.
use oxide_cast.Prelude.{
  ℕ, ◌+◌, ◌-◌, ◌*◌, ◌%◌, ◌^◌, Bool, true, false, not, ◌&&◌, List, [], ◌∷◌, String, length, ltb,
}
use oxide_cast.HashMap.{HashMap, insert, remove, modify, retain}
use oxide_cast.Net.{Ipv4Addr, SocketAddr, socket_addr_eq}
use oxide_cast.Multicast.Packet.{MulticastPacket}

pub record ViewerInfo : Type 0 where
  pub id : ℕ
  pub joined_at : ℕ
  pub last_seen : ℕ
  pub packets_received : ℕ
  pub quality_profile : String

pub record MulticastGroup : Type 0 where
  pub id : ℕ
  pub stream_key : String
  pub multicast_address : Ipv4Addr
  pub port : ℕ
  pub created_at : ℕ
  pub last_activity : ℕ
  pub viewer_count : ℕ
  pub packet_count : ℕ
  pub bytes_sent : ℕ
  pub viewers : HashMap SocketAddr ViewerInfo

abbrev pub nanos : ℕ → ℕ
nanos seconds = seconds * 1_000_000_000

-- A u64 counter wraps, as in a release build.
abbrev pub add_u64 : ℕ → ℕ → ℕ
add_u64 a b = (a + b) % 2 ^ 64

abbrev pub new_group : ℕ → ℕ → String → Ipv4Addr → ℕ → MulticastGroup
new_group id now stream_key address port = record {
  id = id;
  stream_key = stream_key;
  multicast_address = address;
  port = port;
  created_at = now;
  last_activity = now;
  viewer_count = 0;
  packet_count = 0;
  bytes_sent = 0;
  viewers = [];
}

abbrev pub count_packet : ℕ → MulticastPacket → MulticastGroup → MulticastGroup
count_packet now packet g = record g {
  last_activity = now;
  packet_count = add_u64 g.packet_count 1;
  bytes_sent = add_u64 g.bytes_sent (length packet.payload);
}

abbrev pub join : SocketAddr → ViewerInfo → MulticastGroup → MulticastGroup
join addr info g =
    let viewers = insert addr info g.viewers in
    record g { viewers = viewers; viewer_count = length viewers }

abbrev pub leave : SocketAddr → MulticastGroup → MulticastGroup
leave addr g =
    let viewers = remove addr g.viewers in
    record g { viewers = viewers; viewer_count = length viewers }

abbrev pub see : ℕ → ViewerInfo → ViewerInfo
see now v = record v { last_seen = now; packets_received = add_u64 v.packets_received 1 }

-- `update_viewer_last_seen` within its group.
abbrev pub see_viewer : ℕ → SocketAddr → MulticastGroup → MulticastGroup
see_viewer now addr g = record g { viewers = modify addr (see now) g.viewers }

-- `now.duration_since(t) > timeout_duration`; the difference saturates at zero.
abbrev pub is_stale : ℕ → ℕ → ℕ → Bool
is_stale now timeout t = ltb (nanos timeout) (now - t)

abbrev pub is_present : ℕ → ℕ → ViewerInfo → Bool
is_present now timeout v = not (is_stale now timeout v.last_seen)

abbrev pub prune : ℕ → ℕ → MulticastGroup → MulticastGroup
prune now timeout g =
    let viewers = retain (is_present now timeout) g.viewers in
    record g { viewers = viewers; viewer_count = length viewers }

abbrev pub is_empty {ℓ} : {A : Type ℓ} → List A → Bool
is_empty [] = true
is_empty (x ∷ xs) = false

abbrev pub is_kept : ℕ → ℕ → MulticastGroup → Bool
is_kept now timeout g = not (is_empty g.viewers && is_stale now timeout g.last_activity)
