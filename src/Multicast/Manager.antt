-- ===== src/Multicast/Manager.antt =====
-- `MulticastManager` and `PacketSender` of src/multicast.rs: the groups, their viewers and their
-- sockets. An operation is a function of the state; the clock, the new ids and the network are
-- arguments. Times are in nanoseconds. The locks of the groups, the sockets and the allocator are
-- taken in turn: `send_packet` is also there in its two halves, between which others may come; the
-- other operations run as one step.
pub mod Events
pub mod Counts
pub mod Cleanup
pub mod Ownership
pub mod Lifecycle
pub mod History
pub mod Held
pub mod Leak
pub mod Race
use oxide_cast.Prelude.{
  ℕ, Bool, true, Option, none, some, List, [], String, Result, ok, err, ok_or, guard, ◌>>=◌, ◌>>◌,
}
use oxide_cast.HashMap.{string_eq, HashMap, get, insert, remove, modify, map_values, retain}
use oxide_cast.Net.{Ipv4Addr, ipv4_eq, IpAddr, v4, v6, SocketAddr, socket_addr, socket_addr_eq}
use oxide_cast.Multicast.Group.{
  MulticastGroup, new_group, count_packet, join, leave, see_viewer, prune, is_kept,
}
use oxide_cast.Config.{MulticastConfig}
use oxide_cast.Multicast.Allocator
use oxide_cast.Multicast.Allocator.{
  AddressAllocator, AllocError, allocate_address, deallocate_address,
}
use oxide_cast.Multicast.Packet.{MulticastPacket, packet_data}

pub data ManagerError : Type 0 where
  allocation : AllocError → ManagerError
  socket_failed group_not_found no_socket send_failed : ManagerError

-- What the manager calls of tokio and socket2; `false` and `none` stand for an error.
pub record UdpOps (Socket : Type 0) : Type 0 where
  pub bind : IpAddr → Option Socket
  pub set_multicast_ttl_v4 : Socket → ℕ → Bool
  pub set_multicast_if_v4 : Socket → Ipv4Addr → Bool
  pub set_broadcast : Socket → Bool
  pub set_send_buffer_size : Socket → ℕ → Bool
  pub join_multicast_v4 : Socket → Ipv4Addr → Ipv4Addr → Bool
  pub send_to : Socket → List ℕ → SocketAddr → Bool

-- The manager and its packet sender share `sockets`.
pub record MulticastManager (Socket : Type 0) : Type 0 where
  pub config : MulticastConfig
  pub groups : HashMap String MulticastGroup
  pub sockets : HashMap Ipv4Addr Socket
  pub address_allocator : AddressAllocator

-- `if let IpAddr::V4(interface) = self.config.interface { … }`.
abbrev pub on_v4 : IpAddr → (Ipv4Addr → Bool) → Bool
on_v4 (v4 interface) action = action interface
on_v4 (v6 _) action = true

module _ {Socket : Type 0} where
  unfoldable pub new : MulticastConfig → MulticastManager Socket
  new config = record {
    config = config;
    groups = [];
    sockets = [];
    address_allocator = Allocator.new config.base_address config.port_range;
  }

  unfoldable pub create_multicast_socket :
      UdpOps Socket → MulticastConfig → Ipv4Addr → Result ManagerError Socket
  create_multicast_socket net config address = do
    socket ← ok_or (net.bind config.interface) socket_failed
    guard (net.set_multicast_ttl_v4 socket config.ttl) socket_failed
    guard (on_v4 config.interface (net.set_multicast_if_v4 socket)) socket_failed
    guard (net.set_broadcast socket) socket_failed
    guard (net.set_send_buffer_size socket config.buffer_size) socket_failed
    guard (on_v4 config.interface (net.join_multicast_v4 socket address)) socket_failed
    ok socket

  abbrev pub open_group :
      ℕ
      → ℕ
      → String
      → Ipv4Addr × ℕ
      → Result ManagerError Socket
      → MulticastManager Socket
      → Result ManagerError (Ipv4Addr × ℕ) × MulticastManager Socket
  open_group id now stream_key _ (err e) m = (err e, m)
  open_group id now stream_key (address, port) (ok socket) m = (
    ok (address, port),
    record m {
      groups = insert stream_key (new_group id now stream_key address port) m.groups;
      sockets = insert address socket m.sockets;
    },
  )

  abbrev pub create_at :
      UdpOps Socket
      → ℕ
      → ℕ
      → String
      → Result AllocError (Ipv4Addr × ℕ)
      → MulticastManager Socket
      → Result ManagerError (Ipv4Addr × ℕ) × MulticastManager Socket
  create_at net id now stream_key (err e) m = (err (allocation e), m)
  create_at net id now stream_key (ok (address, port)) m =
      open_group id now stream_key (address, port) (create_multicast_socket net m.config address) m

  unfoldable pub create_group :
      UdpOps Socket
      → ℕ
      → ℕ
      → String
      → MulticastManager Socket
      → Result ManagerError (Ipv4Addr × ℕ) × MulticastManager Socket
  create_group net id now stream_key m =
      let (r, allocator) = allocate_address m.address_allocator in
      create_at net id now stream_key r (record m { address_allocator = allocator })

  -- It never fails: a missing group is `Ok(())` too.
  unfoldable pub remove_group : String → MulticastManager Socket → MulticastManager Socket
  remove_group stream_key m = elim (get stream_key m.groups) [
    | none ↦ m
    | some group ↦ record m {
      groups = remove stream_key m.groups;
      sockets = remove group.multicast_address m.sockets;
      address_allocator = deallocate_address group.multicast_address m.address_allocator;
    }
  ]

  -- The first half of `send_packet`, under the lock of the groups: the group as it is then, counted.
  unfoldable pub begin_send :
      ℕ
      → MulticastPacket
      → MulticastManager Socket
      → Result ManagerError MulticastGroup × MulticastManager Socket
  begin_send now packet m = elim (get packet.stream_key m.groups) [
    | none ↦ (err group_not_found, m)
    | some group ↦ (
      ok (count_packet now packet group),
      record m { groups = modify packet.stream_key (count_packet now packet) m.groups },
    )
  ]

  -- The second half, under the lock of the sockets: `PacketSender::send_packet`. A success carries the datagram and where it went.
  unfoldable pub send_datagram :
      UdpOps Socket
      → HashMap Ipv4Addr Socket
      → MulticastGroup
      → MulticastPacket
      → Result ManagerError (List ℕ × SocketAddr)
  send_datagram net sockets group packet = do
    socket ← ok_or (get group.multicast_address sockets) no_socket
    let dest_addr = socket_addr (v4 group.multicast_address) group.port
    guard (net.send_to socket (packet_data packet) dest_addr) send_failed
    ok (packet_data packet, dest_addr)

  -- Both halves, with nothing in between.
  unfoldable pub send_packet :
      UdpOps Socket
      → ℕ
      → MulticastPacket
      → MulticastManager Socket
      → Result ManagerError (List ℕ × SocketAddr) × MulticastManager Socket
  send_packet net now packet m =
      let (found, m') = begin_send now packet m in
      (found >>= (λ group. send_datagram net m'.sockets group packet), m')

  unfoldable pub add_viewer :
      ℕ
      → ℕ
      → String
      → SocketAddr
      → String
      → MulticastManager Socket
      → Result ManagerError ℕ × MulticastManager Socket
  add_viewer viewer_id now stream_key addr quality_profile m = elim (get stream_key m.groups) [
    | none ↦ (err group_not_found, m)
    | some _ ↦ (
      ok viewer_id,
      record m {
        groups =
            modify stream_key
              (join addr (record {
                id = viewer_id;
                joined_at = now;
                last_seen = now;
                packets_received = 0;
                quality_profile = quality_profile;
              }))
              m.groups;
      },
    )
  ]

  unfoldable pub remove_viewer :
      String → SocketAddr → MulticastManager Socket → MulticastManager Socket
  remove_viewer stream_key addr m = record m { groups = modify stream_key (leave addr) m.groups }

  unfoldable pub update_viewer_last_seen :
      ℕ → String → SocketAddr → MulticastManager Socket → MulticastManager Socket
  update_viewer_last_seen now stream_key addr m = record m {
    groups = modify stream_key (see_viewer now addr) m.groups;
  }

  -- One tick of `cleanup_task`, which has the groups and the configuration only.
  unfoldable pub cleanup : ℕ → MulticastManager Socket → MulticastManager Socket
  cleanup now m =
      let timeout = m.config.group_timeout in
      record m { groups = retain (is_kept now timeout) (map_values (prune now timeout) m.groups) }
