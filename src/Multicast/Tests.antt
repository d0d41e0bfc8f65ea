-- ===== src/Multicast/Tests.antt =====
-- Concrete runs of the multicast layer, and its theorems at concrete inputs.
use oxide_cast.Prelude.{
  ℕ, ◌-◌, ◌%◌, ◌<◌, ◌≡◌, ◌≢◌, ◌↔◌, refl, true, none, some, List, [], ◌∷◌, String, ok, err, arith,
  length,
}
use oxide_cast.HashMap.{
  string_eq, nat_eq, get, contains_key, insert, modify, map_values, retain, remove,
}
use oxide_cast.Net.{Ipv4Addr, octets, ipv4_eq, v4, SocketAddr, socket_addr, socket_addr_eq}
use oxide_cast.Config.{MulticastConfig}
use oxide_cast.Multicast.Packet.{MulticastPacket, key_frame, packet_data, receive}
use oxide_cast.Multicast.Packet.RoundTrip.{receive-packet_data}
use oxide_cast.Multicast.Group.{MulticastGroup, ViewerInfo, is_present, nanos, count_packet}
use oxide_cast.HashMap.Values.{IsUnique, keep_if}
use oxide_cast.Multicast.Allocator.{
  AddressAllocator, address_at, find_address, find_port, allocate_address, deallocate_address,
}
use oxide_cast.Multicast.Allocator
use oxide_cast.Multicast.Allocator.Distinct.{address_at-eq_iff}
use oxide_cast.Multicast.Allocator.Allocate.{
  Allocated, allocate_address-Allocated, allocate_address_total, get-deallocate_address,
}
use oxide_cast.Multicast.Allocator.Consistent.{
  IsConsistent, Request, allocate, deallocate, run-new-IsConsistent,
}
use oxide_cast.Multicast.Manager.{
  MulticastManager, UdpOps, create_group, create_multicast_socket, remove_group, send_packet,
  send_datagram, add_viewer, cleanup, no_socket, begin_send,
}
use oxide_cast.Multicast.Manager
use oxide_cast.Multicast.Manager.Events.{Event, creates, joins, removes, cleans, step, run}
use oxide_cast.Multicast.Manager.Cleanup.{cleanup_drops_iff, cleanup_viewers}
use oxide_cast.Multicast.Manager.Counts.{run-new_counts}
use oxide_cast.Multicast.Manager.Ownership.{IsOwned}
use oxide_cast.Multicast.Manager.History.{run-new-IsOwned}
use oxide_cast.Multicast.Manager.Race.{HasGroupAt, begin_send-send_datagram}
use oxide_cast.Multicast.Manager.Leak.{cleanup_leaks}

abbrev base : Ipv4Addr
base = octets 239 255 0 1

abbrev allocator : AddressAllocator
allocator = record {
  base_address = base;
  port_range = (30000, 40000);
  allocated_addresses = (octets 239 255 0 2, 30000) ∷ [];
  allocated_ports = (30000, true) ∷ [];
  next_address_offset = 1;
  next_port = 30000;
}

-- The address that is taken is passed over, and so is its port.
second_pair : (allocate_address allocator).0 ≡ ok (octets 239 255 0 3, 30001)
unfolding allocate_address find_address find_port address_at contains_key
second_pair = refl

address_at-eq_iff_example : (address_at base 1 ≡ address_at base 65537) ↔ (1 ≡ 65537 % 65536)
address_at-eq_iff_example = address_at-eq_iff base 1 65537

allocate_address-Allocated_example :
    Allocated allocator (allocate_address allocator).1 (octets 239 255 0 3) 30001
allocate_address-Allocated_example =
    allocate_address-Allocated allocator (octets 239 255 0 3) 30001 second_pair

allocate_address_total_example : (pair : Ipv4Addr × ℕ) × ((allocate_address allocator).0 ≡ ok pair)
unfolding get
allocate_address_total_example =
    allocate_address_total allocator 30007 (omega arith) (omega arith) (omega arith) refl

get-deallocate_address_example :
    (get base (deallocate_address (octets 239 255 0 2) allocator).allocated_addresses ≡ none)
    × (get 30000 (deallocate_address (octets 239 255 0 2) allocator).allocated_ports ≡ none)
    × ((deallocate_address (octets 239 255 0 2) allocator).port_range ≡ (30000, 40000))
unfolding get
get-deallocate_address_example =
    get-deallocate_address allocator (octets 239 255 0 2) base 30000 30000 refl

run-new-IsConsistent_example : IsConsistent (
    Allocator.Consistent.run
      (allocate ∷ allocate ∷ deallocate base ∷ [])
      (Allocator.new base (30000, 40000)))
run-new-IsConsistent_example =
    run-new-IsConsistent base (30000, 40000) (allocate ∷ allocate ∷ deallocate base ∷ [])

abbrev frame_packet : MulticastPacket
frame_packet = record {
  stream_key = "live";
  sequence_number = 70000;
  timestamp = 9;
  payload_type = key_frame;
  payload = 5 ∷ 6 ∷ [];
}

receive-packet_data_example :
    receive (packet_data frame_packet)
    ≡ some (record {
      sequence_number = 70000;
      timestamp = 9;
      payload_type = 3;
      payload = 5 ∷ 6 ∷ [];
      size = 18;
    })
receive-packet_data_example = receive-packet_data frame_packet (omega arith) (omega arith)

abbrev config : MulticastConfig
config = record {
  interface = v4 (octets 0 0 0 0);
  base_address = base;
  port_range = (30000, 40000);
  ttl = 64;
  buffer_size = 1048576;
  packet_size = 1400;
  group_timeout = 300;
  enable_igmp = true;
}

-- A network on which everything works.
abbrev net : UdpOps ℕ
net = record {
  bind = λ _. some 7;
  set_multicast_ttl_v4 = λ _ _. true;
  set_multicast_if_v4 = λ _ _. true;
  set_broadcast = λ _. true;
  set_send_buffer_size = λ _ _. true;
  join_multicast_v4 = λ _ _ _. true;
  send_to = λ _ _ _. true;
}

abbrev viewer : SocketAddr
viewer = socket_addr (v4 (octets 127 0 0 1)) 8000

abbrev opened : List (Event ℕ)
opened = creates net 1 0 "live" ∷ []

abbrev watched : List (Event ℕ)
watched = creates net 1 0 "live" ∷ joins 2 5 "live" viewer "720p" ∷ []

run-new-IsOwned_example : IsOwned (run watched (Manager.new config))
run-new-IsOwned_example = run-new-IsOwned config watched

abbrev viewer_info : ViewerInfo
viewer_info = record {
  id = 2;
  joined_at = 5;
  last_seen = 5;
  packets_received = 0;
  quality_profile = "720p";
}

abbrev opened_group : MulticastGroup
opened_group = record {
  id = 1;
  stream_key = "live";
  multicast_address = octets 239 255 0 2;
  port = 30000;
  created_at = 0;
  last_activity = 0;
  viewer_count = 0;
  packet_count = 0;
  bytes_sent = 0;
  viewers = [];
}

abbrev watched_group : MulticastGroup
watched_group = record opened_group { viewer_count = 1; viewers = (viewer, viewer_info) ∷ [] }

watched-get : get "live" (run watched (Manager.new config)).groups ≡ some watched_group
unfolding run step Manager.new Allocator.new create_group create_multicast_socket allocate_address
    find_address find_port address_at contains_key get insert add_viewer modify
watched-get = refl

opened-get : get "live" (run opened (Manager.new config)).groups ≡ some opened_group
unfolding run step Manager.new Allocator.new create_group create_multicast_socket allocate_address
    find_address find_port address_at contains_key get insert
opened-get = refl

run-new_counts_example : (1 ≡ length watched_group.viewers) × IsUnique watched_group.viewers
run-new_counts_example = run-new_counts config watched "live" watched_group watched-get

cleanup_drops_iff_example :
    (get "live" (cleanup 301_000_000_000 (run watched (Manager.new config))).groups ≡ none) ↔ (
      ((a : SocketAddr) (v : ViewerInfo)
        → get a watched_group.viewers ≡ some v
        → nanos 300 < 301_000_000_000 - v.last_seen)
      × (nanos 300 < 301_000_000_000 - 0))
unfolding run step Manager.new Allocator.new create_group create_multicast_socket allocate_address
    find_address find_port address_at contains_key get insert add_viewer modify
cleanup_drops_iff_example =
    cleanup_drops_iff 301_000_000_000 (run watched (Manager.new config)) "live" watched_group
      (refl, tt) refl (refl, tt)

dropped : get "live" (cleanup 301_000_000_000 (run opened (Manager.new config))).groups ≡ none
unfolding run step Manager.new Allocator.new create_group create_multicast_socket allocate_address
    find_address find_port address_at contains_key get insert cleanup retain map_values
dropped = refl

kept :
    get "live" (cleanup 9_000_000_000 (run watched (Manager.new config))).groups
    ≡ some watched_group
unfolding run step Manager.new Allocator.new create_group create_multicast_socket allocate_address
    find_address find_port address_at contains_key get insert add_viewer modify cleanup retain
    map_values
kept = refl

cleanup_viewers_example :
    (get viewer watched_group.viewers
      ≡ keep_if (is_present 9_000_000_000 300) (get viewer watched_group.viewers))
    × (1 ≡ length watched_group.viewers)
unfolding run step Manager.new Allocator.new create_group create_multicast_socket allocate_address
    find_address find_port address_at contains_key get insert add_viewer modify
cleanup_viewers_example =
    cleanup_viewers 9_000_000_000 (run watched (Manager.new config)) "live" watched_group
      watched_group viewer (refl, tt) refl (refl, tt) kept

cleanup_leaks_example :
    (get
        (octets 239 255 0 2)
        (run [] (cleanup 301_000_000_000 (run opened (Manager.new config)))
          ).address_allocator.allocated_addresses
      ≡ some 30000)
    × ((k : String) (h : MulticastGroup)
        → get k (run [] (cleanup 301_000_000_000 (run opened (Manager.new config)))).groups ≡ some h
        → h.multicast_address ≢ octets 239 255 0 2)
cleanup_leaks_example =
    cleanup_leaks 301_000_000_000 (run opened (Manager.new config)) "live" opened_group []
      (run-new-IsOwned config opened) opened-get dropped

-- The group that the first half of a send finds.
abbrev sending : MulticastGroup
sending = count_packet 9 frame_packet opened_group

abbrev meanwhile : List (Event ℕ)
meanwhile = joins 3 9 "live" viewer "720p" ∷ removes "other" ∷ cleans 10 ∷ []

sending_found : (begin_send 9 frame_packet (run opened (Manager.new config))).0 ≡ ok sending
unfolding run step create_group create_multicast_socket allocate_address find_address find_port
    address_at contains_key Manager.new Allocator.new begin_send get insert
sending_found = refl

begin_send-send_datagram_example :
    let late = run meanwhile (begin_send 9 frame_packet (run opened (Manager.new config))).1 in
    (send_datagram net late.sockets sending frame_packet ≢ err no_socket)
    × ((send_datagram net (remove_group "live" late).sockets sending frame_packet ≡ err no_socket)
        ↔ HasGroupAt (octets 239 255 0 2) "live" late)
begin_send-send_datagram_example =
    begin_send-send_datagram config opened meanwhile net 9 frame_packet sending sending_found
      (tt, (λ p. cc, (tt, tt)))

-- The removal in between takes the socket away.
removed_meanwhile :
    let late = run meanwhile (begin_send 9 frame_packet (run opened (Manager.new config))).1 in
    send_datagram net (remove_group "live" late).sockets sending frame_packet ≡ err no_socket
unfolding run step create_group create_multicast_socket allocate_address find_address find_port
    address_at contains_key Manager.new Allocator.new begin_send get insert modify remove
    remove_group add_viewer cleanup retain map_values send_datagram deallocate_address
removed_meanwhile = refl
