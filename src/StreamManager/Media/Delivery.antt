-- ===== src/StreamManager/Media/Delivery.antt =====
-- A media message on its way from the publisher to the receivers of the group.
use oxide_cast.Multicast.Manager.{begin_send, send_packet, send_datagram}
use oxide_cast.Prelude.{ℕ, ◌+◌, ◌%◌, ◌^◌, ◌<◌, ◌≡◌, refl, true, some, List, String, ok, arith}
use oxide_cast.HashMap.{string_eq, nat_eq, get, values}
use oxide_cast.Net.{ipv4_eq, v4, SocketAddr, socket_addr}
use oxide_cast.Database.{first_with}
use oxide_cast.Multicast.Packet.{PayloadType, packet_data}
use oxide_cast.Multicast.Group.{MulticastGroup}
use oxide_cast.WebRtc.Stream.{Track}
use oxide_cast.WebRtc.Server.{receive_datagram}
use oxide_cast.WebRtc.Server.Forward.{expected, receive_datagram-packet_data}
use oxide_cast.StreamManager.State.{Crates, Calls, ActiveStreamInfo, StreamManager}
use oxide_cast.StreamManager.Media.{
  has_key, get_next_sequence_number, update_stream_metrics, packet_of, send_media,
  handle_media_data,
}

abbrev pub address_of : MulticastGroup → SocketAddr
address_of group = socket_addr (v4 group.multicast_address) group.port

module _ {X : Crates} (calls : Calls X) where
  -- A message for a stream on air, whose group has a socket that sends, when the shared counter is
  -- within 32 bits: it succeeds, one datagram goes to the address of the group, and the counter goes
  -- up by one, back to 0 after 2 ^ 32 - 1. When the WebRTC server receives the datagram, a video or an
  -- audio message goes on to the track of its type as one RTP packet, with the first 1484 bytes of the
  -- message and the low 16 bits of the number that the counter had; a key frame and a message of
  -- metadata are not forwarded.
  pub handle_media_data-receive_datagram :
      (now : ℕ) (key : String) (bytes : List ℕ) (kind : PayloadType) (video audio : Track)
      (info : ActiveStreamInfo X.hls_types.Float) (group : MulticastGroup) (socket : X.Socket)
      (s : StreamManager X)
      → s.sequence_number < 2 ^ 32
      → first_with (has_key key) (values s.active_streams) ≡ some info
      → get key s.multicast_manager.groups ≡ some group
      → get group.multicast_address s.multicast_manager.sockets ≡ some socket
      → calls.net.send_to socket
          (packet_data (packet_of now key bytes kind s.sequence_number))
          (address_of group)
        ≡ true
      → let packet = packet_of now key bytes kind s.sequence_number in
        let (r, s') = handle_media_data calls now key bytes kind s in
        (r ≡ ok (some (packet_data packet, address_of group)))
        × (s'.sequence_number ≡ (s.sequence_number + 1) % 2 ^ 32)
        × ((receive_datagram key video audio (packet_data packet) s'.webrtc_server).0
            ≡ expected video audio packet kind)
  unfolding handle_media_data send_media get_next_sequence_number send_packet begin_send
      send_datagram update_stream_metrics
  handle_media_data-receive_datagram now key bytes kind video audio info group socket s small on_air
        grouped open_socket sends =
      let packet = packet_of now key bytes kind s.sequence_number in
      rw (on_air, handle_media_data)
        (rw (grouped, send_media, send_packet, begin_send)
          (rw (open_socket, send_media, send_datagram)
            (rw (sends, send_media, send_datagram)
              (
                refl,
                refl,
                receive_datagram-packet_data key video audio packet s.webrtc_server small
                    (omega arith),
              ))))
