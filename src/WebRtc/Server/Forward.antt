-- ===== src/WebRtc/Server/Forward.antt =====
-- From a packet of the multicast layer to the track of a WebRTC stream.
use oxide_cast.Prelude.{
  ◌%◌, ◌^◌, ◌<◌, ◌≡◌, refl, true, false, Option, none, some, String, take, ◌+◌, min, length,
}
use oxide_cast.Multicast.Packet.{
  MulticastPacket, PayloadType, video, audio, metadata, key_frame, packet_data, payload_type_byte,
}
use oxide_cast.Multicast.Packet.RoundTrip.{receive-packet_data}
use oxide_cast.WebRtc.Stream.{Track, RtpPacket, rtp_packet, track_for, forward}
use oxide_cast.WebRtc.Server.{WebRtcServer, receive_datagram}

-- What becomes of a packet of each type.
abbrev pub expected : Track → Track → MulticastPacket → PayloadType → Option (Track × RtpPacket)
expected video_track audio_track p video = some (
  video_track,
  record {
    marker = true;
    payload_type = 96;
    sequence_number = p.sequence_number % 2 ^ 16;
    timestamp = p.timestamp;
    payload = take 1484 p.payload;
  },
)
expected video_track audio_track p audio = some (
  audio_track,
  record {
    marker = false;
    payload_type = 97;
    sequence_number = p.sequence_number % 2 ^ 16;
    timestamp = p.timestamp;
    payload = take 1484 p.payload;
  },
)
expected video_track audio_track p metadata = none
expected video_track audio_track p key_frame = none

module _ {Float Peer : Type 0} where
  -- A packet of the multicast layer goes to the track of its type as one RTP packet with its payload
  -- up to 1484 bytes, its timestamp and the low 16 bits of its sequence number; a packet of type
  -- metadata or key frame goes nowhere.
  pub receive_datagram-packet_data :
      (key : String) (video_track audio_track : Track) (p : MulticastPacket)
      (s : WebRtcServer Float Peer)
      → p.sequence_number < 2 ^ 32
      → p.timestamp < 2 ^ 32
      → (receive_datagram key video_track audio_track (packet_data p) s).0
        ≡ expected video_track audio_track p p.payload_type
  unfolding receive_datagram forward rtp_packet track_for
  receive_datagram-packet_data key video_track audio_track p s hs ht =
      rw (receive-packet_data p hs ht, receive_datagram) (by_type p.payload_type)
    where
      by_type :
          (kind : PayloadType)
          → forward video_track audio_track (record {
            sequence_number = p.sequence_number;
            timestamp = p.timestamp;
            payload_type = payload_type_byte kind;
            payload = take 1484 p.payload;
            size = 16 + min 1484 (length p.payload);
          })
            ≡ expected video_track audio_track p kind
      by_type video = refl
      by_type audio = refl
      by_type metadata = refl
      by_type key_frame = refl
