-- ===== src/WebRtc/Stream.antt =====
-- The data of src/webrtc_server.rs. `Float` is `f64`, and `Peer` is what a peer connection of the
-- crate webrtc is known by.
use oxide_cast.Prelude.{
  ℕ, ◌+◌, ◌%◌, ◌^◌, Bool, Option, none, some, List, String, ◌==◌, if◌then◌else◌,
}
use Prim.Native.String.{◌++◌}
use oxide_cast.Net.{Ipv4Addr}
use oxide_cast.Multicast.Packet.{Received}

pub record IceServer : Type 0 where
  pub urls : List String
  pub username : String
  pub credential : String

pub record TurnServer : Type 0 where
  pub url : String
  pub username : String
  pub credential : String

pub record WebRtcConfig : Type 0 where
  pub stun_servers : List String
  pub turn_servers : List TurnServer
  pub ice_timeout : ℕ
  pub dtls_timeout : ℕ
  pub max_bitrate : ℕ
  pub min_bitrate : ℕ
  pub enable_simulcast : Bool

-- A `TrackLocalStaticRTP` by its arguments.
pub record Track : Type 0 where
  pub mime_type : String
  pub clock_rate : ℕ
  pub channels : ℕ
  pub sdp_fmtp_line : String
  pub id : String
  pub stream_id : String

abbrev pub new_video_track : String → Track
new_video_track key = record {
  mime_type = "video/H264";
  clock_rate = 90000;
  channels = 0;
  sdp_fmtp_line = "level-asymmetry-allowed=1;packetization-mode=1;profile-level-id=42001f";
  id = "video_" ++ key;
  stream_id = "webrtc_video_" ++ key;
}

abbrev pub new_audio_track : String → Track
new_audio_track key = record {
  mime_type = "audio/opus";
  clock_rate = 48000;
  channels = 2;
  sdp_fmtp_line = "minptime=10;useinbandfec=1";
  id = "audio_" ++ key;
  stream_id = "webrtc_audio_" ++ key;
}

pub record WebRtcStream : Type 0 where
  pub stream_key : String
  pub multicast_address : Ipv4Addr
  pub multicast_port : ℕ
  pub video_track : Option Track
  pub audio_track : Option Track
  pub started_at : ℕ
  pub viewer_count : ℕ
  pub packet_count : ℕ
  pub bytes_transmitted : ℕ

-- The states of `RTCPeerConnectionState` that the code names, and that of a connection under way.
pub data ConnectionState : Type 0 where
  fresh connecting connected disconnected failed closed : ConnectionState

pub record ViewerInfo : Type 0 where
  pub ip_address : String
  pub user_agent : Option String
  pub session_id : String

pub record ConnectionStats (Float : Type 0) : Type 0 where
  pub packets_sent : ℕ
  pub packets_received : ℕ
  pub bytes_sent : ℕ
  pub bytes_received : ℕ
  pub round_trip_time_ms : Float
  pub packet_loss_rate : Float
  pub jitter_ms : Float

pub record WebRtcPeerConnection (Float Peer : Type 0) : Type 0 where
  pub id : ℕ
  pub stream_key : String
  pub peer_connection : Peer
  pub created_at : ℕ
  pub last_activity : ℕ
  pub connection_state : ConnectionState
  pub viewer_info : ViewerInfo
  pub stats : ConnectionStats Float

pub record WebRtcOffer : Type 0 where
  pub sdp : String
  pub stream_key : String
  pub session_id : String
  pub viewer_info : ViewerInfo

pub record WebRtcAnswer : Type 0 where
  pub sdp : String
  pub session_id : String

pub record IceCandidate : Type 0 where
  pub candidate : String
  pub session_id : String

-- An RTP packet of version 2 with the source 1, with no padding, extension or contributor.
pub record RtpPacket : Type 0 where
  pub marker : Bool
  pub payload_type : ℕ
  pub sequence_number : ℕ
  pub timestamp : ℕ
  pub payload : List ℕ

-- `sequence_number as u16`.
unfoldable pub rtp_packet : Received → RtpPacket
rtp_packet r = record {
  marker = r.payload_type == 0;
  payload_type = if r.payload_type == 0 then 96 else 97;
  sequence_number = r.sequence_number % 2 ^ 16;
  timestamp = r.timestamp;
  payload = r.payload;
}

-- The track that a received packet goes to.
unfoldable pub track_for : Track → Track → ℕ → Option Track
track_for video_track audio_track payload_type =
    if payload_type == 0
    then some video_track
    else if payload_type == 1
    then some audio_track
    else none

unfoldable pub forward : Track → Track → Received → Option (Track × RtpPacket)
forward video_track audio_track r = elim (track_for video_track audio_track r.payload_type) [
  | none ↦ none
  | some track ↦ some (track, rtp_packet r)
]

abbrev pub count_datagram : Received → WebRtcStream → WebRtcStream
count_datagram r stream = record stream {
  packet_count = (stream.packet_count + 1) % 2 ^ 64;
  bytes_transmitted = (stream.bytes_transmitted + r.size) % 2 ^ 64;
}

abbrev pub set_viewer_count : ℕ → WebRtcStream → WebRtcStream
set_viewer_count n stream = record stream { viewer_count = n }

pub record WebRtcStreamStats : Type 0 where
  pub stream_key : String
  pub viewer_count : ℕ
  pub total_connections : ℕ
  pub packets_sent : ℕ
  pub bytes_transmitted : ℕ
  pub uptime_seconds : ℕ

abbrev pub new_stream : ℕ → String → Ipv4Addr → ℕ → WebRtcStream
new_stream now key address port = record {
  stream_key = key;
  multicast_address = address;
  multicast_port = port;
  video_track = some (new_video_track key);
  audio_track = some (new_audio_track key);
  started_at = now;
  viewer_count = 0;
  packet_count = 0;
  bytes_transmitted = 0;
}

abbrev pub new_peer :
    {Float Peer : Type 0} → Float → ℕ → ℕ → Peer → WebRtcOffer → WebRtcPeerConnection Float Peer
new_peer zero_f64 id now peer offer = record {
  id = id;
  stream_key = offer.stream_key;
  peer_connection = peer;
  created_at = now;
  last_activity = now;
  connection_state = fresh;
  viewer_info = offer.viewer_info;
  stats = record {
    packets_sent = 0;
    packets_received = 0;
    bytes_sent = 0;
    bytes_received = 0;
    round_trip_time_ms = zero_f64;
    packet_loss_rate = zero_f64;
    jitter_ms = zero_f64;
  };
}
