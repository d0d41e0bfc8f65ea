-- ===== src/StreamManager/Samples.antt =====
-- A stream manager with one stream, for the runs at concrete inputs: floats, sockets and peers are
-- numbers, and a JSON value is the unit.
use oxide_cast.Prelude.{ℕ, ◌+◌, true, false, none, some, List, [], ◌∷◌, ◌++◌, String, pos}
use oxide_cast.Net.{octets, v4}
use oxide_cast.Config.{MulticastConfig}
use oxide_cast.Database.{Stream}
use oxide_cast.Multicast.Manager.{UdpOps}
use oxide_cast.Multicast.Manager as Multicast
use oxide_cast.Transcoder.Manager as Transcoder
use oxide_cast.Hls.Stream.{Types, HlsConfig}
use oxide_cast.Hls.Writer.{HlsCalls}
use oxide_cast.Hls.Server as Hls
use oxide_cast.WebRtc.Server.{RtcCalls}
use oxide_cast.StreamManager.State.{Crates, Calls, StreamManager}
use oxide_cast.StreamManager.Streams.{FreshIds}

abbrev pub types : Types
types = record {
  Float = ℕ;
  PathBuf = List String;
  zero_f32 = 0;
  from_u32 = λ n. n;
  as_secs_f32 = λ n. n;
  add_f32 = λ a b. a + b;
  join = λ path name. path ++ (name ∷ []);
  segment_name = λ n. "segment.ts";
}

abbrev pub crates : Crates
crates = record { Socket = ℕ; Profile = ℕ; Json = Unit; Float64 = ℕ; Peer = ℕ; hls_types = types }

abbrev pub net : UdpOps ℕ
net = record {
  bind = λ _. some 7;
  set_multicast_ttl_v4 = λ _ _. true;
  set_multicast_if_v4 = λ _ _. true;
  set_broadcast = λ _. true;
  set_send_buffer_size = λ _ _. true;
  join_multicast_v4 = λ _ _ _. true;
  send_to = λ _ _ _. true;
}

abbrev pub files : HlsCalls types
files = record {
  create_dir_all = λ path. true;
  create = λ path. true;
  flush = λ path. true;
  write_all = λ path bytes. true;
  write_playlist = λ path playlist. true;
  bind_and_join = λ address port. true;
}

abbrev pub rtc : RtcCalls ℕ
rtc = record {
  bind_and_join = λ address port. true;
  new_peer_connection = λ servers. some 7;
  add_track = λ peer track. true;
  parse_offer = λ sdp. true;
  set_remote_description = λ peer sdp. true;
  create_answer = λ peer. some "answer";
  set_local_description = λ peer sdp. true;
  parse_candidate = λ candidate. true;
  add_ice_candidate = λ peer candidate. true;
  close = λ peer. true;
}

-- Everything works.
abbrev pub calls : Calls crates
calls = record {
  answers = λ q. true;
  net = net;
  hls = files;
  rtc = rtc;
  parse_ip = λ text. some (v4 (octets 10 0 0 9));
  show_address = λ address. "239.255.0.2";
  show_port = λ port. "30000";
  to_json = λ metrics. tt;
}

abbrev pub stream_row : List String → Stream
stream_row profiles = record {
  id = 1;
  user_id = 5;
  title = "Title";
  description = none;
  category = none;
  is_live = false;
  is_private = false;
  stream_key = "live";
  multicast_address = none;
  multicast_port = none;
  created_at = 0;
  updated_at = 0;
  started_at = none;
  ended_at = none;
  viewer_count = pos 0;
  max_viewers = pos 0;
  thumbnail_url = none;
  recording_enabled = false;
  transcoding_profiles = profiles;
}

abbrev pub multicast_config : MulticastConfig
multicast_config = record {
  interface = v4 (octets 0 0 0 0);
  base_address = octets 239 255 0 1;
  port_range = (30000, 40000);
  ttl = 64;
  buffer_size = 1048576;
  packet_size = 1400;
  group_timeout = 300;
  enable_igmp = true;
}

abbrev pub hls_config : HlsConfig types
hls_config = record {
  segment_duration = 6;
  playlist_length = 10;
  segment_directory = "hls" ∷ [];
  cleanup_interval = 60;
  enable_low_latency = false;
  partial_segment_duration = 1;
}

-- Nothing is on air; the one stream has these profiles, of which the transcoder knows "720p".
abbrev pub idle : List String → StreamManager crates
idle profiles = record {
  database = record { users = []; streams = (1, stream_row profiles) ∷ []; stream_sessions = [] };
  multicast_manager = Multicast.new multicast_config;
  transcoder_manager = Transcoder.new (("720p", 0) ∷ []) 2;
  webrtc_server = record { active_streams = []; peer_connections = []; ice_servers = [] };
  hls_server = Hls.new hls_config;
  active_streams = [];
  stream_sessions = [];
  viewer_tracking = [];
  sequence_number = 70000;
}

abbrev pub ids : FreshIds
ids = record { group_id = 10; job_id = 20; session_id = 30 }
