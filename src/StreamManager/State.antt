-- ===== src/StreamManager/State.antt =====
-- The data and the state of `StreamManager` of src/stream_manager.rs, with the components that it
-- drives as parts of the state. Times are in nanoseconds.
use oxide_cast.Prelude.{ℕ, Bool, Option, List, String}
use oxide_cast.Action.{Action, within, changes}
use oxide_cast.HashMap.{HashMap}
use oxide_cast.Net.{Ipv4Addr, IpAddr, SocketAddr}
use oxide_cast.Database.{Database, DbError, Answers}
use oxide_cast.Multicast.Manager.{ManagerError, MulticastManager, UdpOps}
use oxide_cast.Transcoder.Manager.{TranscoderError, TranscoderManager}
use oxide_cast.Hls.Stream.{Types}
use oxide_cast.Hls.Writer.{HlsError, HlsCalls}
use oxide_cast.Hls.Server.{HlsServer}
use oxide_cast.WebRtc.Server.{WebRtcError, WebRtcServer, RtcCalls}

-- What the crates give: sockets, transcoding profiles, JSON values, `f64`, peer connections, and the
-- types of the HLS server.
pub record Crates : Type 1 where
  pub Socket : Type 0
  pub Profile : Type 0
  pub Json : Type 0
  pub Float64 : Type 0
  pub Peer : Type 0
  pub hls_types : Types

pub record ActiveStreamInfo (Float : Type 0) : Type 0 where
  pub stream_id : ℕ
  pub stream_key : String
  pub user_id : ℕ
  pub title : String
  pub multicast_address : String
  pub multicast_port : ℕ
  pub transcoding_job_id : Option ℕ
  pub started_at : ℕ
  pub last_frame_at : ℕ
  pub viewer_count : ℕ
  pub total_viewers : ℕ
  pub bitrate_kbps : ℕ
  pub frame_rate : Float
  pub resolution : ℕ × ℕ
  pub is_recording : Bool
  pub quality_profiles : List String

pub data ConnectionType : Type 0 where
  multicast webrtc hls : ConnectionType

pub record ViewerInfo : Type 0 where
  pub id : ℕ
  pub user_id : Option ℕ
  pub ip_address : String
  pub user_agent : Option String
  pub joined_at : ℕ
  pub connection_type : ConnectionType
  pub quality_profile : String
  pub last_heartbeat : ℕ

pub record ConnectionQuality (Float : Type 0) : Type 0 where
  pub latency_ms : ℕ
  pub packet_loss : Float
  pub jitter_ms : ℕ
  pub bandwidth_kbps : ℕ

pub record ViewerSession (Float : Type 0) : Type 0 where
  pub viewer_id : ℕ
  pub joined_at : ℕ
  pub last_activity : ℕ
  pub bytes_received : ℕ
  pub quality_profile : String
  pub connection_quality : ConnectionQuality Float

pub record ViewerTracking (Float : Type 0) : Type 0 where
  pub stream_id : ℕ
  pub viewers : HashMap SocketAddr (ViewerSession Float)
  pub total_join_count : ℕ
  pub peak_concurrent : ℕ

pub record StreamMetricsData (Float : Type 0) : Type 0 where
  pub frames_processed : ℕ
  pub bytes_transmitted : ℕ
  pub dropped_frames : ℕ
  pub encoding_bitrate : ℕ
  pub network_throughput : ℕ
  pub cpu_usage : Float
  pub memory_usage : ℕ

pub record StreamSessionInfo (Float : Type 0) : Type 0 where
  pub session_id : ℕ
  pub stream_id : ℕ
  pub started_at : ℕ
  pub viewers : HashMap ℕ ViewerInfo
  pub metrics : StreamMetricsData Float

pub data StreamError : Type 0 where
  stream_not_found already_live bad_address : StreamError
  of_database : DbError → StreamError
  of_multicast : ManagerError → StreamError
  of_transcoder : TranscoderError → StreamError
  of_hls : HlsError → StreamError
  of_webrtc : WebRtcError → StreamError

-- The answers of the database, the calls of the components, and conversions of the standard library:
-- `str::parse` for an address, `to_string` of one and of a port, and `json!` of the metrics.
pub record Calls (X : Crates) : Type 0 where
  pub answers : Answers
  pub net : UdpOps X.Socket
  pub hls : HlsCalls X.hls_types
  pub rtc : RtcCalls X.Peer
  pub parse_ip : String → Option IpAddr
  pub show_address : Ipv4Addr → String
  pub show_port : ℕ → String
  pub to_json : StreamMetricsData X.hls_types.Float → X.Json

pub record StreamManager (X : Crates) : Type 0 where
  pub database : Database X.Json
  pub multicast_manager : MulticastManager X.Socket
  pub transcoder_manager : TranscoderManager X.Profile X.hls_types.Float X.hls_types.PathBuf
  pub webrtc_server : WebRtcServer X.Float64 X.Peer
  pub hls_server : HlsServer X.hls_types
  pub active_streams : HashMap ℕ (ActiveStreamInfo X.hls_types.Float)
  pub stream_sessions : HashMap ℕ (StreamSessionInfo X.hls_types.Float)
  pub viewer_tracking : HashMap ℕ (ViewerTracking X.hls_types.Float)
  pub sequence_number : ℕ

abbrev pub Does : Crates → Type 0 → Type 0
Does X A = Action StreamError (StreamManager X) A

module _ {X : Crates} {A : Type 0} where
  abbrev pub in_database : Action DbError (Database X.Json) A → Does X A
  in_database = within (λ s. s.database) (λ db s. record s { database = db }) of_database

  abbrev pub in_multicast : Action ManagerError (MulticastManager X.Socket) A → Does X A
  in_multicast =
      within (λ s. s.multicast_manager) (λ m s. record s { multicast_manager = m }) of_multicast

  abbrev pub in_transcoder :
      Action TranscoderError (TranscoderManager X.Profile X.hls_types.Float X.hls_types.PathBuf) A
      → Does X A
  in_transcoder =
      within (λ s. s.transcoder_manager) (λ t s. record s { transcoder_manager = t }) of_transcoder

  abbrev pub in_hls : Action HlsError (HlsServer X.hls_types) A → Does X A
  in_hls = within (λ s. s.hls_server) (λ h s. record s { hls_server = h }) of_hls

  abbrev pub in_webrtc : Action WebRtcError (WebRtcServer X.Float64 X.Peer) A → Does X A
  in_webrtc = within (λ s. s.webrtc_server) (λ w s. record s { webrtc_server = w }) of_webrtc

-- A call of the multicast layer that cannot fail.
abbrev pub on_multicast :
    {X : Crates} → (MulticastManager X.Socket → MulticastManager X.Socket) → Does X (Unit {0})
on_multicast f = changes (λ s. record s { multicast_manager = f s.multicast_manager })
