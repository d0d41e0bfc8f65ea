-- ===== src/StreamManager/Streams.antt =====
-- How a stream of src/stream_manager.rs comes on air and goes off it, and who may publish.
pub mod Stuck
use oxide_cast.Prelude.{
  ℕ, ◌-◌, ◌/◌, Bool, true, false, not, Option, none, some, List, [], ◌∷◌, String, length,
  if◌then◌else◌, Result, ok, err, as_i32, pos,
}
use oxide_cast.Action.{
  Action, ◌>>=◌, ◌>>◌, pure, fail, require, require_some, gets, changes, on_result, within,
}
use oxide_cast.HashMap.{string_eq, nat_eq, ◌==◌, HashMap, get, insert, remove, values}
use oxide_cast.Net.{Ipv4Addr}
use oxide_cast.Database.{first_with, Stream, StreamSession, save_session}
use oxide_cast.Database.Users
use oxide_cast.Database.Streams
use oxide_cast.Multicast.Manager as Multicast
use oxide_cast.Transcoder.Job.{TranscodingRequest, rtmp_source, multicast_output}
use oxide_cast.Transcoder.Manager as Transcoder
use oxide_cast.Hls.Server as Hls
use oxide_cast.WebRtc.Server as WebRtc
use oxide_cast.StreamManager.State.{
  Crates, Calls, ActiveStreamInfo, ViewerTracking, StreamSessionInfo, StreamError, stream_not_found,
  already_live, StreamManager, Does, in_database, in_multicast, in_transcoder, in_hls, in_webrtc,
}

-- The ids that `Uuid::new_v4` gives on the way.
pub record FreshIds : Type 0 where
  pub group_id : ℕ
  pub job_id : ℕ
  pub session_id : ℕ

abbrev pub request_of : {PathBuf : Type 0} → Stream → String → ℕ → TranscodingRequest PathBuf
request_of stream address port = record {
  stream_key = stream.stream_key;
  input_source = rtmp_source stream.stream_key;
  profiles = stream.transcoding_profiles;
  output_format = multicast_output address port;
  realtime = true;
  hardware_acceleration = true;
}

abbrev pub active_of :
    {Float : Type 0} → Float → ℕ → ℕ → Stream → String → ℕ → ActiveStreamInfo Float
active_of zero_f32 job_id now stream address port = record {
  stream_id = stream.id;
  stream_key = stream.stream_key;
  user_id = stream.user_id;
  title = stream.title;
  multicast_address = address;
  multicast_port = port;
  transcoding_job_id = some job_id;
  started_at = now;
  last_frame_at = now;
  viewer_count = 0;
  total_viewers = 0;
  bitrate_kbps = 0;
  frame_rate = zero_f32;
  resolution = (0, 0);
  is_recording = stream.recording_enabled;
  quality_profiles = stream.transcoding_profiles;
}

abbrev pub new_tracking : {Float : Type 0} → ℕ → ViewerTracking Float
new_tracking stream_id = record {
  stream_id = stream_id;
  viewers = [];
  total_join_count = 0;
  peak_concurrent = 0;
}

abbrev pub new_session : {Float : Type 0} → Float → ℕ → ℕ → ℕ → StreamSessionInfo Float
new_session zero_f32 session_id stream_id now = record {
  session_id = session_id;
  stream_id = stream_id;
  started_at = now;
  viewers = [];
  metrics = record {
    frames_processed = 0;
    bytes_transmitted = 0;
    dropped_frames = 0;
    encoding_bitrate = 0;
    network_throughput = 0;
    cpu_usage = zero_f32;
    memory_usage = 0;
  };
}

module _ {X : Crates} where
  abbrev pub owner_of : Calls X → Option Stream → Does X (Option ℕ)
  owner_of calls none = pure none
  owner_of calls (some stream) = do
    user ← in_database (Users.find_by_id calls.answers stream.user_id)
    pure (elim user [ none ↦ none | some u ↦ if u.is_active then some stream.id else none ])

  unfoldable pub authenticate_stream_key : Calls X → String → Does X (Option ℕ)
  authenticate_stream_key calls key = do
    stream ← in_database (Streams.find_by_stream_key calls.answers key)
    owner_of calls stream

  -- The three tables of the manager that `start_stream` enters the stream in.
  abbrev pub enter :
      ℕ → ℕ → ℕ → ActiveStreamInfo X.hls_types.Float → StreamManager X → StreamManager X
  enter stream_id session_id now info s = record s {
    active_streams = insert stream_id info s.active_streams;
    viewer_tracking = insert stream_id (new_tracking stream_id) s.viewer_tracking;
    stream_sessions =
        insert session_id (new_session X.hls_types.zero_f32 session_id stream_id now)
          s.stream_sessions;
  }

  -- From the row of the database on.
  unfoldable pub start_row : Calls X → FreshIds → ℕ → ℕ → Stream → Does X (Unit {0})
  start_row calls ids now stream_id stream = do
    require (not stream.is_live) already_live
    place ← in_multicast (Multicast.create_group calls.net ids.group_id now stream.stream_key)
    let address = calls.show_address place.0
    in_database (Streams.start_streaming calls.answers now address (as_i32 place.1) stream)
    job_id ← in_transcoder (
        Transcoder.start_transcoding X.hls_types.zero_f32 ids.job_id now
          (request_of stream address place.1))
    changes (
        enter stream_id ids.session_id now
          (active_of X.hls_types.zero_f32 job_id now stream address place.1))
    in_hls (Hls.start_stream calls.hls now stream.stream_key place.0 place.1)
    in_webrtc (WebRtc.start_stream calls.rtc now stream.stream_key place.0 place.1)

  unfoldable pub start_stream : Calls X → FreshIds → ℕ → ℕ → Does X (Unit {0})
  start_stream calls ids now stream_id = do
    found ← in_database (Streams.find_by_id calls.answers stream_id)
    stream ← require_some found stream_not_found
    start_row calls ids now stream_id stream
