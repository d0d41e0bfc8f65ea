-- ===== src/StreamManager/Stop.antt =====
-- `stop_stream` and `finalize_stream_session` of src/stream_manager.rs.
pub mod Partial
pub mod Complete
use oxide_cast.Prelude.{
  ℕ, ◌-◌, ◌/◌, Bool, Option, none, some, String, length, Result, ok, err, as_i32, as_i64, pos,
}
use oxide_cast.Action.{
  Action, ◌>>=◌, ◌>>◌, pure, fail, require_some, gets, changes, on_result, within,
}
use oxide_cast.HashMap.{nat_eq, ◌==◌, get, remove, values}
use oxide_cast.Database.{first_with, StreamSession, save_session}
use oxide_cast.Database.Streams
use oxide_cast.Multicast.Manager as Multicast
use oxide_cast.Transcoder.Manager as Transcoder
use oxide_cast.Hls.Server as Hls
use oxide_cast.WebRtc.Server as WebRtc
use oxide_cast.StreamManager.State.{
  Crates, Calls, ActiveStreamInfo, StreamSessionInfo, StreamMetricsData, stream_not_found,
  StreamManager, Does, in_database, in_transcoder, on_multicast, in_hls, in_webrtc,
}

abbrev pub is_session_of : {Float : Type 0} → ℕ → StreamSessionInfo Float → Bool
is_session_of stream_id session = session.stream_id == stream_id

-- `duration.num_seconds() as i32`, `bytes_transmitted as i64`: what the INSERT binds. A clock that
-- went back gives no duration.
abbrev pub session_row :
    {Float Json : Type 0}
    → (StreamMetricsData Float → Json)
    → ℕ
    → ℕ
    → StreamSessionInfo Float
    → StreamSession Json
session_row to_json now stream_id session = record {
  id = session.session_id;
  stream_id = stream_id;
  started_at = session.started_at;
  ended_at = some now;
  duration_seconds = some (as_i32 ((now - session.started_at) / 1_000_000_000));
  peak_viewers = pos 0;
  total_viewers = as_i32 (length session.viewers);
  bytes_transmitted = as_i64 session.metrics.bytes_transmitted;
  quality_metrics = to_json session.metrics;
}

module _ {X : Crates} where
  abbrev pub save_of :
      Calls X → ℕ → ℕ → Option (StreamSessionInfo X.hls_types.Float) → Does X (Unit {0})
  save_of calls now stream_id none = pure tt
  save_of calls now stream_id (some session) =
      in_database (save_session calls.answers (session_row calls.to_json now stream_id session))

  -- The session is looked up, and stays in the table.
  unfoldable pub finalize_stream_session : Calls X → ℕ → ℕ → Does X (Unit {0})
  finalize_stream_session calls now stream_id = do
    session ← gets (λ s. first_with (is_session_of stream_id) (values s.stream_sessions))
    save_of calls now stream_id session

  abbrev pub take_off : ℕ → StreamManager X → StreamManager X
  take_off stream_id s = record s { active_streams = remove stream_id s.active_streams }

  abbrev pub untrack : ℕ → StreamManager X → StreamManager X
  untrack stream_id s = record s { viewer_tracking = remove stream_id s.viewer_tracking }

  -- On success, the process that gets a SIGTERM.
  abbrev pub stop_job : Option ℕ → Does X (Option ℕ)
  stop_job none = pure none
  stop_job (some job_id) = in_transcoder (Transcoder.stop_transcoding job_id)

  -- What follows once the entry of the stream is taken out.
  unfoldable pub stop_active :
      Calls X → ℕ → ℕ → ActiveStreamInfo X.hls_types.Float → Does X (Unit {0})
  stop_active calls now stream_id info = do
    found ← in_database (Streams.find_by_id calls.answers stream_id)
    stream ← require_some found stream_not_found
    in_database (Streams.stop_streaming calls.answers now stream)
    pid ← stop_job info.transcoding_job_id
    on_multicast (Multicast.remove_group info.stream_key)
    in_hls (Hls.stop_stream calls.hls now info.stream_key)
    in_webrtc (WebRtc.stop_stream calls.rtc info.stream_key)
    changes (untrack stream_id)
    finalize_stream_session calls now stream_id

  abbrev pub stop_found :
      Calls X → ℕ → ℕ → Option (ActiveStreamInfo X.hls_types.Float) → Does X (Unit {0})
  stop_found calls now stream_id none = pure tt
  stop_found calls now stream_id (some info) = stop_active calls now stream_id info

  unfoldable pub stop_stream : Calls X → ℕ → ℕ → Does X (Unit {0})
  stop_stream calls now stream_id = do
    info ← gets (λ s. get stream_id s.active_streams)
    changes (take_off stream_id)
    stop_found calls now stream_id info
