-- ===== src/StreamManager/Stop/Complete.antt =====
-- A stop that meets no error.
use oxide_cast.Prelude.{
  ℕ, ◌≡◌, refl, ap, ◌∙◌, true, false, none, some, Option, String, ok, arith, Option-cases, inl, inr,
}
use mathlib.Core.Option
use oxide_cast.HashMap.{nat_eq, string_eq, get, contains_key, remove, values}
use oxide_cast.HashMap.Laws.{contains_key_of_get, get-remove, get-modify_self, beq_refl}
use oxide_cast.Database.{first_with, Stream, Statement, update_row}
use oxide_cast.Database.Streams.{find_by_id, stop_streaming, go_off}
use oxide_cast.Multicast.Manager.{MulticastManager}
use oxide_cast.Multicast.Manager as Multicast
use oxide_cast.Transcoder.Job.{TranscodingJob}
use oxide_cast.Transcoder.Manager.{stop_transcoding}
use oxide_cast.Hls.Server as Hls
use oxide_cast.Hls.Server.Stops.{stop_stream_removes}
use oxide_cast.WebRtc.Server as WebRtc
use oxide_cast.WebRtc.Server.Table.{IsTable, stop_stream_closes}
use oxide_cast.StreamManager.State.{
  Crates, Calls, ActiveStreamInfo, StreamSessionInfo, StreamManager,
}
use oxide_cast.StreamManager.Stop.{
  is_session_of, session_row, finalize_stream_session, stop_active, stop_stream,
}
use oxide_cast.StreamManager.Stop.Partial.{with_row, finalize_stream_session-saved}

remove_group-get :
    {Socket : Type 0} (key : String) (m : MulticastManager Socket)
    → get key (Multicast.remove_group key m).groups ≡ none
unfolding Multicast.remove_group
remove_group-get key m = elim (Option-cases (get key m.groups)) [
  | inl e ↦ rw (e, Multicast.remove_group) e
  | inr (g, e) ↦
      rw (e, Multicast.remove_group) (ground (arith, get-remove key key m.groups, beq_refl key))
]

module _ {X : Crates} (calls : Calls X) where
  -- Where a stop is before the session is saved.
  abbrev pub stopped :
      ℕ → ℕ → Stream → ActiveStreamInfo X.hls_types.Float → StreamManager X → StreamManager X
  stopped now job_id stream info s = record s {
    active_streams = remove stream.id s.active_streams;
    database = update_row now stream.id (go_off now) s.database;
    transcoder_manager = (stop_transcoding job_id s.transcoder_manager).1;
    multicast_manager = Multicast.remove_group info.stream_key s.multicast_manager;
    hls_server = (Hls.stop_stream calls.hls now info.stream_key s.hls_server).1;
    webrtc_server = (WebRtc.stop_stream calls.rtc info.stream_key s.webrtc_server).1;
    viewer_tracking = remove stream.id s.viewer_tracking;
  }

module _ {X : Crates} (calls : Calls X) (connected : (q : Statement) → calls.answers q ≡ true) where
  stop_stream-stopped :
      (now job_id : ℕ) (stream : Stream) (info : ActiveStreamInfo X.hls_types.Float)
      (pid : Option ℕ) (s : StreamManager X)
      → get stream.id s.active_streams ≡ some info
      → get stream.id s.database.streams ≡ some stream
      → info.transcoding_job_id ≡ some job_id
      → (stop_transcoding job_id s.transcoder_manager).0 ≡ ok pid
      → (Hls.stop_stream calls.hls now info.stream_key s.hls_server).0 ≡ ok tt
      → (WebRtc.stop_stream calls.rtc info.stream_key s.webrtc_server).0 ≡ ok tt
      → stop_stream calls now stream.id s
        ≡ finalize_stream_session calls now stream.id (stopped calls now job_id stream info s)
  unfolding stop_stream stop_active find_by_id stop_streaming
  stop_stream-stopped now job_id stream info pid s active found job jobs hls rtc =
      rw (active, stop_stream)
        (rw (connected Statement.select_stream, stop_active, find_by_id)
          (rw (found, stop_active, find_by_id)
            (rw (connected Statement.set_ended, stop_active, stop_streaming)
              (rw (job, stop_active)
                (rw (jobs, stop_active) (rw (hls, stop_active) (rw (rtc, stop_active) refl)))))))

-- A stream that is off air everywhere.
pub record IsOff {X : Crates} (id : ℕ) (key : String) (s : StreamManager X) : Type 0 where
  pub active : get id s.active_streams ≡ none
  pub tracking : get id s.viewer_tracking ≡ none
  pub group : get key s.multicast_manager.groups ≡ none
  pub hls : get key s.hls_server.active_streams ≡ none
  pub webrtc : get key s.webrtc_server.active_streams ≡ none
  pub row : Option.map (λ r. r.is_live) (get id s.database.streams) ≡ some false

module _ {X : Crates} (calls : Calls X) (connected : (q : Statement) → calls.answers q ≡ true) where
  -- When the database answers, a close of a peer connection never fails, the stream is on air
  -- with its row and its job, the open HLS segment can be flushed, every WebRTC connection
  -- stands in the table once and under its own id, and the session that is found for the stream
  -- is not yet stored, a stop succeeds: the stream is no longer active or tracked, has no group,
  -- HLS stream or WebRTC stream, and its row is not live; but its session stays in the table.
  pub stop_stream-IsOff :
      (closes : (p : X.Peer) → calls.rtc.close p ≡ true) (now job_id : ℕ) (stream : Stream)
      (info : ActiveStreamInfo X.hls_types.Float)
      (job : TranscodingJob X.hls_types.Float X.hls_types.PathBuf)
      (session : StreamSessionInfo X.hls_types.Float) (s : StreamManager X)
      → get stream.id s.active_streams ≡ some info
      → get stream.id s.database.streams ≡ some stream
      → info.transcoding_job_id ≡ some job_id
      → get job_id s.transcoder_manager.active_jobs ≡ some job
      → (Hls.finalize_writer calls.hls now info.stream_key s.hls_server).0 ≡ ok tt
      → IsTable s.webrtc_server.peer_connections
      → first_with (is_session_of stream.id) (values s.stream_sessions) ≡ some session
      → contains_key session.session_id s.database.stream_sessions ≡ false
      → let (r, s') = stop_stream calls now stream.id s in
        (r ≡ ok tt) × IsOff stream.id info.stream_key s' × (s'.stream_sessions ≡ s.stream_sessions)
  unfolding stop_transcoding
  stop_stream-IsOff closes now job_id stream info job session s active found has_job jobs flushed
        table tracked free =
      let key = info.stream_key in
      let hls = stop_stream_removes calls.hls now key s.hls_server flushed in
      let rtc = stop_stream_closes calls.rtc closes key s.webrtc_server table in
      let before = stopped calls now job_id stream info s in
      let run : stop_stream calls now stream.id s
          ≡ (ok tt, with_row (session_row calls.to_json now stream.id session) before) =
        stop_stream-stopped calls connected now job_id stream info job.child_process s active found
          has_job (rw (jobs, stop_transcoding) refl) hls.0 rtc.0
        ∙ finalize_stream_session-saved calls connected now stream.id session before tracked free (
            contains_key_of_get stream.id _ _ (
              get-modify_self stream.id stream (λ r. record (go_off now r) { updated_at = now })
                s.database.streams found)) in
      rw run (
        refl,
        record {
          active =
              ground (arith, get-remove stream.id stream.id s.active_streams, beq_refl stream.id);
          tracking =
              ground (arith, get-remove stream.id stream.id s.viewer_tracking, beq_refl stream.id);
          group = remove_group-get key s.multicast_manager;
          hls = hls.1;
          webrtc = rtc.1;
          row = ap (Option.map (λ r. r.is_live)) (
              get-modify_self stream.id stream (λ r. record (go_off now r) { updated_at = now })
                s.database.streams found);
        },
        refl,
      )
