-- ===== src/StreamManager/Tests.antt =====
-- Concrete runs of the stream manager, and its theorems at concrete inputs.
use oxide_cast.Prelude.{
  ℕ, ◌+◌, ◌%◌, ◌^◌, ◌≡◌, refl, true, false, none, some, List, [], ◌∷◌, ok, err, arith, pos,
}
use oxide_cast.HashMap.{string_eq, nat_eq, get, contains_key, insert, modify, values}
use oxide_cast.Net.{Ipv4Addr, octets, ipv4_eq}
use oxide_cast.Database.{first_with, Stream, Statement, query_failed}
use oxide_cast.Database.Streams.{find_by_id, start_streaming}
use oxide_cast.Multicast.Packet.{video, packet_data}
use oxide_cast.Multicast.Group.{MulticastGroup, new_group}
use oxide_cast.Multicast.Allocator.{address_at, find_address, find_port, allocate_address}
use oxide_cast.Multicast.Allocator as Allocator
use oxide_cast.Multicast.Manager.{UdpOps, MulticastManager, create_group, create_multicast_socket}
use oxide_cast.Multicast.Manager as Multicast
use oxide_cast.Transcoder.Job.{new_job}
use oxide_cast.Transcoder.Manager.{start_transcoding, unknown_profile, job_not_found}
use oxide_cast.Transcoder.Manager as Transcoder
use oxide_cast.Hls.Writer.{finalize_current_segment}
use oxide_cast.Hls.Server.{update_playlist, finalize_writer}
use oxide_cast.Hls.Server as Hls
use oxide_cast.WebRtc.Stream.{new_video_track, new_audio_track}
use oxide_cast.WebRtc.Server.{RtcCalls, receive_datagram}
use oxide_cast.WebRtc.Server as WebRtc
use oxide_cast.WebRtc.Server.Forward.{expected}
use oxide_cast.StreamManager.State.{
  ActiveStreamInfo, StreamSessionInfo, ViewerInfo, multicast, of_transcoder, of_database,
  already_live, StreamManager,
}
use oxide_cast.StreamManager.Samples.{
  crates, net, files, calls, stream_row, multicast_config, idle, ids,
}
use oxide_cast.StreamManager.Streams.{FreshIds, new_session, request_of, start_row, start_stream}
use oxide_cast.StreamManager.Streams.Stuck.{half_started, start_stream-unknown}
use oxide_cast.HashMap.Laws.{contains_key_of_get}
use oxide_cast.StreamManager.Stop.{is_session_of, session_row, finalize_stream_session, stop_stream}
use oxide_cast.StreamManager.Stop.Partial.{
  half_stopped, get_row, stop_stream-twice, finalize_stream_session-twice,
}
use oxide_cast.StreamManager.Stop.Complete.{IsOff, stop_stream-IsOff}
use oxide_cast.StreamManager.Media.{has_key, packet_of, handle_media_data}
use oxide_cast.StreamManager.Media.Delivery.{address_of, handle_media_data-receive_datagram}
use oxide_cast.StreamManager.Counted.{IsCounted}
use oxide_cast.StreamManager.Counted.History.{
  Event, starts, joins, publishes, stops, run, run-IsCounted,
}

abbrev unknown : Stream
unknown = stream_row ("1080p" ∷ [])

abbrev place : Ipv4Addr × ℕ
place = (octets 239 255 0 2, 30000)

abbrev grouped : MulticastManager ℕ
grouped = (create_group net 10 0 "live" (Multicast.new multicast_config)).1

create_group-grouped :
    create_group net 10 0 "live" (Multicast.new multicast_config) ≡ (ok place, grouped)
unfolding create_group create_multicast_socket allocate_address find_address find_port address_at
    contains_key Multicast.new Allocator.new
create_group-grouped = refl

start_stream-unknown_example :
    let (r, s') = start_stream calls ids 0 1 (idle ("1080p" ∷ [])) in
    (r ≡ err (of_transcoder unknown_profile))
    × (s' ≡ half_started calls 0 unknown place grouped (idle ("1080p" ∷ [])))
    × ((ids' : FreshIds) (later : ℕ) → start_stream calls ids' later 1 s' ≡ (err already_live, s'))
    × ((later : ℕ) → stop_stream calls later 1 s' ≡ (ok tt, s'))
unfolding get contains_key
start_stream-unknown_example =
    start_stream-unknown calls (λ q. refl) ids 0 unknown place grouped (idle ("1080p" ∷ [])) refl
      refl refl create_group-grouped refl

-- The stream on air, a second later.
abbrev on_air : StreamManager crates
on_air = (start_stream calls ids 1_000_000_000 1 (idle ("720p" ∷ []))).1

abbrev info : ActiveStreamInfo ℕ
info = record {
  stream_id = 1;
  stream_key = "live";
  user_id = 5;
  title = "Title";
  multicast_address = "239.255.0.2";
  multicast_port = 30000;
  transcoding_job_id = some 20;
  started_at = 1_000_000_000;
  last_frame_at = 1_000_000_000;
  viewer_count = 0;
  total_viewers = 0;
  bitrate_kbps = 0;
  frame_rate = 0;
  resolution = (0, 0);
  is_recording = false;
  quality_profiles = "720p" ∷ [];
}

abbrev live : Stream
live = record (stream_row ("720p" ∷ [])) {
  is_live = true;
  updated_at = 1_000_000_000;
  started_at = some 1_000_000_000;
  multicast_address = some "239.255.0.2";
  multicast_port = some (pos 30000);
}

abbrev session : StreamSessionInfo ℕ
session = new_session 0 30 1 1_000_000_000

abbrev group : MulticastGroup
group = new_group 10 1_000_000_000 "live" (octets 239 255 0 2) 30000

on_air_facts :
    (get 1 on_air.active_streams ≡ some info)
    × (get 1 on_air.database.streams ≡ some live)
    × (get "live" on_air.multicast_manager.groups ≡ some group)
    × (get (octets 239 255 0 2) on_air.multicast_manager.sockets ≡ some 7)
    × (first_with (is_session_of 1) (values on_air.stream_sessions) ≡ some session)
    × (first_with (has_key "live") (values on_air.active_streams) ≡ some info)
    × ((finalize_writer files 2 "live" on_air.hls_server).0 ≡ ok tt)
    × (get 20 on_air.transcoder_manager.active_jobs
        ≡ some (new_job 0 20 1_000_000_000 (request_of live "239.255.0.2" 30000)))
    × (on_air.sequence_number ≡ 70000)
    × (on_air.webrtc_server.peer_connections ≡ [])
    × (contains_key 30 on_air.database.stream_sessions ≡ false)
unfolding start_stream start_row find_by_id start_streaming start_transcoding Hls.start_stream
    WebRtc.start_stream get insert modify values contains_key create_group create_multicast_socket
    allocate_address find_address find_port address_at Multicast.new Allocator.new finalize_writer
    finalize_current_segment update_playlist
on_air_facts = (refl, refl, refl, refl, refl, refl, refl, refl, refl, refl, refl)

handle_media_data-receive_datagram_example :
    let packet = packet_of 2_000_000_000 "live" (1 ∷ 2 ∷ []) video on_air.sequence_number in
    let (r, s') = handle_media_data calls 2_000_000_000 "live" (1 ∷ 2 ∷ []) video on_air in
    (r ≡ ok (some (packet_data packet, address_of group)))
    × (s'.sequence_number ≡ (on_air.sequence_number + 1) % 2 ^ 32)
    × ((receive_datagram "live"
          (new_video_track "live")
          (new_audio_track "live")
          (packet_data packet)
          s'.webrtc_server).0
        ≡ expected (new_video_track "live") (new_audio_track "live") packet video)
handle_media_data-receive_datagram_example =
    handle_media_data-receive_datagram calls 2_000_000_000 "live" (1 ∷ 2 ∷ []) video
      (new_video_track "live") (new_audio_track "live") info group 7 on_air
      (rw on_air_facts.8 (omega arith)) on_air_facts.5 on_air_facts.2 on_air_facts.3 refl

stop_stream-IsOff_example :
    let (r, s') = stop_stream calls 2 1 on_air in
    (r ≡ ok tt) × IsOff 1 "live" s' × (s'.stream_sessions ≡ on_air.stream_sessions)
stop_stream-IsOff_example =
    stop_stream-IsOff calls (λ q. refl) (λ p. refl) 2 20 live info
      (new_job 0 20 1_000_000_000 (request_of live "239.255.0.2" 30000)) session on_air
      on_air_facts.0 on_air_facts.1 refl on_air_facts.7 on_air_facts.6
      (rw on_air_facts.9 (record { ids = tt; unique = tt })) on_air_facts.4 on_air_facts.10

-- The job of the stream has been cleaned up.
abbrev lost : StreamManager crates
lost = record on_air { transcoder_manager = Transcoder.new (("720p", 0) ∷ []) 2 }

stop_stream-twice_example :
    let (r, s') = stop_stream calls 2 1 lost in
    (r ≡ err (of_transcoder job_not_found))
    × (s' ≡ half_stopped 2 live lost)
    × (stop_stream calls 3 1 s' ≡ (ok tt, s'))
unfolding get
stop_stream-twice_example =
    stop_stream-twice calls (λ q. refl) 2 3 20 live info lost on_air_facts.0 on_air_facts.1 refl
      refl

finalize_stream_session-twice_example :
    let (r, s') = finalize_stream_session calls 2 1 on_air in
    (r ≡ ok tt)
    × (get_row 30 s' ≡ some (session_row calls.to_json 2 1 session))
    × (finalize_stream_session calls 3 1 s'
        ≡ (err (of_database (query_failed Statement.insert_session)), s'))
finalize_stream_session-twice_example =
    finalize_stream_session-twice calls (λ q. refl) 2 3 1 session on_air on_air_facts.4
      on_air_facts.10 (contains_key_of_get 1 live on_air.database.streams on_air_facts.1)

abbrev viewer : ViewerInfo
viewer = record {
  id = 0;
  user_id = none;
  ip_address = "10.0.0.9";
  user_agent = none;
  joined_at = 0;
  connection_type = multicast;
  quality_profile = "720p";
  last_heartbeat = 0;
}

abbrev events : List (Event crates)
events =
    starts calls ids 0 1
    ∷ joins calls 40 1 1 viewer
    ∷ publishes calls 2 "live" (1 ∷ []) video
    ∷ stops (record calls { answers = λ q. false }) 3 1
    ∷ []

run-IsCounted_example :
    let s' = run events (idle ("720p" ∷ [])) in IsCounted s'.active_streams s'.viewer_tracking
run-IsCounted_example = run-IsCounted events (idle ("720p" ∷ [])) refl
