-- ===== src/Hls/Server.antt =====
-- `HlsServer` of src/hls_server.rs: the streams, their writers and the tasks in the background.
pub mod Events
pub mod Numbering
pub mod Writers
pub mod Streams
pub mod Stops
use oxide_cast.Prelude.{
  ℕ, Option, none, some, List, [], ◌∷◌, String, if◌then◌else◌, Result, ok, err,
}
use Prim.Native.String.{◌++◌ as append}
use oxide_cast.HashMap.{string_eq, HashMap, get, contains_key, insert, remove, modify, map_values}
use oxide_cast.Net.{Ipv4Addr}
use oxide_cast.Hls.Stream.{Types, HlsConfig, HlsStream, playlist_of, clean_stream, count_viewer}
use oxide_cast.Hls.Writer.{
  HlsError, stream_not_found, io_error, HlsCalls, SegmentWriter, WriterState, and_then, new_writer,
  finalize_current_segment, write_data,
}
use oxide_cast.Multicast.Packet.{Received, receive}

pub record HlsServer (T : Types) : Type 0 where
  pub config : HlsConfig T
  pub active_streams : HashMap String (HlsStream T)
  pub segment_writers : HashMap String (SegmentWriter T)

abbrev pub Answer : Types → Type 0
Answer T = Result HlsError (Unit {0}) × HlsServer T

module _ {T : Types} where
  abbrev pub new : HlsConfig T → HlsServer T
  new config = record { config = config; active_streams = []; segment_writers = [] }

  -- `update_playlist`, and the same for the task in the background; a stream that is not there has
  -- no playlist to write.
  unfoldable pub update_playlist : HlsCalls T → String → HlsServer T → Result HlsError (Unit {0})
  update_playlist calls key s = elim (get key s.active_streams) [
    | none ↦ ok tt
    | some stream ↦
        if calls.write_playlist stream.playlist_path (playlist_of stream)
        then ok tt
        else err io_error
  ]

  abbrev pub new_stream : HlsConfig T → ℕ → String → Ipv4Addr → ℕ → HlsStream T
  new_stream config now key address port =
      let stream_dir = T.join config.segment_directory key in
      record {
        stream_key = key;
        multicast_address = address;
        multicast_port = port;
        started_at = now;
        segments = [];
        current_sequence = 0;
        target_duration = T.from_u32 config.segment_duration;
        playlist_path = T.join stream_dir "playlist.m3u8";
        segments_dir = stream_dir;
        viewer_count = 0;
        total_duration = T.zero_f32;
      }

  abbrev pub enter_stream : ℕ → String → Ipv4Addr → ℕ → HlsServer T → HlsServer T
  enter_stream now key address port s = record s {
    active_streams = insert key (new_stream s.config now key address port) s.active_streams;
    segment_writers = insert key (new_writer key) s.segment_writers;
  }

  unfoldable pub start_stream : HlsCalls T → ℕ → String → Ipv4Addr → ℕ → HlsServer T → Answer T
  start_stream calls now key address port s =
      let s' = enter_stream now key address port s in
      if calls.create_dir_all (T.join s.config.segment_directory key)
      then (if calls.bind_and_join address port
          then (update_playlist calls key s', s')
          else (err io_error, s'))
      else (err io_error, s)

  -- Where a step of the writer leaves the server.
  abbrev pub put_back : String → WriterState T → HlsServer T → HlsServer T
  put_back key ws s = record s {
    active_streams = ws.streams;
    segment_writers = insert key ws.writer s.segment_writers;
  }

  unfoldable pub finalize_writer : HlsCalls T → ℕ → String → HlsServer T → Answer T
  finalize_writer calls now key s = elim (get key s.segment_writers) [
    | none ↦ (ok tt, s)
    | some w ↦
        let (r, ws) =
          finalize_current_segment calls now (record { writer = w; streams = s.active_streams }) in
        (r, put_back key ws s)
  ]

  abbrev pub drop_stream : String → HlsServer T → HlsServer T
  drop_stream key s = record s {
    active_streams = remove key s.active_streams;
    segment_writers = remove key s.segment_writers;
  }

  unfoldable pub stop_stream : HlsCalls T → ℕ → String → HlsServer T → Answer T
  stop_stream calls now key s =
      and_then (finalize_writer calls now key s)
        λ s'. let s'' = drop_stream key s' in (update_playlist calls key s'', s'')

  -- One datagram of the receiver's loop; an error of the writer is only logged.
  unfoldable pub receive_datagram : HlsCalls T → ℕ → String → List ℕ → HlsServer T → HlsServer T
  receive_datagram calls now key datagram s = elim (receive datagram) [
    | none ↦ s
    | some packet ↦ elim (get key s.segment_writers) [
      | none ↦ s
      | some w ↦
          let (r, ws) =
            write_data s.config calls now packet.payload
              (record { writer = w; streams = s.active_streams }) in
          put_back key ws s
    ]
  ]

  -- One tick of `cleanup_task`.
  unfoldable pub cleanup : ℕ → HlsServer T → HlsServer T
  cleanup now s = record s {
    active_streams = map_values (clean_stream s.config now) s.active_streams;
  }

  -- It never fails.
  unfoldable pub track_viewer : String → HlsServer T → HlsServer T
  track_viewer key s = record s { active_streams = modify key count_viewer s.active_streams }

  unfoldable pub get_stream_url : String → HlsServer T → Result HlsError String
  get_stream_url key s =
      if contains_key key s.active_streams
      then ok (append "/api/v1/hls/" (append key "/playlist.m3u8"))
      else err stream_not_found
