-- ===== src/Hls/Tests.antt =====
-- Concrete runs of the HLS server, and its theorems at concrete inputs.
use oxide_cast.Prelude.{
  ℕ, ◌+◌, ◌*◌, ◌≡◌, refl, true, false, some, none, List, [], ◌∷◌, ◌++◌, String, length, drop,
  replicate, ok, err, arith, ◌==◌, if◌then◌else◌,
}
use oxide_cast.HashMap.{string_eq, get, insert, modify}
use oxide_cast.Net.{octets}
use oxide_cast.Multicast.Packet.{receive}
use oxide_cast.Hls.Stream.{Types, HlsConfig, HlsSegment, HlsStream, playlist_of}
use oxide_cast.Hls.Writer.{
  HlsCalls, start_new_segment, finalize_current_segment, write_data, io_error,
}
use oxide_cast.Hls.Server.{
  HlsServer, new, new_stream, start_stream, stop_stream, finalize_writer, receive_datagram,
}
use oxide_cast.Hls.Server.Events.{Event, starts, receives, step, run}
use oxide_cast.Hls.Server.Streams.{Numbers, run-new-Numbers}
use oxide_cast.Hls.Server.Stops.{
  start_stream_leaves, with_playlist, stop_stream_silent, stop_stream_removes,
}

-- Whole seconds for floats, and lists of names for paths.
abbrev types : Types
types = record {
  Float = ℕ;
  PathBuf = List String;
  zero_f32 = 0;
  from_u32 = λ n. n;
  as_secs_f32 = λ n. n;
  add_f32 = λ a b. a + b;
  join = λ path name. path ++ (name ∷ []);
  segment_name = λ n. if n == 0 then "segment_000000.ts" else "segment_000001.ts";
}

abbrev config : HlsConfig types
config = record {
  segment_duration = 6;
  playlist_length = 1;
  segment_directory = "hls" ∷ [];
  cleanup_interval = 60;
  enable_low_latency = false;
  partial_segment_duration = 1;
}

abbrev calls : HlsCalls types
calls = record {
  create_dir_all = λ path. true;
  create = λ path. true;
  flush = λ path. true;
  write_all = λ path bytes. true;
  write_playlist = λ path playlist. true;
  bind_and_join = λ address port. true;
}

abbrev no_socket : HlsCalls types
no_socket = record calls { bind_and_join = λ address port. false }

abbrev datagram : List ℕ
datagram = replicate 16 0 ++ (7 ∷ [])

abbrev second : ℕ
second = 1000000000

abbrev opened : HlsStream types
opened = new_stream config 0 "live" (octets 239 255 0 2) 30000

abbrev segment : ℕ → String → ℕ → HlsSegment types
segment n name t = record {
  sequence_number = n;
  duration = 6 * second;
  filename = name;
  file_path = "hls" ∷ "live" ∷ name ∷ [];
  size_bytes = 1;
  created_at = t;
  is_complete = true;
}

abbrev played : HlsStream types
played = record opened {
  segments = segment 0 "segment_000000.ts" 0 ∷ segment 1 "segment_000001.ts" (6 * second) ∷ [];
  current_sequence = 2;
  total_duration = 12 * second;
}

abbrev history : List (ℕ × Event types)
history =
    (0, starts calls "live" (octets 239 255 0 2) 30000)
    ∷ (0, receives calls "live" datagram)
    ∷ (6 * second, receives calls "live" datagram)
    ∷ (12 * second, receives calls "live" datagram)
    ∷ []

-- A segment is closed with the first datagram after its six seconds.
played-run : get "live" (run history (new config)).active_streams ≡ some played
unfolding run step start_stream receive_datagram receive write_data start_new_segment
    finalize_current_segment get insert modify
played-run = refl

run-new-Numbers_example : Numbers 0 played.segments × (length (playlist_of played).segments ≡ 2)
unfolding playlist_of
run-new-Numbers_example =
    run-new-Numbers config 0 history "live" played
      (omega arith, (omega arith, (omega arith, (omega arith, tt)))) (omega arith) played-run

start_stream_leaves_example :
    let (r, s) = start_stream no_socket 0 "live" (octets 239 255 0 2) 30000 (new config) in
    (r ≡ err io_error) × (get "live" s.active_streams ≡ some opened)
start_stream_leaves_example =
    start_stream_leaves no_socket 0 "live" (octets 239 255 0 2) 30000 (new config) refl refl

abbrev playing : HlsServer types
playing = run history (new config)

stop_stream_silent_example :
    stop_stream (with_playlist (λ path playlist. false) calls) second "live" playing
    ≡ stop_stream calls second "live" playing
stop_stream_silent_example = stop_stream_silent (λ path playlist. false) calls second "live" playing

finalize-playing : (finalize_writer calls second "live" playing).0 ≡ ok tt
unfolding run step start_stream receive_datagram receive write_data start_new_segment
    finalize_current_segment finalize_writer get insert modify
finalize-playing = refl

stop_stream_removes_example :
    let (r, s) = stop_stream calls second "live" playing in
    (r ≡ ok tt) × (get "live" s.active_streams ≡ none) × (get "live" s.segment_writers ≡ none)
stop_stream_removes_example = stop_stream_removes calls second "live" playing finalize-playing

-- The older of the two segments goes.
abbrev cleaned : HlsStream types
cleaned = record played { segments = drop 1 played.segments }
