-- ===== src/Hls/Writer.antt =====
-- `SegmentWriter` of src/hls_server.rs, with the table of streams that it shares with the server. A
-- step holds its locks all the time here, so the two reads of the table by `start_new_segment` agree.
pub mod Sequence
pub mod Data
use oxide_cast.Prelude.{
  ℕ, ◌+◌, ◌-◌, ◌*◌, ◌%◌, ◌^◌, Bool, true, false, Option, none, some, List, String, length, leb,
  if◌then◌else◌, Result, ok, err,
}
use oxide_cast.HashMap.{string_eq, HashMap, get, modify}
use oxide_cast.Net.{Ipv4Addr}
use oxide_cast.Hls.Stream.{Types, HlsConfig, HlsSegment, HlsStream, MediaPlaylist, push_segment}

pub data HlsError : Type 0 where
  stream_not_found io_error : HlsError

-- The file system and the socket of the receiver; `false` is an error.
pub record HlsCalls (T : Types) : Type 0 where
  pub create_dir_all : T.PathBuf → Bool
  pub create : T.PathBuf → Bool
  pub flush : T.PathBuf → Bool
  pub write_all : T.PathBuf → List ℕ → Bool
  pub write_playlist : T.PathBuf → MediaPlaylist T → Bool
  pub bind_and_join : Ipv4Addr → ℕ → Bool

-- An open file is its path.
pub record SegmentWriter (T : Types) : Type 0 where
  pub stream_key : String
  pub current_segment : Option (HlsSegment T)
  pub segment_file : Option T.PathBuf
  pub segment_start_time : Option ℕ
  pub bytes_written : ℕ

pub record WriterState (T : Types) : Type 0 where
  pub writer : SegmentWriter T
  pub streams : HashMap String (HlsStream T)

-- `a?; b` with a state.
abbrev pub and_then {ℓ κ} :
    {E : Type ℓ} {S : Type κ}
    → Result E (Unit {0}) × S
    → (S → Result E (Unit {0}) × S)
    → Result E (Unit {0}) × S
and_then (ok _, s) f = f s
and_then (err e, s) f = (err e, s)

abbrev pub Action : Types → Type 0
Action T = WriterState T → Result HlsError (Unit {0}) × WriterState T

-- `elapsed` is 0 when the clock went back.
abbrev pub measured : (T : Types) → ℕ → Option ℕ → T.Float → T.Float
measured T now none duration = duration
measured T now (some start) duration = T.as_secs_f32 (now - start)

module _ {T : Types} where
  abbrev pub new_writer : String → SegmentWriter T
  new_writer key = record {
    stream_key = key;
    current_segment = none;
    segment_file = none;
    segment_start_time = none;
    bytes_written = 0;
  }

  abbrev pub new_segment : ℕ → HlsStream T → HlsSegment T
  new_segment now stream = record {
    sequence_number = stream.current_sequence;
    duration = T.zero_f32;
    filename = T.segment_name stream.current_sequence;
    file_path = T.join stream.segments_dir (T.segment_name stream.current_sequence);
    size_bytes = 0;
    created_at = now;
    is_complete = false;
  }

  abbrev pub open_segment : ℕ → HlsSegment T → SegmentWriter T → SegmentWriter T
  open_segment now segment w = record w {
    current_segment = some segment;
    segment_file = some segment.file_path;
    segment_start_time = some now;
    bytes_written = 0;
  }

  unfoldable pub start_new_segment : HlsCalls T → ℕ → Action T
  start_new_segment calls now s = elim (get s.writer.stream_key s.streams) [
    | none ↦ (err stream_not_found, s)
    | some stream ↦
        if calls.create (new_segment now stream).file_path
        then (ok tt, record s { writer = open_segment now (new_segment now stream) s.writer })
        else (err io_error, s)
  ]

  abbrev pub completed : ℕ → SegmentWriter T → HlsSegment T → HlsSegment T
  completed now w segment = record segment {
    duration = measured T now w.segment_start_time segment.duration;
    size_bytes = w.bytes_written;
    is_complete = true;
  }

  abbrev pub flushes : HlsCalls T → Option T.PathBuf → Bool
  flushes calls none = true
  flushes calls (some file) = calls.flush file

  -- The current segment and its file are taken out before the flush may fail.
  unfoldable pub finalize_current_segment : HlsCalls T → ℕ → Action T
  finalize_current_segment calls now s =
      let w = s.writer in
      elim w.current_segment [
        | none ↦ (ok tt, s)
        | some segment ↦
            if flushes calls w.segment_file
            then (
              ok tt,
              record {
                writer = record w {
                  current_segment = none;
                  segment_file = none;
                  segment_start_time = none;
                };
                streams = modify w.stream_key (push_segment (completed now w segment)) s.streams;
              },
            )
            else (
              err io_error,
              record s { writer = record w { current_segment = none; segment_file = none } },
            )
      ]

  abbrev pub start_if_none : HlsCalls T → ℕ → Action T
  start_if_none calls now s = elim s.writer.current_segment [
    | none ↦ start_new_segment calls now s
    | some _ ↦ (ok tt, s)
  ]

  abbrev pub rotate : HlsConfig T → HlsCalls T → ℕ → Action T
  rotate config calls now s = elim s.writer.segment_start_time [
    | none ↦ (ok tt, s)
    | some start ↦
        if leb (config.segment_duration * 1_000_000_000) (now - start)
        then and_then (finalize_current_segment calls now s) (start_new_segment calls now)
        else (ok tt, s)
  ]

  abbrev pub append : HlsCalls T → List ℕ → Action T
  append calls bytes s = elim s.writer.segment_file [
    | none ↦ (ok tt, s)
    | some file ↦
        if calls.write_all file bytes
        then (
          ok tt,
          record s {
            writer = record s.writer {
              bytes_written = (s.writer.bytes_written + length bytes) % 2 ^ 64;
            };
          },
        )
        else (err io_error, s)
  ]

  unfoldable pub write_data : HlsConfig T → HlsCalls T → ℕ → List ℕ → Action T
  write_data config calls now bytes s =
      and_then (and_then (start_if_none calls now s) (rotate config calls now)) (append calls bytes)
