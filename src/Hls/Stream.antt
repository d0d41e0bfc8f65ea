-- ===== src/Hls/Stream.antt =====
-- `HlsConfig` of src/config.rs, `HlsStream` and `HlsSegment` of src/hls_server.rs, the playlist of a
-- stream and the clean-up of its segments. Times are in nanoseconds.
pub mod Numbering
use oxide_cast.Prelude.{
  ℕ, ◌+◌, ◌-◌, ◌*◌, ◌/◌, ◌%◌, ◌^◌, Bool, true, not, List, [], ◌∷◌, ◌++◌, String, length, drop, ltb,
  if◌then◌else◌,
}
use oxide_cast.Net.{Ipv4Addr}

-- `f32` and `PathBuf` with what the code uses of them. `segment_name` is
-- `format!("segment_{:06}.ts", n)`, and `as_secs_f32` takes nanoseconds.
pub record Types : Type 1 where
  pub Float : Type 0
  pub PathBuf : Type 0
  pub zero_f32 : Float
  pub from_u32 : ℕ → Float
  pub as_secs_f32 : ℕ → Float
  pub add_f32 : Float → Float → Float
  pub join : PathBuf → String → PathBuf
  pub segment_name : ℕ → String

module _ (T : Types) where
  pub record HlsConfig : Type 0 where
    pub segment_duration : ℕ
    pub playlist_length : ℕ
    pub segment_directory : T.PathBuf
    pub cleanup_interval : ℕ
    pub enable_low_latency : Bool
    pub partial_segment_duration : T.Float

  pub record HlsSegment : Type 0 where
    pub sequence_number : ℕ
    pub duration : T.Float
    pub filename : String
    pub file_path : T.PathBuf
    pub size_bytes : ℕ
    pub created_at : ℕ
    pub is_complete : Bool

  pub record HlsStream : Type 0 where
    pub stream_key : String
    pub multicast_address : Ipv4Addr
    pub multicast_port : ℕ
    pub started_at : ℕ
    pub segments : List HlsSegment
    pub current_sequence : ℕ
    pub target_duration : T.Float
    pub playlist_path : T.PathBuf
    pub segments_dir : T.PathBuf
    pub viewer_count : ℕ
    pub total_duration : T.Float

  -- What the code sets of `MediaSegment` and `MediaPlaylist` of m3u8_rs; the version is 3.
  pub record MediaSegment : Type 0 where
    pub uri : String
    pub duration : T.Float

  pub record MediaPlaylist : Type 0 where
    pub target_duration : T.Float
    pub version : ℕ
    pub sequence : ℕ
    pub segments : List MediaSegment

module _ {T : Types} where
  abbrev pub media_segment : HlsSegment T → MediaSegment T
  media_segment s = record { uri = s.filename; duration = s.duration }

  unfoldable pub media_segments : List (HlsSegment T) → List (MediaSegment T)
  media_segments [] = []
  media_segments (s ∷ segments) =
      let rest = media_segments segments in if s.is_complete then media_segment s ∷ rest else rest

  unfoldable pub playlist_of : HlsStream T → MediaPlaylist T
  playlist_of stream = record {
    target_duration = stream.target_duration;
    version = 3;
    sequence = stream.current_sequence - length stream.segments;
    segments = media_segments stream.segments;
  }

  -- The last steps of `finalize_current_segment`; the u64 counter wraps.
  abbrev pub push_segment : HlsSegment T → HlsStream T → HlsStream T
  push_segment segment stream = record stream {
    segments = stream.segments ++ (segment ∷ []);
    current_sequence = (stream.current_sequence + 1) % 2 ^ 64;
    total_duration = T.add_f32 stream.total_duration segment.duration;
  }

  -- The age in whole seconds, against twice the interval of the clean-up (which is below 2 ^ 62).
  abbrev pub is_old : ℕ → ℕ → HlsSegment T → Bool
  is_old now interval segment = ltb (interval * 2) ((now - segment.created_at) / 1_000_000_000)

  unfoldable pub retain_young : ℕ → ℕ → List (HlsSegment T) → List (HlsSegment T)
  retain_young now interval [] = []
  retain_young now interval (s ∷ segments) =
      let rest = retain_young now interval segments in
      if not (is_old now interval s) then s ∷ rest else rest

  -- `segments.drain(0..segments.len() - max)` if there are more than `max`.
  abbrev pub keep_last : ℕ → List (HlsSegment T) → List (HlsSegment T)
  keep_last max segments = drop (length segments - max) segments

  abbrev pub clean_stream : HlsConfig T → ℕ → HlsStream T → HlsStream T
  clean_stream config now stream = record stream {
    segments =
        retain_young now config.cleanup_interval (keep_last config.playlist_length stream.segments);
  }

  abbrev pub count_viewer : HlsStream T → HlsStream T
  count_viewer stream = record stream { viewer_count = (stream.viewer_count + 1) % 2 ^ 64 }
