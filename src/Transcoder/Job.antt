-- ===== src/Transcoder/Job.antt =====
-- The data of src/transcoder.rs, with floats and paths as parameters.
use oxide_cast.Prelude.{ℕ, Bool, Option, none, some, List, [], String}
use oxide_cast.HashMap.{HashMap}

pub data InputSource (PathBuf : Type 0) : Type 0 where
  rtmp_source : String → InputSource PathBuf
  file_source : PathBuf → InputSource PathBuf
  network_source : String → InputSource PathBuf

pub data JobStatus : Type 0 where
  pending starting running completed failed cancelled : JobStatus

pub data OutputFormat : Type 0 where
  hls_output dash_output : ℕ → OutputFormat
  rtmp_output : String → OutputFormat
  multicast_output : String → ℕ → OutputFormat
  file_output : String → OutputFormat

pub record TranscodingProgress (Float : Type 0) : Type 0 where
  pub frames_processed : ℕ
  pub duration_processed : ℕ
  pub bitrate_kbps : ℕ
  pub fps : Float
  pub quality_score : Float
  pub cpu_usage : Float
  pub memory_usage : ℕ

pub record TranscodingRequest (PathBuf : Type 0) : Type 0 where
  pub stream_key : String
  pub input_source : InputSource PathBuf
  pub profiles : List String
  pub output_format : OutputFormat
  pub realtime : Bool
  pub hardware_acceleration : Bool

pub record TranscodingJob (Float PathBuf : Type 0) : Type 0 where
  pub id : ℕ
  pub stream_key : String
  pub input_source : InputSource PathBuf
  pub output_profiles : List String
  pub started_at : ℕ
  pub status : JobStatus
  pub progress : TranscodingProgress Float
  pub child_process : Option ℕ
  pub output_paths : HashMap String PathBuf

abbrev pub no_progress : {Float : Type 0} → Float → TranscodingProgress Float
no_progress zero_f32 = record {
  frames_processed = 0;
  duration_processed = 0;
  bitrate_kbps = 0;
  fps = zero_f32;
  quality_score = zero_f32;
  cpu_usage = zero_f32;
  memory_usage = 0;
}

-- The job of a request, as `start_transcoding` enters it.
abbrev pub new_job :
    {Float PathBuf : Type 0}
    → Float
    → ℕ
    → ℕ
    → TranscodingRequest PathBuf
    → TranscodingJob Float PathBuf
new_job zero_f32 id now request = record {
  id = id;
  stream_key = request.stream_key;
  input_source = request.input_source;
  output_profiles = request.profiles;
  started_at = now;
  status = pending;
  progress = no_progress zero_f32;
  child_process = none;
  output_paths = [];
}

abbrev pub set_status :
    {Float PathBuf : Type 0}
    → JobStatus
    → TranscodingJob Float PathBuf
    → TranscodingJob Float PathBuf
set_status status job = record job { status = status }

abbrev pub set_process :
    {Float PathBuf : Type 0} → ℕ → TranscodingJob Float PathBuf → TranscodingJob Float PathBuf
set_process pid job = record job { child_process = some pid; status = running }

abbrev pub set_progress :
    {Float PathBuf : Type 0}
    → TranscodingProgress Float
    → TranscodingJob Float PathBuf
    → TranscodingJob Float PathBuf
set_progress progress job = record job { progress = progress }
