-- ===== src/Settings.antt =====
-- The settings of src/config.rs as a whole, and `AppConfig::validate`. Floats and paths are those of
-- the HLS server.
pub mod Valid
mod Tests
use oxide_cast.Prelude.{
  ℕ, Bool, true, false, not, Option, String, List, ltb, leb, ◌==◌, Result, ok, err, guard, ◌>>=◌,
  ◌>>◌,
}
use oxide_cast.Net.{IpAddr, SocketAddr}
use oxide_cast.Config.{MulticastConfig}
use oxide_cast.Auth.{AuthConfig}
use oxide_cast.Hls.Stream.{Types, HlsConfig}
use oxide_cast.WebRtc.Stream.{WebRtcConfig}

pub record ServerConfig : Type 0 where
  pub host : IpAddr
  pub port : ℕ
  pub workers : Option ℕ
  pub max_connections : ℕ
  pub keep_alive : ℕ
  pub secret_key : String

pub record DatabaseConfig : Type 0 where
  pub url : String
  pub max_connections : ℕ
  pub min_connections : ℕ
  pub connect_timeout : ℕ
  pub idle_timeout : ℕ

pub record RtmpConfig : Type 0 where
  pub bind_address : SocketAddr
  pub chunk_size : ℕ
  pub max_connections : ℕ
  pub connection_timeout : ℕ
  pub stream_timeout : ℕ
  pub buffer_size : ℕ
  pub enable_auth : Bool

pub record HardwareAcceleration : Type 0 where
  pub enabled : Bool
  pub device : Option String
  pub codec : Option String

pub record VideoCodec : Type 0 where
  pub name : String
  pub encoder : String
  pub hardware : Bool
  pub options : List (String × String)

pub record AudioCodec : Type 0 where
  pub name : String
  pub encoder : String
  pub bitrate : ℕ
  pub channels : ℕ
  pub sample_rate : ℕ

pub record EncodingProfile (Float : Type 0) : Type 0 where
  pub name : String
  pub width : ℕ
  pub height : ℕ
  pub bitrate : ℕ
  pub framerate : Float
  pub keyframe_interval : ℕ
  pub audio_bitrate : ℕ

pub record S3Config : Type 0 where
  pub bucket : String
  pub region : String
  pub access_key : String
  pub secret_key : String
  pub endpoint : Option String

pub record LogRotation : Type 0 where
  pub enabled : Bool
  pub max_size : ℕ
  pub max_age : ℕ
  pub max_files : ℕ

module _ (T : Types) where
  pub record TranscodingConfig : Type 0 where
    pub ffmpeg_path : T.PathBuf
    pub max_concurrent : ℕ
    pub temp_dir : T.PathBuf
    pub hardware_acceleration : HardwareAcceleration
    pub video_codecs : List VideoCodec
    pub audio_codecs : List AudioCodec
    pub profiles : List (EncodingProfile T.Float)

  pub record StorageConfig : Type 0 where
    pub base_path : T.PathBuf
    pub recordings_path : T.PathBuf
    pub thumbnails_path : T.PathBuf
    pub max_storage_size : ℕ
    pub cleanup_interval : ℕ
    pub enable_s3 : Bool
    pub s3_config : Option S3Config

  pub data LogOutput : Type 0 where
    stdout : LogOutput
    file both : T.PathBuf → LogOutput

  pub record LoggingConfig : Type 0 where
    pub level : String
    pub output : LogOutput
    pub rotation : LogRotation

  pub record AppConfig : Type 0 where
    pub server : ServerConfig
    pub database : DatabaseConfig
    pub auth : AuthConfig
    pub rtmp : RtmpConfig
    pub multicast : MulticastConfig
    pub transcoding : TranscodingConfig
    pub webrtc : WebRtcConfig
    pub hls : HlsConfig T
    pub storage : StorageConfig
    pub logging : LoggingConfig

pub data ConfigError : Type 0 where
  short_secret empty_port_range no_jobs no_ffmpeg no_directory : ConfigError

-- `len()` of a string, `exists` and `create_dir_all`; a `false` of the last is an error.
pub record ConfigOps (T : Types) : Type 0 where
  pub len : String → ℕ
  pub exists : T.PathBuf → Bool
  pub create_dir_all : T.PathBuf → Bool

unfoldable pub validate : {T : Types} → ConfigOps T → AppConfig T → Result ConfigError (Unit {0})
validate ops config = do
  guard (not (ltb (ops.len config.auth.jwt_secret) 32)) short_secret
  guard (ltb config.multicast.port_range.0 config.multicast.port_range.1) empty_port_range
  guard (not (config.transcoding.max_concurrent == 0)) no_jobs
  guard (ops.exists config.transcoding.ffmpeg_path) no_ffmpeg
  guard (ops.create_dir_all config.transcoding.temp_dir) no_directory
  guard (ops.create_dir_all config.storage.base_path) no_directory
  guard (ops.create_dir_all config.storage.recordings_path) no_directory
  guard (ops.create_dir_all config.storage.thumbnails_path) no_directory
  guard (ops.create_dir_all config.hls.segment_directory) no_directory
