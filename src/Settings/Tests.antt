-- ===== src/Settings/Tests.antt =====
-- Settings that are valid.
use oxide_cast.Prelude.{ℕ, ◌≤◌, ◌≡◌, refl, true, false, none, [], ◌∷◌, ok}
use oxide_cast.Net.{Ipv4Addr, octets, v4, socket_addr}
use oxide_cast.Multicast.Allocator.{allocate_address}
use oxide_cast.Multicast.Allocator as Allocator
use oxide_cast.StreamManager.Samples.{types, multicast_config, hls_config}
use oxide_cast.Settings.{ConfigOps, AppConfig, stdout, validate}
use oxide_cast.Settings.Valid.{validate-allocate_address}

abbrev ops : ConfigOps types
ops = record { len = λ text. 32; exists = λ path. true; create_dir_all = λ path. true }

abbrev config : AppConfig types
config = record {
  server = record {
    host = v4 (octets 0 0 0 0);
    port = 8080;
    workers = none;
    max_connections = 10000;
    keep_alive = 30;
    secret_key = "key";
  };
  database = record {
    url = "postgresql://localhost";
    max_connections = 100;
    min_connections = 5;
    connect_timeout = 30;
    idle_timeout = 600;
  };
  auth = record {
    jwt_secret = "secret";
    jwt_expiry = 3600;
    refresh_expiry = 604800;
    bcrypt_cost = 12;
    require_email_verification = false;
  };
  rtmp = record {
    bind_address = socket_addr (v4 (octets 0 0 0 0)) 1935;
    chunk_size = 4096;
    max_connections = 1000;
    connection_timeout = 30;
    stream_timeout = 300;
    buffer_size = 1048576;
    enable_auth = true;
  };
  multicast = multicast_config;
  transcoding = record {
    ffmpeg_path = "ffmpeg" ∷ [];
    max_concurrent = 4;
    temp_dir = "tmp" ∷ [];
    hardware_acceleration = record { enabled = false; device = none; codec = none };
    video_codecs = [];
    audio_codecs = [];
    profiles = [];
  };
  webrtc = record {
    stun_servers = [];
    turn_servers = [];
    ice_timeout = 30;
    dtls_timeout = 30;
    max_bitrate = 5000;
    min_bitrate = 100;
    enable_simulcast = false;
  };
  hls = hls_config;
  storage = record {
    base_path = "storage" ∷ [];
    recordings_path = "recordings" ∷ [];
    thumbnails_path = "thumbnails" ∷ [];
    max_storage_size = 1000;
    cleanup_interval = 3600;
    enable_s3 = false;
    s3_config = none;
  };
  logging = record {
    level = "info";
    output = stdout;
    rotation = record { enabled = false; max_size = 1; max_age = 1; max_files = 1 };
  };
}

validate-allocate_address_example :
    ((pair : Ipv4Addr × ℕ) × ((allocate_address
          (Allocator.new (octets 239 255 0 1) (30000, 40000))).0
        ≡ ok pair))
    × (1 ≤ 4)
unfolding validate
validate-allocate_address_example = validate-allocate_address ops config refl
