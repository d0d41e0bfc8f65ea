-- ===== src/StreamManager/Viewers.antt =====
-- The viewers of src/stream_manager.rs: who joins and leaves, how they are counted, the tasks in the
-- background, and what is told of a stream that is on air.
use oxide_cast.Prelude.{
  ℕ, ◌+◌, ◌-◌, ◌/◌, ◌%◌, ◌^◌, Bool, not, Option, none, some, List, [], ◌∷◌, String, length, ltb,
  if◌then◌else◌, as_i32,
}
use oxide_cast.Action.{Action, ◌>>=◌, ◌>>◌, pure, require_some, gets, changes}
use oxide_cast.HashMap.{string_eq, nat_eq, HashMap, get, insert, remove, modify, map_values, retain}
use oxide_cast.Net.{SocketAddr, socket_addr, socket_addr_eq}
use oxide_cast.Database.{Stream, Database, DbError, Answers}
use oxide_cast.Database.Streams
use oxide_cast.Multicast.Manager as Multicast
use oxide_cast.StreamManager.State.{
  Crates, Calls, ActiveStreamInfo, ViewerInfo, ViewerTracking, ViewerSession, stream_not_found,
  bad_address, StreamManager, Does, in_database, in_multicast, on_multicast,
}

abbrev pub new_viewer : {Float : Type 0} → Float → ℕ → ℕ → String → ViewerSession Float
new_viewer zero_f32 viewer_id now quality_profile = record {
  viewer_id = viewer_id;
  joined_at = now;
  last_activity = now;
  bytes_received = 0;
  quality_profile = quality_profile;
  connection_quality = record {
    latency_ms = 0;
    packet_loss = zero_f32;
    jitter_ms = 0;
    bandwidth_kbps = 0;
  };
}

abbrev pub higher : ℕ → ℕ → ℕ
higher count peak = if ltb peak count then count else peak

-- `total_join_count` is a usize.
abbrev pub join :
    {Float : Type 0}
    → SocketAddr
    → ViewerSession Float
    → ViewerTracking Float
    → ViewerTracking Float
join addr viewer t =
    let viewers = insert addr viewer t.viewers in
    record t {
      viewers = viewers;
      total_join_count = (t.total_join_count + 1) % 2 ^ 64;
      peak_concurrent = higher (length viewers) t.peak_concurrent;
    }

abbrev pub leave : {Float : Type 0} → SocketAddr → ViewerTracking Float → ViewerTracking Float
leave addr t = record t { viewers = remove addr t.viewers }

abbrev pub count_of : {Float : Type 0} → Option (ViewerTracking Float) → ℕ
count_of none = 0
count_of (some t) = length t.viewers

abbrev pub set_viewers : {Float : Type 0} → ℕ → ActiveStreamInfo Float → ActiveStreamInfo Float
set_viewers n info = record info { viewer_count = n }

-- 300 seconds, in whole seconds; a clock that went back gives no age.
abbrev pub is_active : {Float : Type 0} → ℕ → ViewerSession Float → Bool
is_active now viewer = not (ltb 300 ((now - viewer.last_activity) / 1_000_000_000))

abbrev pub drop_inactive : {Float : Type 0} → ℕ → ViewerTracking Float → ViewerTracking Float
drop_inactive now t = record t { viewers = retain (is_active now) t.viewers }

abbrev pub is_silent : {Float : Type 0} → ℕ → ActiveStreamInfo Float → Bool
is_silent now info = ltb 60 ((now - info.last_frame_at) / 1_000_000_000)

abbrev pub silent_ids : {Float : Type 0} → ℕ → HashMap ℕ (ActiveStreamInfo Float) → List ℕ
silent_ids now [] = []
silent_ids now ((id, info) ∷ m) =
    let rest = silent_ids now m in if is_silent now info then id ∷ rest else rest

abbrev pub end_row :
    {Json : Type 0} → Answers → ℕ → Option Stream → Action DbError (Database Json) (Unit {0})
end_row answers now none = pure tt
end_row answers now (some stream) = Streams.stop_streaming answers now stream

-- An error is dropped, and so is a stream that is not in the database.
unfoldable pub mark_offline : {Json : Type 0} → Answers → ℕ → ℕ → Database Json → Database Json
mark_offline answers now stream_id db =
    ((Streams.find_by_id answers stream_id >>= end_row answers now) db).1

unfoldable pub mark_all : {Json : Type 0} → Answers → ℕ → List ℕ → Database Json → Database Json
mark_all answers now [] db = db
mark_all answers now (id ∷ ids) db = mark_all answers now ids (mark_offline answers now id db)

module _ {X : Crates} where
  abbrev pub tracked_count : ℕ → StreamManager X → ℕ
  tracked_count stream_id s = count_of (get stream_id s.viewer_tracking)

  abbrev pub show_count : ℕ → ℕ → StreamManager X → StreamManager X
  show_count stream_id n s = record s {
    active_streams = modify stream_id (set_viewers n) s.active_streams;
  }

  unfoldable pub store_count : Calls X → ℕ → ℕ → ℕ → Does X (Unit {0})
  store_count calls now stream_id n = do
    found ← in_database (Streams.find_by_id calls.answers stream_id)
    stream ← require_some found stream_not_found
    in_database (Streams.update_viewer_count calls.answers now (as_i32 n) stream)

  unfoldable pub update_viewer_count : Calls X → ℕ → ℕ → Does X (Unit {0})
  update_viewer_count calls now stream_id = do
    n ← gets (tracked_count stream_id)
    changes (show_count stream_id n)
    store_count calls now stream_id n

  abbrev pub track :
      ℕ
      → (ViewerTracking X.hls_types.Float → ViewerTracking X.hls_types.Float)
      → StreamManager X
      → StreamManager X
  track stream_id change s = record s {
    viewer_tracking = modify stream_id change s.viewer_tracking;
  }

  -- A change of the tracking, and the count that follows it.
  unfoldable pub retrack :
      Calls X
      → ℕ
      → ℕ
      → (ViewerTracking X.hls_types.Float → ViewerTracking X.hls_types.Float)
      → Does X (Unit {0})
  retrack calls now stream_id change = do
    changes (track stream_id change)
    update_viewer_count calls now stream_id

  -- From the address of the viewer on.
  unfoldable pub admit :
      Calls X → ℕ → ℕ → ℕ → ViewerInfo → ActiveStreamInfo X.hls_types.Float → SocketAddr → Does X ℕ
  admit calls fresh_id now stream_id viewer_info info addr = do
    viewer_id ←
        in_multicast
          (Multicast.add_viewer fresh_id now info.stream_key addr viewer_info.quality_profile)
    retrack calls now stream_id
        (join addr (new_viewer X.hls_types.zero_f32 viewer_id now viewer_info.quality_profile))
    pure viewer_id

  -- The id is the one that the multicast layer makes; the port is 8000.
  unfoldable pub add_viewer : Calls X → ℕ → ℕ → ℕ → ViewerInfo → Does X ℕ
  add_viewer calls fresh_id now stream_id viewer_info = do
    found ← gets (λ s. get stream_id s.active_streams)
    info ← require_some found stream_not_found
    ip ← require_some (calls.parse_ip viewer_info.ip_address) bad_address
    admit calls fresh_id now stream_id viewer_info info (socket_addr ip 8000)

  abbrev pub remove_found :
      Calls X → ℕ → ℕ → SocketAddr → Option (ActiveStreamInfo X.hls_types.Float) → Does X (Unit {0})
  remove_found calls now stream_id addr none = pure tt
  remove_found calls now stream_id addr (some info) = do
    on_multicast (Multicast.remove_viewer info.stream_key addr)
    retrack calls now stream_id (leave addr)

  unfoldable pub remove_viewer : Calls X → ℕ → ℕ → SocketAddr → Does X (Unit {0})
  remove_viewer calls now stream_id addr = do
    found ← gets (λ s. get stream_id s.active_streams)
    remove_found calls now stream_id addr found

  -- One tick of `stream_health_monitor`, which has the active streams and the database only.
  unfoldable pub stream_health_monitor : Answers → ℕ → StreamManager X → StreamManager X
  stream_health_monitor answers now s = record s {
    database = mark_all answers now (silent_ids now s.active_streams) s.database;
  }

  -- One tick of `viewer_cleanup_task`, which has the viewer tracking only.
  unfoldable pub viewer_cleanup : ℕ → StreamManager X → StreamManager X
  viewer_cleanup now s = record s {
    viewer_tracking = map_values (drop_inactive now) s.viewer_tracking;
  }
