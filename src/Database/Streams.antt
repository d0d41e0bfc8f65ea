-- ===== src/Database/Streams.antt =====
-- `impl Stream` of src/database.rs.
use oxide_cast.Prelude.{
  ℕ, Bool, true, false, not, ◌&&◌, Option, none, some, String, if◌then◌else◌, ℤ, pos, ltb_int,
}
use oxide_cast.Action.{Action, ◌>>=◌, ◌>>◌, pure, require, gets, changes}
use oxide_cast.HashMap.{string_eq, nat_eq, ◌==◌, get, contains_key, insert, values}
use oxide_cast.Database.{
  Stream, CreateStreamRequest, UpdateStreamRequest, Database, DbError, query_failed, Answers,
  select_stream, select_by_key, insert_stream, update_stream, set_live, set_ended, set_count,
  or_else, or_some, first_with, query, update_row,
}

-- The row of `Stream::create`.
abbrev pub created : ℕ → ℕ → ℕ → String → CreateStreamRequest → Stream
created id now user_id stream_key req = record {
  id = id;
  user_id = user_id;
  title = req.title;
  description = req.description;
  category = req.category;
  is_live = false;
  is_private = req.is_private;
  stream_key = stream_key;
  multicast_address = none;
  multicast_port = none;
  created_at = now;
  updated_at = now;
  started_at = none;
  ended_at = none;
  viewer_count = pos 0;
  max_viewers = pos 0;
  thumbnail_url = none;
  recording_enabled = req.recording_enabled;
  transcoding_profiles = req.transcoding_profiles;
}

abbrev pub with_request : UpdateStreamRequest → Stream → Stream
with_request req stream = record stream {
  title = or_else req.title stream.title;
  description = or_some req.description stream.description;
  category = or_some req.category stream.category;
  is_private = or_else req.is_private stream.is_private;
  recording_enabled = or_else req.recording_enabled stream.recording_enabled;
  transcoding_profiles = or_else req.transcoding_profiles stream.transcoding_profiles;
}

-- The columns that `Stream::update` writes, from the row that was read and changed.
abbrev pub written : Stream → Stream → Stream
written new row = record row {
  title = new.title;
  description = new.description;
  category = new.category;
  is_private = new.is_private;
  recording_enabled = new.recording_enabled;
  transcoding_profiles = new.transcoding_profiles;
}

abbrev pub has_key : String → Stream → Bool
has_key key stream = stream.stream_key == key

abbrev pub go_live : ℕ → String → ℤ → Stream → Stream
go_live now address port row = record row {
  is_live = true;
  started_at = some now;
  multicast_address = some address;
  multicast_port = some port;
}

abbrev pub go_off : ℕ → Stream → Stream
go_off now row = record row { is_live = false; ended_at = some now }

abbrev pub max_int : ℤ → ℤ → ℤ
max_int old count = if ltb_int old count then count else old

abbrev pub set_counts : ℤ → ℤ → Stream → Stream
set_counts count highest row = record row { viewer_count = count; max_viewers = highest }

module _ {Json : Type 0} where
  unfoldable pub find_by_id : Answers → ℕ → Action DbError (Database Json) (Option Stream)
  find_by_id answers id = query answers select_stream >> gets (λ db. get id db.streams)

  unfoldable pub find_by_stream_key :
      Answers → String → Action DbError (Database Json) (Option Stream)
  find_by_stream_key answers key =
      query answers select_by_key >> gets (λ db. first_with (has_key key) (values db.streams))

  abbrev pub is_free : ℕ → String → Database Json → Bool
  is_free id key db =
      not (contains_key id db.streams)
      && (elim (first_with (has_key key) (values db.streams)) [ none ↦ true | some _ ↦ false ])

  -- The id and the key are fresh ids; both are unique in the table.
  unfoldable pub create :
      Answers → ℕ → ℕ → ℕ → String → CreateStreamRequest → Action DbError (Database Json) Stream
  create answers id now user_id stream_key req = do
    query answers insert_stream
    free ← gets (is_free id stream_key)
    require free (query_failed insert_stream)
    changes
        (λ db. record db { streams = insert id (created id now user_id stream_key req) db.streams })
    pure (created id now user_id stream_key req)

  unfoldable pub update :
      Answers → ℕ → UpdateStreamRequest → Stream → Action DbError (Database Json) Stream
  update answers now req stream = do
    let new = record (with_request req stream) { updated_at = now }
    query answers update_stream
    changes (update_row now stream.id (written new))
    pure new

  unfoldable pub start_streaming :
      Answers → ℕ → String → ℤ → Stream → Action DbError (Database Json) (Unit {0})
  start_streaming answers now address port stream = do
    query answers set_live
    changes (update_row now stream.id (go_live now address port))

  unfoldable pub stop_streaming : Answers → ℕ → Stream → Action DbError (Database Json) (Unit {0})
  stop_streaming answers now stream = do
    query answers set_ended
    changes (update_row now stream.id (go_off now))

  unfoldable pub update_viewer_count :
      Answers → ℕ → ℤ → Stream → Action DbError (Database Json) (Unit {0})
  update_viewer_count answers now count stream = do
    query answers set_count
    changes (update_row now stream.id (set_counts count (max_int stream.max_viewers count)))
