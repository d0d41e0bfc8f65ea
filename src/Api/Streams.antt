-- ===== src/Api/Streams.antt =====
-- The handlers of src/api/streams.rs that change a stream, with the responses that they give.
pub mod Owners
pub mod Silent
use oxide_cast.Prelude.{
  ℕ, Bool, true, false, not, ◌||◌, ◌&&◌, Option, none, some, List, [], ◌∷◌, String, ltb, ◌==◌,
  if◌then◌else◌, Result, ok, err, ℤ,
}
use oxide_cast.Action.{
  Action, ◌>>=◌, ◌>>◌, pure, require, require_some, gets, changes, within, on_result, map_err,
}
use oxide_cast.HashMap.{HashMap, nat_eq, get, remove, retain}
use oxide_cast.Auth.{AuthenticatedUser}
use oxide_cast.Database.{
  Stream, StreamSession, CreateStreamRequest, UpdateStreamRequest, Database, DbError, delete_stream,
  Answers, query, or_else,
}
use oxide_cast.Database.Streams
use oxide_cast.StreamManager.State.{Crates, Calls, StreamError, StreamManager}
use oxide_cast.StreamManager.Streams.{FreshIds}
use oxide_cast.StreamManager.Streams as OnAir
use oxide_cast.StreamManager.Stop as OffAir

pub record StreamUrls : Type 0 where
  pub multicast : Option String
  pub webrtc : Option String
  pub hls : Option String

pub record StreamResponse : Type 0 where
  pub id : ℕ
  pub title : String
  pub description : Option String
  pub category : Option String
  pub is_live : Bool
  pub is_private : Bool
  pub viewer_count : ℤ
  pub max_viewers : ℤ
  pub started_at : Option ℕ
  pub created_at : ℕ
  pub thumbnail_url : Option String
  pub stream_urls : Option StreamUrls

pub record CreateStreamRequestApi : Type 0 where
  pub title : String
  pub description : Option String
  pub category : Option String
  pub is_private : Option Bool
  pub recording_enabled : Option Bool
  pub transcoding_profiles : Option (List String)

pub record UpdateStreamRequestApi : Type 0 where
  pub title : Option String
  pub description : Option String
  pub category : Option String
  pub is_private : Option Bool
  pub recording_enabled : Option Bool
  pub transcoding_profiles : Option (List String)

-- The statuses of the errors: 404, 403, 400 and 500.
pub data ApiError : Type 0 where
  not_found forbidden bad_request internal_server_error : ApiError

-- `trim().is_empty()` and `len()` of a string.
pub record TextOps : Type 0 where
  pub is_blank : String → Bool
  pub len : String → ℕ

abbrev pub response_of : Option StreamUrls → Stream → StreamResponse
response_of urls stream = record {
  id = stream.id;
  title = stream.title;
  description = stream.description;
  category = stream.category;
  is_live = stream.is_live;
  is_private = stream.is_private;
  viewer_count = stream.viewer_count;
  max_viewers = stream.max_viewers;
  started_at = stream.started_at;
  created_at = stream.created_at;
  thumbnail_url = stream.thumbnail_url;
  stream_urls = urls;
}

abbrev pub is_title : TextOps → String → Bool
is_title ops title = not (ops.is_blank title || ltb 255 (ops.len title))

abbrev pub is_new_title : TextOps → Option String → Bool
is_new_title ops none = true
is_new_title ops (some title) = is_title ops title

abbrev pub create_request : CreateStreamRequestApi → CreateStreamRequest
create_request request = record {
  title = request.title;
  description = request.description;
  category = request.category;
  is_private = or_else request.is_private false;
  recording_enabled = or_else request.recording_enabled false;
  transcoding_profiles = or_else request.transcoding_profiles ("720p" ∷ []);
}

abbrev pub update_request : UpdateStreamRequestApi → UpdateStreamRequest
update_request request = record {
  title = request.title;
  description = request.description;
  category = request.category;
  is_private = request.is_private;
  recording_enabled = request.recording_enabled;
  transcoding_profiles = request.transcoding_profiles;
}

-- The row goes, and with it the sessions that refer to it.
abbrev pub delete_row : {Json : Type 0} → ℕ → Database Json → Database Json
delete_row id db = record db {
  streams = remove id db.streams;
  stream_sessions = retain (λ row. not (row.stream_id == id)) db.stream_sessions;
}

abbrev pub Handler : Crates → Type 0 → Type 0
Handler X A = Action ApiError (StreamManager X) A

module _ {X : Crates} {A : Type 0} where
  -- Every error of the database and of the manager is a 500.
  abbrev pub on_database : Action DbError (Database X.Json) A → Handler X A
  on_database =
      within (λ s. s.database) (λ db s. record s { database = db }) (λ e. internal_server_error)

  abbrev pub on_manager : Action StreamError (StreamManager X) A → Handler X A
  on_manager = within (λ s. s) (λ t s. t) (λ e. internal_server_error)

  -- A failure is only logged.
  abbrev pub attempt : Action StreamError (StreamManager X) A → Handler X (Unit {0})
  attempt m s = (ok tt, (m s).1)

module _ {X : Crates} where
  unfoldable pub find_stream : Calls X → ℕ → ApiError → Handler X Stream
  find_stream calls stream_id missing = do
    found ← on_database (Streams.find_by_id calls.answers stream_id)
    require_some found missing

  -- The stream of the request, which the user must own.
  unfoldable pub find_own : Calls X → AuthenticatedUser → ℕ → Handler X Stream
  find_own calls user stream_id = do
    stream ← find_stream calls stream_id not_found
    require (stream.user_id == user.id) forbidden
    pure stream

  unfoldable pub create_stream :
      TextOps
      → Calls X
      → ℕ
      → String
      → ℕ
      → AuthenticatedUser
      → CreateStreamRequestApi
      → Handler X StreamResponse
  create_stream ops calls id key now user request = do
    require (is_title ops request.title) bad_request
    stream ← on_database (Streams.create calls.answers id now user.id key (create_request request))
    pure (response_of none stream)

  unfoldable pub update_stream :
      TextOps
      → Calls X
      → ℕ
      → AuthenticatedUser
      → ℕ
      → UpdateStreamRequestApi
      → Handler X StreamResponse
  update_stream ops calls now user stream_id request = do
    stream ← find_own calls user stream_id
    require (is_new_title ops request.title) bad_request
    new ← on_database (Streams.update calls.answers now (update_request request) stream)
    pure (response_of none new)

  abbrev pub stop_if : Bool → Calls X → ℕ → ℕ → Handler X (Unit {0})
  stop_if true calls now stream_id = attempt (OffAir.stop_stream calls now stream_id)
  stop_if false calls now stream_id = pure tt

  abbrev pub delete_statement : Calls X → ℕ → Handler X (Unit {0})
  delete_statement calls stream_id =
      on_database (query calls.answers delete_stream >> changes (delete_row stream_id))

  unfoldable pub delete_stream_handler : Calls X → ℕ → AuthenticatedUser → ℕ → Handler X (Unit {0})
  delete_stream_handler calls now user stream_id = do
    stream ← find_own calls user stream_id
    stop_if stream.is_live calls now stream_id
    delete_statement calls stream_id

  unfoldable pub start_stream :
      Calls X → FreshIds → ℕ → AuthenticatedUser → ℕ → Handler X StreamResponse
  start_stream calls ids now user stream_id = do
    stream ← find_own calls user stream_id
    require (not stream.is_live) bad_request
    on_manager (OnAir.start_stream calls ids now stream_id)
    updated ← find_stream calls stream_id internal_server_error
    pure (response_of none updated)

  unfoldable pub stop_stream : Calls X → ℕ → AuthenticatedUser → ℕ → Handler X StreamResponse
  stop_stream calls now user stream_id = do
    stream ← find_own calls user stream_id
    require stream.is_live bad_request
    on_manager (OffAir.stop_stream calls now stream_id)
    updated ← find_stream calls stream_id internal_server_error
    pure (response_of none updated)
