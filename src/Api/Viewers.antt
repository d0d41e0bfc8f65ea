-- ===== src/Api/Viewers.antt =====
-- The handlers of src/api/viewers.rs.
pub mod Single
use oxide_cast.Prelude.{
  ℕ, Bool, true, false, Option, none, some, String, if◌then◌else◌, Result, ok, err,
}
use text.Mathlib.Text.{◌==◌}
use oxide_cast.Action.{Action, ◌>>=◌, ◌>>◌, pure, require, require_some, on_result, map_err}
use oxide_cast.Net.{SocketAddr, socket_addr, v4, octets}
use oxide_cast.Auth.{AuthenticatedUser}
use oxide_cast.Database.{or_else}
use oxide_cast.StreamManager.State.{
  Crates, Calls, ConnectionType, multicast, webrtc, hls, ViewerInfo, StreamError, StreamManager,
}
use oxide_cast.StreamManager.Info as Info
use oxide_cast.StreamManager.Viewers as Viewers
use oxide_cast.Api.Streams.{
  ApiError, not_found, bad_request, internal_server_error, Handler, on_manager, attempt,
  find_stream,
}

pub record JoinStreamRequest : Type 0 where
  pub connection_type : String
  pub quality_profile : Option String
  pub user_agent : Option String

pub record JoinStreamResponse : Type 0 where
  pub viewer_id : ℕ
  pub stream_url : String
  pub connection_type : String

pub record StreamUrlResponse : Type 0 where
  pub url : String
  pub connection_type : String

-- By `to_lowercase` of a string.
abbrev pub parse_connection_type : (String → String) → String → Option ConnectionType
parse_connection_type to_lowercase text =
    let kind = to_lowercase text in
    if kind == "multicast"
    then some multicast
    else if kind == "webrtc"
    then some webrtc
    else if kind == "hls"
    then some hls
    else none

abbrev pub id_of : Option AuthenticatedUser → Option ℕ
id_of none = none
id_of (some user) = some user.id

abbrev pub viewer_of :
    ℕ → ℕ → Option AuthenticatedUser → ConnectionType → JoinStreamRequest → ViewerInfo
viewer_of id now user kind request = record {
  id = id;
  user_id = id_of user;
  ip_address = "127.0.0.1";
  user_agent = request.user_agent;
  joined_at = now;
  connection_type = kind;
  quality_profile = or_else request.quality_profile "720p";
  last_heartbeat = now;
}

abbrev pub viewer_addr : SocketAddr
viewer_addr = socket_addr (v4 (octets 127 0 0 1)) 8000

module _ {X : Crates} where
  abbrev pub url_for : Calls X → ℕ → ConnectionType → Handler X String
  url_for calls stream_id kind s =
      (map_err (λ e. internal_server_error) (Info.get_stream_url calls stream_id kind s), s)

  unfoldable pub join_stream :
      (String → String)
      → Calls X
      → ℕ
      → ℕ
      → ℕ
      → Option AuthenticatedUser
      → ℕ
      → JoinStreamRequest
      → Handler X JoinStreamResponse
  join_stream to_lowercase calls info_id fresh_id now user stream_id request = do
    stream ← find_stream calls stream_id not_found
    require stream.is_live bad_request
    kind ← require_some (parse_connection_type to_lowercase request.connection_type) bad_request
    url ← url_for calls stream_id kind
    viewer_id ←
        on_manager (
          Viewers.add_viewer calls fresh_id now stream_id (viewer_of info_id now user kind request))
    pure (record {
      viewer_id = viewer_id;
      stream_url = url;
      connection_type = request.connection_type;
    })

  unfoldable pub leave_stream : Calls X → ℕ → ℕ → Handler X (Unit {0})
  leave_stream calls now stream_id = do
    stream ← find_stream calls stream_id not_found
    attempt (Viewers.remove_viewer calls now stream_id viewer_addr)

  unfoldable pub get_stream_url :
      (String → String) → Calls X → ℕ → String → Handler X StreamUrlResponse
  get_stream_url to_lowercase calls stream_id connection_type = do
    stream ← find_stream calls stream_id not_found
    require stream.is_live bad_request
    kind ← require_some (parse_connection_type to_lowercase connection_type) bad_request
    url ← url_for calls stream_id kind
    pure (record { url = url; connection_type = connection_type })
