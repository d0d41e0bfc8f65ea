-- ===== src/StreamManager/Info.antt =====
-- What src/stream_manager.rs tells of the streams on air, and where they can be watched.
use oxide_cast.Prelude.{ℕ, Option, none, some, List, String, Result, ok, err}
use Prim.Native.String.{◌++◌}
use oxide_cast.Action.{map_err}
use oxide_cast.HashMap.{nat_eq, get, values}
use oxide_cast.Hls.Server as Hls
use oxide_cast.WebRtc.Server as WebRtc
use oxide_cast.StreamManager.State.{
  Crates, Calls, ActiveStreamInfo, ConnectionType, multicast, webrtc, hls, StreamError,
  stream_not_found, of_hls, of_webrtc, StreamManager,
}

module _ {X : Crates} where
  unfoldable pub get_active_streams : StreamManager X → List (ActiveStreamInfo X.hls_types.Float)
  get_active_streams s = values s.active_streams

  unfoldable pub get_stream_info : ℕ → StreamManager X → Option (ActiveStreamInfo X.hls_types.Float)
  get_stream_info stream_id s = get stream_id s.active_streams

  abbrev pub url_of :
      Calls X
      → StreamManager X
      → ActiveStreamInfo X.hls_types.Float
      → ConnectionType
      → Result StreamError String
  url_of calls s info multicast =
      ok ("udp://" ++ info.multicast_address ++ ":" ++ calls.show_port info.multicast_port)
  url_of calls s info webrtc =
      map_err of_webrtc (WebRtc.get_stream_url info.stream_key s.webrtc_server)
  url_of calls s info hls = map_err of_hls (Hls.get_stream_url info.stream_key s.hls_server)

  unfoldable pub get_stream_url :
      Calls X → ℕ → ConnectionType → StreamManager X → Result StreamError String
  get_stream_url calls stream_id connection_type s = elim (get_stream_info stream_id s) [
    | none ↦ err stream_not_found
    | some info ↦ url_of calls s info connection_type
  ]
