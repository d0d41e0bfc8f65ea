-- ===== src/WebRtc/Server.antt =====
-- `WebRtcServer` of src/webrtc_server.rs: its two tables and its calls. What it asks of the crate
-- webrtc and of the socket is given by `RtcCalls`. Times are in nanoseconds.
pub mod Table
pub mod Forward
use oxide_cast.Prelude.{
  ℕ, ◌+◌, ◌-◌, ◌*◌, ◌/◌, ◌%◌, ◌^◌, Bool, true, false, not, ◌&&◌, ◌||◌, Option, none, some, List, [],
  ◌∷◌, ◌++◌, String, map, length, ltb, if◌then◌else◌, Result, ok, err,
}
use text.Mathlib.Text.{◌==◌ as str_eq}
use Prim.Native.String.{◌++◌ as append}
use oxide_cast.Action.{Action, ◌>>=◌, ◌>>◌, pure, fail, require, require_some, gets, changes}
use oxide_cast.HashMap.{
  string_eq, nat_eq, HashMap, get, contains_key, insert, remove, modify, values, retain,
}
use oxide_cast.Net.{Ipv4Addr}
use oxide_cast.Multicast.Packet.{receive}
use oxide_cast.WebRtc.Stream.{
  IceServer, TurnServer, WebRtcConfig, Track, WebRtcStream, WebRtcStreamStats, set_viewer_count,
  new_stream, ConnectionState, connected, disconnected, failed, closed, WebRtcPeerConnection,
  new_peer, WebRtcOffer, WebRtcAnswer, IceCandidate, RtpPacket, forward, count_datagram,
}

pub data WebRtcError : Type 0 where
  stream_not_found io_error rtc_error : WebRtcError

-- The crate webrtc and the socket of the receiver; `false` and `none` are errors.
pub record RtcCalls (Peer : Type 0) : Type 0 where
  pub bind_and_join : Ipv4Addr → ℕ → Bool
  pub new_peer_connection : List IceServer → Option Peer
  pub add_track : Peer → Track → Bool
  pub parse_offer : String → Bool
  pub set_remote_description : Peer → String → Bool
  pub create_answer : Peer → Option String
  pub set_local_description : Peer → String → Bool
  pub parse_candidate : String → Bool
  pub add_ice_candidate : Peer → String → Bool
  pub close : Peer → Bool

pub record WebRtcServer (Float Peer : Type 0) : Type 0 where
  pub active_streams : HashMap String WebRtcStream
  pub peer_connections : HashMap ℕ (WebRtcPeerConnection Float Peer)
  pub ice_servers : List IceServer

abbrev pub stun_server : String → IceServer
stun_server url = record { urls = url ∷ []; username = ""; credential = "" }

abbrev pub turn_server : TurnServer → IceServer
turn_server t = record { urls = t.url ∷ []; username = t.username; credential = t.credential }

abbrev pub states_equal : ConnectionState → ConnectionState → Bool
states_equal connected connected = true
states_equal disconnected disconnected = true
states_equal failed failed = true
states_equal closed closed = true
states_equal _ _ = false

module _ {Float Peer : Type 0} where
  unfoldable pub new : WebRtcConfig → WebRtcServer Float Peer
  new config = record {
    active_streams = [];
    peer_connections = [];
    ice_servers = map stun_server config.stun_servers ++ map turn_server config.turn_servers;
  }

  -- `update_viewer_count` counts those that are connected.
  abbrev pub is_watching : String → WebRtcPeerConnection Float Peer → Bool
  is_watching key conn = str_eq conn.stream_key key && states_equal conn.connection_state connected

  abbrev pub watching : String → WebRtcServer Float Peer → ℕ
  watching key s = length (retain (is_watching key) s.peer_connections)

  unfoldable pub update_viewer_count : String → WebRtcServer Float Peer → WebRtcServer Float Peer
  update_viewer_count key s = record s {
    active_streams = modify key (set_viewer_count (watching key s)) s.active_streams;
  }

  unfoldable pub start_stream :
      RtcCalls Peer
      → ℕ
      → String
      → Ipv4Addr
      → ℕ
      → Action WebRtcError (WebRtcServer Float Peer) (Unit {0})
  start_stream calls now key address port = do
    changes (λ s. record s {
      active_streams = insert key (new_stream now key address port) s.active_streams;
    })
    require (calls.bind_and_join address port) io_error

  abbrev pub drop_peer : ℕ → WebRtcServer Float Peer → WebRtcServer Float Peer
  drop_peer id s = record s { peer_connections = remove id s.peer_connections }

  -- The connection leaves the table also when its `close` fails.
  unfoldable pub close_peer_connection :
      RtcCalls Peer → ℕ → Action WebRtcError (WebRtcServer Float Peer) (Unit {0})
  close_peer_connection calls id s = elim (get id s.peer_connections) [
    | none ↦ (ok tt, s)
    | some conn ↦
        if calls.close conn.peer_connection
        then (ok tt, update_viewer_count conn.stream_key (drop_peer id s))
        else (err rtc_error, drop_peer id s)
  ]

  unfoldable pub close_all :
      RtcCalls Peer → List ℕ → Action WebRtcError (WebRtcServer Float Peer) (Unit {0})
  close_all calls [] = pure tt
  close_all calls (id ∷ ids) = close_peer_connection calls id >> close_all calls ids

  abbrev pub is_of : String → WebRtcPeerConnection Float Peer → Bool
  is_of key conn = str_eq conn.stream_key key

  abbrev pub conn_id : WebRtcPeerConnection Float Peer → ℕ
  conn_id conn = conn.id

  -- The ids of the connections of a stream.
  abbrev pub ids_of : String → HashMap ℕ (WebRtcPeerConnection Float Peer) → List ℕ
  ids_of key conns = map conn_id (values (retain (is_of key) conns))

  abbrev pub drop_stream : String → WebRtcServer Float Peer → WebRtcServer Float Peer
  drop_stream key s = record s { active_streams = remove key s.active_streams }

  unfoldable pub stop_stream :
      RtcCalls Peer → String → Action WebRtcError (WebRtcServer Float Peer) (Unit {0})
  stop_stream calls key = do
    changes (drop_stream key)
    ids ← gets (λ s. ids_of key s.peer_connections)
    close_all calls ids

  -- One datagram of the receiver's loop, with the tracks that the receiver was started with: what is
  -- written to a track. An error of the track is only logged.
  unfoldable pub receive_datagram :
      String
      → Track
      → Track
      → List ℕ
      → WebRtcServer Float Peer
      → Option (Track × RtpPacket) × WebRtcServer Float Peer
  receive_datagram key video_track audio_track datagram s = elim (receive datagram) [
    | none ↦ (none, s)
    | some r ↦ (
      forward video_track audio_track r,
      record s { active_streams = modify key (count_datagram r) s.active_streams },
    )
  ]

  -- `get_stream_stats` at a time, the uptime in whole seconds.
  unfoldable pub get_stream_stats : ℕ → String → WebRtcServer Float Peer → Option WebRtcStreamStats
  get_stream_stats now key s = elim (get key s.active_streams) [
    | none ↦ none
    | some stream ↦ some (record {
      stream_key = key;
      viewer_count = watching key s;
      total_connections = length (retain (is_of key) s.peer_connections);
      packets_sent = stream.packet_count;
      bytes_transmitted = stream.bytes_transmitted;
      uptime_seconds = (now - stream.started_at) / 1_000_000_000;
    })
  ]

  unfoldable pub get_stream_url : String → WebRtcServer Float Peer → Result WebRtcError String
  get_stream_url key s =
      if contains_key key s.active_streams
      then ok (append "/api/v1/webrtc/offer/" key)
      else err stream_not_found
