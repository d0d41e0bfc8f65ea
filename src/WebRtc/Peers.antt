-- ===== src/WebRtc/Peers.antt =====
-- The peers of `WebRtcServer` of src/webrtc_server.rs: how a connection comes, changes and goes.
pub mod History
pub mod Counts
use oxide_cast.Prelude.{
  ℕ, ◌+◌, ◌-◌, ◌*◌, ◌/◌, ◌%◌, ◌^◌, Bool, true, false, not, ◌&&◌, ◌||◌, Option, none, some, List, [],
  ◌∷◌, ◌++◌, String, map, length, ltb, if◌then◌else◌, Result, ok, err, ok_or, guard, ◌>>=◌, ◌>>◌,
}
use text.Mathlib.Text.{◌==◌ as str_eq}
use oxide_cast.Action.{Action}
use oxide_cast.HashMap.{
  string_eq, nat_eq, HashMap, get, contains_key, insert, remove, modify, values, retain,
}
use oxide_cast.Net.{Ipv4Addr}
use oxide_cast.Multicast.Packet.{receive}
use oxide_cast.WebRtc.Stream.{
  IceServer, TurnServer, WebRtcConfig, Track, WebRtcStream, WebRtcStreamStats, set_viewer_count,
  new_stream, ConnectionState, connected, disconnected, failed, closed, WebRtcPeerConnection,
  new_peer, WebRtcOffer, WebRtcAnswer, IceCandidate, RtpPacket, forward, count_datagram,
}
use oxide_cast.WebRtc.Server.{
  WebRtcError, stream_not_found, rtc_error, RtcCalls, WebRtcServer, states_equal,
  update_viewer_count, drop_peer,
}

abbrev pub add_optional_track :
    {Peer : Type 0} → RtcCalls Peer → Peer → Option Track → Result WebRtcError (Unit {0})
add_optional_track calls peer none = ok tt
add_optional_track calls peer (some track) = guard (calls.add_track peer track) rtc_error

-- The tracks of the stream, if it is still there.
abbrev pub add_tracks :
    {Peer : Type 0} → RtcCalls Peer → Peer → Option WebRtcStream → Result WebRtcError (Unit {0})
add_tracks calls peer none = ok tt
add_tracks calls peer (some stream) =
    add_optional_track calls peer stream.video_track
    >> add_optional_track calls peer stream.audio_track

-- `create_peer_connection` up to the change of its tables: the peer and the answer's text.
unfoldable pub negotiate :
    {Peer : Type 0}
    → RtcCalls Peer
    → List IceServer
    → HashMap String WebRtcStream
    → WebRtcOffer
    → Result WebRtcError (Peer × String)
negotiate calls servers streams offer = do
  guard (contains_key offer.stream_key streams) stream_not_found
  peer ← ok_or (calls.new_peer_connection servers) rtc_error
  add_tracks calls peer (get offer.stream_key streams)
  guard (calls.parse_offer offer.sdp) rtc_error
  guard (calls.set_remote_description peer offer.sdp) rtc_error
  answer ← ok_or (calls.create_answer peer) rtc_error
  guard (calls.set_local_description peer answer) rtc_error
  ok (peer, answer)

-- The states after which a connection is dropped.
abbrev pub is_over : ConnectionState → Bool
is_over disconnected = true
is_over failed = true
is_over closed = true
is_over _ = false

module _ {Float Peer : Type 0} where
  abbrev pub add_peer :
      WebRtcPeerConnection Float Peer → WebRtcServer Float Peer → WebRtcServer Float Peer
  add_peer conn s = record s { peer_connections = insert conn.id conn s.peer_connections }

  -- With the id that `Uuid::new_v4` gives, at a time.
  unfoldable pub create_peer_connection :
      RtcCalls Peer
      → Float
      → ℕ
      → ℕ
      → WebRtcOffer
      → WebRtcServer Float Peer
      → Result WebRtcError WebRtcAnswer × WebRtcServer Float Peer
  create_peer_connection calls zero_f64 connection_id now offer s =
      elim (negotiate calls s.ice_servers s.active_streams offer) [
        | err e ↦ (err e, s)
        | ok (peer, answer) ↦ (
          ok (record { sdp = answer; session_id = offer.session_id }),
          update_viewer_count offer.stream_key
              (add_peer (new_peer zero_f64 connection_id now peer offer) s),
        )
      ]

  abbrev pub set_state :
      ℕ → ConnectionState → WebRtcPeerConnection Float Peer → WebRtcPeerConnection Float Peer
  set_state now state conn = record conn { connection_state = state; last_activity = now }

  -- The handler of `on_peer_connection_state_change`.
  unfoldable pub on_state_change :
      ℕ → ℕ → ConnectionState → WebRtcServer Float Peer → WebRtcServer Float Peer
  on_state_change id now state s =
      let s' = record s { peer_connections = modify id (set_state now state) s.peer_connections } in
      if is_over state then drop_peer id s' else s'

  abbrev pub has_session : String → WebRtcPeerConnection Float Peer → Bool
  has_session session_id conn = str_eq conn.viewer_info.session_id session_id

  abbrev pub first :
      List (WebRtcPeerConnection Float Peer) → Option (WebRtcPeerConnection Float Peer)
  first [] = none
  first (conn ∷ conns) = some conn

  -- A session that is not there is only logged.
  unfoldable pub handle_ice_candidate :
      RtcCalls Peer → IceCandidate → Action WebRtcError (WebRtcServer Float Peer) (Unit {0})
  handle_ice_candidate calls candidate s =
      elim (first (values (retain (has_session candidate.session_id) s.peer_connections))) [
        | none ↦ (ok tt, s)
        | some conn ↦
            if calls.parse_candidate candidate.candidate
              && calls.add_ice_candidate conn.peer_connection candidate.candidate
            then (ok tt, s)
            else (err rtc_error, s)
      ]

  -- 300 seconds, in whole seconds; a clock that went back gives no age.
  abbrev pub is_stale : ℕ → WebRtcPeerConnection Float Peer → Bool
  is_stale now conn =
      ltb 300 ((now - conn.last_activity) / 1_000_000_000)
      || states_equal conn.connection_state failed
      || states_equal conn.connection_state disconnected

  abbrev pub is_fresh : ℕ → WebRtcPeerConnection Float Peer → Bool
  is_fresh now conn = not (is_stale now conn)

  -- One tick of `connection_cleanup_task`, which has the connections only.
  unfoldable pub connection_cleanup : ℕ → WebRtcServer Float Peer → WebRtcServer Float Peer
  connection_cleanup now s = record s {
    peer_connections = retain (is_fresh now) s.peer_connections;
  }
