-- ===== src/WebRtc/Peers/History.antt =====
-- Histories of the WebRTC server: any sequence of its calls, of changes of its connections and of its
-- clean-up.
use oxide_cast.Prelude.{
  ℕ, ◌≡◌, refl, true, not, none, List, [], ◌∷◌, String, ok, Option-cases, Bool-cases, inl, inr,
  Result-cases,
}
use oxide_cast.Action.Keeps.{Keeps, keeps_rules, >>-Keeps, require-Keeps}
use oxide_cast.HashMap.{string_eq, nat_eq, HashMap, get, insert, remove, modify}
use oxide_cast.HashMap.Values.{
  insert-IsUnique, remove-IsUnique, modify-IsUnique, retain-IsUnique, keep_if,
}
use oxide_cast.HashMap.Entries.{
  insert-AllEntries, remove-AllEntries, modify-AllEntries, retain-AllEntries,
}
use oxide_cast.Net.{Ipv4Addr}
use oxide_cast.WebRtc.Stream.{
  Track, WebRtcConfig, ConnectionState, WebRtcPeerConnection, new_peer, new_stream, WebRtcOffer,
}
use oxide_cast.Multicast.Packet.{receive}
use oxide_cast.WebRtc.Server.{
  io_error, WebRtcServer, RtcCalls, new, start_stream, stop_stream, close_peer_connection,
  close_all, update_viewer_count, is_of, ids_of, drop_stream, receive_datagram,
}
use oxide_cast.WebRtc.Server.Table.{HasId, IsTable, stop_stream_closes}
use oxide_cast.WebRtc.Peers.{
  negotiate, create_peer_connection, on_state_change, set_state, is_over, is_fresh,
  connection_cleanup,
}

pub data Event (Float Peer : Type 0) : Type 0 where
  starts : RtcCalls Peer → ℕ → String → Ipv4Addr → ℕ → Event Float Peer
  stops : RtcCalls Peer → String → Event Float Peer
  offers : RtcCalls Peer → Float → ℕ → ℕ → WebRtcOffer → Event Float Peer
  state_changes : ℕ → ℕ → ConnectionState → Event Float Peer
  receives : String → Track → Track → List ℕ → Event Float Peer
  cleans : ℕ → Event Float Peer

module _ {Float Peer : Type 0} where
  unfoldable pub step : Event Float Peer → WebRtcServer Float Peer → WebRtcServer Float Peer
  step (starts calls now key address port) s = (start_stream calls now key address port s).1
  step (stops calls key) s = (stop_stream calls key s).1
  step (offers calls zero_f64 id now offer) s =
      (create_peer_connection calls zero_f64 id now offer s).1
  step (state_changes id now state) s = on_state_change id now state s
  step (receives key v a datagram) s = (receive_datagram key v a datagram s).1
  step (cleans now) s = connection_cleanup now s

  unfoldable pub run : List (Event Float Peer) → WebRtcServer Float Peer → WebRtcServer Float Peer
  run [] s = s
  run (e ∷ es) s = run es (step e s)

  abbrev HasTable : WebRtcServer Float Peer → Type 0
  HasTable s = IsTable s.peer_connections

  removed-IsTable :
      (id : ℕ) (conns : HashMap ℕ (WebRtcPeerConnection Float Peer))
      → IsTable conns
      → IsTable (remove id conns)
  removed-IsTable id conns t = record {
    ids = remove-AllEntries HasId id conns t.ids;
    unique = remove-IsUnique id conns t.unique;
  }

  close_peer_connection-HasTable :
      (calls : RtcCalls Peer) (id : ℕ) → Keeps HasTable (close_peer_connection calls id)
  unfolding close_peer_connection update_viewer_count
  close_peer_connection-HasTable calls id = record {
    after = λ s t. elim (Option-cases (get id s.peer_connections)) [
      | inl e ↦ rw (e, close_peer_connection) t
      | inr (conn, e) ↦ elim (Bool-cases (calls.close conn.peer_connection)) [
        | inl closed ↦
            rw (e, close_peer_connection, closed) (removed-IsTable id s.peer_connections t)
        | inr failed ↦
            rw (e, close_peer_connection, failed) (removed-IsTable id s.peer_connections t)
      ]
    ];
  }

  close_all-HasTable : (calls : RtcCalls Peer) (ids : List ℕ) → Keeps HasTable (close_all calls ids)
  unfolding close_all
  close_all-HasTable calls [] = search keeps_rules
  close_all-HasTable calls (id ∷ ids) =
      >>-Keeps (close_peer_connection calls id) (close_all calls ids)
        (close_peer_connection-HasTable calls id) (close_all-HasTable calls ids)

  create_peer_connection-HasTable :
      (calls : RtcCalls Peer) (zero_f64 : Float) (id now : ℕ) (offer : WebRtcOffer)
      → (s : WebRtcServer Float Peer) → HasTable s
      → HasTable (create_peer_connection calls zero_f64 id now offer s).1
  unfolding create_peer_connection update_viewer_count
  create_peer_connection-HasTable calls zero_f64 id now offer s t =
      elim (Result-cases (negotiate calls s.ice_servers s.active_streams offer)) [
        | inr (e, failed) ↦ rw (failed, create_peer_connection) t
        | inl (done, made) ↦
            let conn = new_peer zero_f64 id now done.0 offer in
            rw (made, create_peer_connection)
              (record {
                ids = insert-AllEntries HasId id conn s.peer_connections refl t.ids;
                unique = insert-IsUnique id conn s.peer_connections t.unique;
              })
      ]

  state_changed-IsTable :
      (id now : ℕ) (state : ConnectionState) (conns : HashMap ℕ (WebRtcPeerConnection Float Peer))
      → IsTable conns
      → IsTable (modify id (set_state now state) conns)
  state_changed-IsTable id now state conns t = record {
    ids = modify-AllEntries HasId id (set_state now state) conns (λ j conn h. h) t.ids;
    unique = modify-IsUnique id (set_state now state) conns t.unique;
  }

  receive_datagram-HasTable :
      (key : String) (video_track audio_track : Track) (datagram : List ℕ)
      (s : WebRtcServer Float Peer)
      → HasTable s
      → HasTable (receive_datagram key video_track audio_track datagram s).1
  unfolding receive_datagram
  receive_datagram-HasTable key video_track audio_track datagram s t =
      elim (Option-cases (receive datagram)) [
        | inl small ↦ rw (small, receive_datagram) t
        | inr (r, e) ↦ rw (e, receive_datagram) t
      ]

  step-HasTable :
      (e : Event Float Peer) (s : WebRtcServer Float Peer) → HasTable s → HasTable (step e s)
  unfolding step stop_stream start_stream on_state_change receive_datagram connection_cleanup
  step-HasTable (starts calls now key address port) s t =
      (require-Keeps {P = HasTable} (calls.bind_and_join address port) io_error).after
        (record s {
          active_streams = insert key (new_stream now key address port) s.active_streams;
        })
        t
  step-HasTable (stops calls key) s t =
      (close_all-HasTable calls (ids_of key s.peer_connections)).after (drop_stream key s) t
  step-HasTable (offers calls zero_f64 id now offer) s t =
      create_peer_connection-HasTable calls zero_f64 id now offer s t
  step-HasTable (state_changes id now state) s t =
      let changed = state_changed-IsTable id now state s.peer_connections t in
      elim (Bool-cases (is_over state)) [
        | inl over ↦ rw (over, on_state_change) (removed-IsTable id _ changed)
        | inr running ↦ rw (running, on_state_change) changed
      ]
  step-HasTable (receives key video_track audio_track datagram) s t =
      receive_datagram-HasTable key video_track audio_track datagram s t
  step-HasTable (cleans now) s t = record {
    ids = retain-AllEntries HasId (is_fresh now) s.peer_connections t.ids;
    unique = retain-IsUnique (is_fresh now) s.peer_connections t.unique;
  }

  pub run-HasTable :
      (es : List (Event Float Peer)) (s : WebRtcServer Float Peer)
      → HasTable s
      → HasTable (run es s)
  unfolding run
  run-HasTable [] s t = t
  run-HasTable (e ∷ es) s t = run-HasTable es (step e s) (step-HasTable e s t)

  new-HasTable : (config : WebRtcConfig) → HasTable (new config)
  unfolding new
  new-HasTable config = record { ids = tt; unique = tt }

  -- After any sequence of starts, stops, offers, changes of a connection's state, datagrams and ticks
  -- of the clean-up, from a new server, with any failures, a stop of a stream with a `close` that does
  -- not fail succeeds: the stream is gone, its connections are gone, and every other connection is as
  -- it was.
  pub run-stop_stream :
      (calls : RtcCalls Peer) (closes : (p : Peer) → calls.close p ≡ true) (config : WebRtcConfig)
      (es : List (Event Float Peer)) (key : String)
      → let s = run es (new config) in
        let (r, s') = stop_stream calls key s in
        (r ≡ ok tt)
        × (get key s'.active_streams ≡ none)
        × ((i : ℕ)
            → get i s'.peer_connections
              ≡ keep_if (λ c. not (is_of key c)) (get i s.peer_connections))
  run-stop_stream calls closes config es key =
      stop_stream_closes calls closes key (run es (new config))
        (run-HasTable es (new config) (new-HasTable config))
