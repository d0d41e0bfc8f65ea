-- ===== src/WebRtc/Server/Table.antt =====
-- Every connection stands in the table once, under its own id; what `stop_stream` does to the table.
use oxide_cast.Prelude.{
  mem, ℕ, ◌≡◌, refl, Bool, true, false, not, Option, none, some, List, [], ◌∷◌, String, Bool-cases,
  Option-cases, inl, inr, arith, ok, Result, if◌then◌else◌,
}
use oxide_cast.HashMap.{string_eq, nat_eq, ◌==◌, HashMap, get, values, retain}
use oxide_cast.HashMap.Laws.{get-remove, get-modify, beq_refl, get_of_not_contains_key}
use oxide_cast.HashMap.Values.{IsUnique, keep_if}
use oxide_cast.HashMap.Entries.{AllEntries}
use oxide_cast.WebRtc.Stream.{WebRtcPeerConnection, set_viewer_count}
use oxide_cast.WebRtc.Server.{
  WebRtcError, WebRtcServer, RtcCalls, is_of, ids_of, close_peer_connection, close_all,
  update_viewer_count, watching, drop_peer, drop_stream, stop_stream,
}

module _ {Float Peer : Type 0} where
  abbrev pub HasId : ℕ → WebRtcPeerConnection Float Peer → Type 0
  HasId k conn = conn.id ≡ k

  pub record IsTable (conns : HashMap ℕ (WebRtcPeerConnection Float Peer)) : Type 0 where
    pub ids : AllEntries HasId conns
    pub unique : IsUnique conns

module _ {Float Peer : Type 0} where
  abbrev pub is_of_some : String → Option (WebRtcPeerConnection Float Peer) → Bool
  is_of_some key none = false
  is_of_some key (some conn) = is_of key conn

  -- `ids_of` lists the ids of the stream's connections.
  mem-ids_of :
      (key : String) (i : ℕ) (conns : HashMap ℕ (WebRtcPeerConnection Float Peer))
      → AllEntries HasId conns
      → IsUnique conns
      → mem i (ids_of key conns) ≡ is_of_some key (get i conns)
  unfolding values retain get
  mem-ids_of key i [] h u = refl
  mem-ids_of key i ((k, c) ∷ conns) h u = elim (Bool-cases (is_of key c)) [
    | inl mine ↦ rw mine (ground (arith, h.0, mine, mem-ids_of key i conns h.1 u.1))
    | inr other ↦ rw other (
        ground (
          arith,
          other,
          mem-ids_of key i conns h.1 u.1,
          get_of_not_contains_key k conns,
          nat_eq.same_iff k i,
        ))
  ]

module _ {Float Peer : Type 0} (calls : RtcCalls Peer)
    (closes : (p : Peer) → calls.close p ≡ true) where
  -- What closing a connection does, when `close` does not fail.
  pub record Closes (gone : ℕ → Bool) (s : WebRtcServer Float Peer)
      (r : Result WebRtcError (Unit {0}) × WebRtcServer Float Peer) : Type 0 where
    pub done : r.0 ≡ ok tt
    pub peers :
        (i : ℕ) → get i r.1.peer_connections ≡ (if gone i then none else get i s.peer_connections)
    pub streams :
        (key : String) → get key s.active_streams ≡ none → get key r.1.active_streams ≡ none

  close_peer_connection-Closes :
      (id : ℕ) (s : WebRtcServer Float Peer)
      → Closes (λ i. id == i) s (close_peer_connection calls id s)
  unfolding close_peer_connection update_viewer_count
  close_peer_connection-Closes id s = elim (Option-cases (get id s.peer_connections)) [
    | inl e ↦
        rw (e, close_peer_connection)
          (record {
            done = refl;
            peers = λ i. ground (arith, e, nat_eq.same_iff id i);
            streams = λ key h. h;
          })
    | inr (conn, e) ↦
        rw (e, close_peer_connection, closes conn.peer_connection)
          (record {
            done = refl;
            peers = λ i. get-remove id i s.peer_connections;
            streams = λ key h. ground (
              arith,
              get-modify conn.stream_key key
                  (set_viewer_count (watching conn.stream_key (drop_peer id s))) s.active_streams,
            );
          })
  ]

  close_all-Closes :
      (ids : List ℕ) (s : WebRtcServer Float Peer)
      → Closes (λ i. mem i ids) s (close_all calls ids s)
  unfolding close_all
  close_all-Closes [] s = record { done = refl; peers = λ i. refl; streams = λ key h. h }
  close_all-Closes (id ∷ ids) s =
      let one = close_peer_connection-Closes id s in
      let rest = close_all-Closes ids (close_peer_connection calls id s).1 in
      rw (one.done, close_all)
        (record {
          done = rest.done;
          peers = λ i. ground (arith, rest.peers i, one.peers i);
          streams = λ key h. rest.streams key (one.streams key h);
        })

  -- When `close` never fails, and every connection stands in the table once and under its own id, a
  -- stop succeeds: the stream is gone, its connections are gone, and every other connection is as it
  -- was.
  pub stop_stream_closes :
      (key : String) (s : WebRtcServer Float Peer)
      → IsTable s.peer_connections
      → let (r, s') = stop_stream calls key s in
        (r ≡ ok tt)
        × (get key s'.active_streams ≡ none)
        × ((i : ℕ)
            → get i s'.peer_connections
              ≡ keep_if (λ c. not (is_of key c)) (get i s.peer_connections))
  unfolding stop_stream
  stop_stream_closes key s t =
      let all = close_all-Closes (ids_of key s.peer_connections) (drop_stream key s) in
      (
        all.done,
        all.streams key (ground (arith, get-remove key key s.active_streams, beq_refl key)),
        λ i. ground (arith, all.peers i, mem-ids_of key i s.peer_connections t.ids t.unique),
      )
