-- ===== src/WebRtc/Peers/Counts.antt =====
-- The two counts of a stream's viewers: the one that is kept with the stream, and the one that
-- `get_stream_stats` makes anew.
use oxide_cast.Prelude.{
  ℕ, ◌+◌, ◌≡◌, refl, Bool, true, false, none, some, List, [], ◌∷◌, String, ok, Bool-cases,
  Result-cases, inl, inr, if◌then◌else◌, arith, length, ap,
}
use mathlib.Core.Option
use oxide_cast.HashMap.{
  KeyEq, ◌==◌, string_eq, nat_eq, HashMap, get, contains_key, insert, modify, retain,
}
use oxide_cast.HashMap.Laws.{get-modify, beq_refl, get_of_contains_key}
use oxide_cast.WebRtc.Stream.{
  IceServer, connected, WebRtcStream, WebRtcStreamStats, WebRtcPeerConnection, new_peer,
  WebRtcOffer, WebRtcAnswer, set_viewer_count,
}
use oxide_cast.WebRtc.Server.{
  WebRtcServer, RtcCalls, is_watching, watching, update_viewer_count, get_stream_stats,
}
use oxide_cast.WebRtc.Peers.{
  negotiate, create_peer_connection, on_state_change, set_state, add_peer,
}

module _ {ℓ κ} {K : Type ℓ} {V : Type κ} ⦃e : KeyEq K⦄ where
  length-retain-insert :
      (p : V → Bool) (k : K) (v : V) (m : HashMap K V)
      → get k m ≡ none
      → length (retain p (insert k v m)) ≡ (if p v then 1 else 0) + length (retain p m)
  unfolding retain insert get
  length-retain-insert p k v [] h = elim (Bool-cases (p v)) [
    | inl kept ↦ rw kept refl
    | inr dropped ↦ rw dropped refl
  ]
  length-retain-insert p k v ((j, w) ∷ m) h = elim (Bool-cases (j == k)) [
    | inl same ↦ absurd (ground (arith, same))
    | inr other ↦ ground (arith, other, length-retain-insert p k v m)
  ]

  modify-insert :
      (k : K) (f : V → V) (v : V) (m : HashMap K V) → modify k f (insert k v m) ≡ insert k (f v) m
  unfolding modify insert
  modify-insert k f v [] = ground (arith, beq_refl k)
  modify-insert k f v ((j, w) ∷ m) = elim (Bool-cases (j == k)) [
    | inl same ↦ ground (arith, same, beq_refl k)
    | inr other ↦ ground (arith, other, modify-insert k f v m)
  ]

negotiate-contains_key :
    {Peer : Type 0} (calls : RtcCalls Peer) (servers : List IceServer)
    (streams : HashMap String WebRtcStream) (offer : WebRtcOffer) (done : Peer × String)
    → negotiate calls servers streams offer ≡ ok done
    → contains_key offer.stream_key streams ≡ true
unfolding negotiate
negotiate-contains_key calls servers streams offer done h =
    elim (Bool-cases (contains_key offer.stream_key streams)) [
      | inl there ↦ there
      | inr gone ↦ absurd (ground (arith, gone))
    ]

get-recounted :
    (key : String) (n : ℕ) (streams : HashMap String WebRtcStream)
    → contains_key key streams ≡ true
    → (stream : WebRtcStream) × (get key (modify key (set_viewer_count n) streams)
        ≡ some (set_viewer_count n stream))
get-recounted key n streams h =
    let (stream, there) = get_of_contains_key key streams h in
    (stream, ground (arith, get-modify key key (set_viewer_count n) streams, beq_refl key, there))

abbrev pub kept_count : WebRtcStream → ℕ
kept_count stream = stream.viewer_count

abbrev pub counted : WebRtcStreamStats → ℕ
counted stats = stats.viewer_count

module _ {Float Peer : Type 0} where
  length-joined :
      (key : String) (id now : ℕ) (conn : WebRtcPeerConnection Float Peer)
      (conns : HashMap ℕ (WebRtcPeerConnection Float Peer))
      → conn.stream_key ≡ key
      → get id conns ≡ none
      → length
          (retain (is_watching key) (modify id (set_state now connected) (insert id conn conns)))
        ≡ 1 + length (retain (is_watching key) conns)
  length-joined key id now conn conns h free = ground (
    arith,
    modify-insert id (set_state now connected) conn conns,
    length-retain-insert (is_watching key) id (set_state now connected conn) conns free,
    beq_refl key,
  )

  length-offered :
      (key : String) (id : ℕ) (conn : WebRtcPeerConnection Float Peer)
      (conns : HashMap ℕ (WebRtcPeerConnection Float Peer))
      → is_watching key conn ≡ false
      → get id conns ≡ none
      → length (retain (is_watching key) (insert id conn conns))
        ≡ length (retain (is_watching key) conns)
  length-offered key id conn conns h free =
      ground (arith, length-retain-insert (is_watching key) id conn conns free)

  create_peer_connection-made :
      (calls : RtcCalls Peer) (zero_f64 : Float) (id now : ℕ) (offer : WebRtcOffer)
      (s : WebRtcServer Float Peer) (done : Peer × String)
      → negotiate calls s.ice_servers s.active_streams offer ≡ ok done
      → (create_peer_connection calls zero_f64 id now offer s).1
        ≡ update_viewer_count offer.stream_key (add_peer (new_peer zero_f64 id now done.0 offer) s)
  unfolding create_peer_connection
  create_peer_connection-made calls zero_f64 id now offer s done made =
      rw (made, create_peer_connection) refl

  -- What both counts are in a server.
  abbrev pub Counts : ℕ → ℕ → ℕ → String → WebRtcServer Float Peer → Type 0
  Counts kept made at key s =
      (Option.map kept_count (get key s.active_streams) ≡ some kept)
      × (Option.map counted (get_stream_stats at key s) ≡ some made)

  connected-Counts :
      (later at : ℕ) (key : String) (conn : WebRtcPeerConnection Float Peer)
      (s : WebRtcServer Float Peer)
      → conn.stream_key ≡ key
      → is_watching key conn ≡ false
      → get conn.id s.peer_connections ≡ none
      → contains_key key s.active_streams ≡ true
      → Counts
          (watching key s)
          (1 + watching key s)
          at
          key
          (on_state_change conn.id later connected (update_viewer_count key (add_peer conn s)))
  unfolding on_state_change update_viewer_count get_stream_stats
  connected-Counts later at key conn s mine idle free there =
      let (stream, found) =
        get-recounted key (watching key (add_peer conn s)) s.active_streams there in
      rw (found, get_stream_stats)
        (
          ap some (length-offered key conn.id conn s.peer_connections idle free),
          ap some (length-joined key conn.id later conn s.peer_connections mine free),
        )

  -- When an offer has been answered, under an id that no connection had, and the state handler then
  -- finds the connection connected: the statistics count one viewer more than were connected before
  -- the offer, but the count that is kept with the stream is the number of those who were connected
  -- before the offer, without the new one.
  pub create_peer_connection-on_state_change :
      (calls : RtcCalls Peer) (zero_f64 : Float) (id now later at : ℕ) (offer : WebRtcOffer)
      (answer : WebRtcAnswer) (s : WebRtcServer Float Peer)
      → get id s.peer_connections ≡ none
      → (create_peer_connection calls zero_f64 id now offer s).0 ≡ ok answer
      → Counts (watching offer.stream_key s) (1 + watching offer.stream_key s) at offer.stream_key (
          on_state_change id later connected
            (create_peer_connection calls zero_f64 id now offer s).1)
  unfolding create_peer_connection
  create_peer_connection-on_state_change calls zero_f64 id now later at offer answer s free h =
      elim (Result-cases (negotiate calls s.ice_servers s.active_streams offer)) [
        | inr (e, failed) ↦ absurd (ground (arith, failed))
        | inl (done, made) ↦
            rw (create_peer_connection-made calls zero_f64 id now offer s done made) (
              connected-Counts later at offer.stream_key (new_peer zero_f64 id now done.0 offer) s
                refl (ground arith) free
                (negotiate-contains_key calls s.ice_servers s.active_streams offer done made))
      ]
