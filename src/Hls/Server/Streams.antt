-- ===== src/Hls/Server/Streams.antt =====
-- What any history of the HLS server leads to.
use oxide_cast.Prelude.{
  ℕ, ◌+◌, ◌-◌, ◌^◌, ◌<◌, ◌≡◌, true, inl, inr, some, List, [], ◌∷◌, String, length, Option-cases,
  Result-cases, arith,
}
use oxide_cast.HashMap.{string_eq, get}
use oxide_cast.Net.{Ipv4Addr}
use oxide_cast.Multicast.Packet.{receive}
use oxide_cast.Hls.Stream.{Types, HlsConfig, HlsSegment, HlsStream, playlist_of}
use oxide_cast.Hls.Stream.Numbering.{Chain, Chain-length, Chain-media_segments}
use oxide_cast.Hls.Writer.{HlsCalls, finalize_current_segment, write_data}
use oxide_cast.Hls.Writer.Data.{finalize_current_segment-Sound, write_data-Sound}
use oxide_cast.Hls.Server.{
  HlsServer, new, finalize_writer, start_stream, stop_stream, receive_datagram,
}
use oxide_cast.Hls.Server.Events.{
  Event, starts, stops, receives, cleans, tracks, step, run, IsTimed,
}
use oxide_cast.Hls.Server.Numbering.{
  AllNumbered, AllNumbered-later, enter_stream-AllNumbered, drop_stream-AllNumbered,
  cleanup-AllNumbered, track_viewer-AllNumbered,
}
use oxide_cast.Hls.Server.Writers.{at_writer, writer-Fine, put_back-AllNumbered}

module _ {T : Types} where
  start_stream-AllNumbered :
      (calls : HlsCalls T) (now n : ℕ) (key : String) (address : Ipv4Addr) (port : ℕ)
      (s : HlsServer T)
      → AllNumbered now n s
      → AllNumbered now n (start_stream calls now key address port s).1
  unfolding start_stream
  start_stream-AllNumbered calls now n key address port s a =
      ground (arith, a, enter_stream-AllNumbered now n key address port s a)

  finalize_writer-AllNumbered :
      (calls : HlsCalls T) (now n : ℕ) (key : String) (s : HlsServer T)
      → n + 1 < 2 ^ 64
      → AllNumbered now n s
      → AllNumbered now (n + 1) (finalize_writer calls now key s).1
  unfolding finalize_writer
  finalize_writer-AllNumbered calls now n key s room a =
      elim (Option-cases (get key s.segment_writers)) [
        | inl e ↦
            rw (e, finalize_writer)
              (AllNumbered-later now now n (n + 1) s (omega arith) (omega arith) a)
        | inr (w, e) ↦
            rw (e, finalize_writer)
              (put_back-AllNumbered now n key w s
                (finalize_current_segment calls now (at_writer w s)) a e
                (finalize_current_segment-Sound calls now n (at_writer w s) room
                  (writer-Fine now n key w s a e)))
      ]

  stop_stream-AllNumbered :
      (calls : HlsCalls T) (now n : ℕ) (key : String) (s : HlsServer T)
      → n + 1 < 2 ^ 64
      → AllNumbered now n s
      → AllNumbered now (n + 1) (stop_stream calls now key s).1
  unfolding stop_stream
  stop_stream-AllNumbered calls now n key s room a =
      let p = finalize_writer-AllNumbered calls now n key s room a in
      elim (Result-cases (finalize_writer calls now key s).0) [
        | inl (u, e) ↦ rw (e, stop_stream) (drop_stream-AllNumbered now (n + 1) key _ p)
        | inr (why, e) ↦ rw (e, stop_stream) p
      ]

  receive_datagram-AllNumbered :
      (calls : HlsCalls T) (now n : ℕ) (key : String) (datagram : List ℕ) (s : HlsServer T)
      → n + 1 < 2 ^ 64
      → AllNumbered now n s
      → AllNumbered now (n + 1) (receive_datagram calls now key datagram s)
  unfolding receive_datagram
  receive_datagram-AllNumbered calls now n key datagram s room a =
      let later = AllNumbered-later now now n (n + 1) s (omega arith) (omega arith) a in
      elim (Option-cases (receive datagram)) [
        | inl e ↦ rw (e, receive_datagram) later
        | inr (packet, e) ↦ elim (Option-cases (get key s.segment_writers)) [
          | inl q ↦ rw (e, receive_datagram, q) later
          | inr (w, q) ↦
              rw (e, receive_datagram, q)
                (put_back-AllNumbered now n key w s
                  (write_data s.config calls now packet.payload (at_writer w s)) a q
                  (write_data-Sound s.config calls packet.payload now n (at_writer w s) room
                    (writer-Fine now n key w s a q)))
        ]
      ]

  step-AllNumbered :
      (now n : ℕ) (e : Event T) (s : HlsServer T)
      → n + 1 < 2 ^ 64
      → AllNumbered now n s
      → AllNumbered now (n + 1) (step now e s)
  unfolding step
  step-AllNumbered now n (starts calls key address port) s room a =
      AllNumbered-later now now n (n + 1) _ (omega arith) (omega arith)
        (start_stream-AllNumbered calls now n key address port s a)
  step-AllNumbered now n (stops calls key) s room a =
      stop_stream-AllNumbered calls now n key s room a
  step-AllNumbered now n (receives calls key datagram) s room a =
      receive_datagram-AllNumbered calls now n key datagram s room a
  step-AllNumbered now n cleans s room a =
      AllNumbered-later now now n (n + 1) _ (omega arith) (omega arith)
        (cleanup-AllNumbered now now n s a)
  step-AllNumbered now n (tracks key) s room a =
      AllNumbered-later now now n (n + 1) _ (omega arith) (omega arith)
        (track_viewer-AllNumbered key now n s a)

  run-AllNumbered :
      (t n : ℕ) (es : List (ℕ × Event T)) (s : HlsServer T)
      → IsTimed t es
      → n + length es < 2 ^ 64
      → AllNumbered t n s
      → (t' : ℕ) × (n' : ℕ) × AllNumbered t' n' (run es s)
  unfolding run
  run-AllNumbered t n [] s timed room a = (t, n, a)
  run-AllNumbered t n ((now, e) ∷ es) s timed room a =
      run-AllNumbered now (n + 1) es (step now e s) timed.1 (omega arith) (
        step-AllNumbered now n e s (omega arith)
          (AllNumbered-later t now n n s timed.0 (omega arith) a))

  -- The segments at the places of a list have the numbers from `first` on, and are complete.
  abbrev pub Numbers : ℕ → List (HlsSegment T) → Type 0
  Numbers first [] = Unit {0}
  Numbers first (x ∷ xs) =
      (x.sequence_number ≡ first) × (x.is_complete ≡ true) × Numbers (first + 1) xs

  Chain-Numbers :
      (first lo : ℕ) (xs : List (HlsSegment T)) (last hi : ℕ)
      → Chain first lo xs last hi
      → Numbers first xs
  Chain-Numbers first lo [] last hi c = tt
  Chain-Numbers first lo (x ∷ xs) last hi c =
      (c.0, c.2, Chain-Numbers (first + 1) x.created_at xs last hi c.3)

  -- After any history of fewer than 2 ^ 64 steps during which the clock never goes back, failures of
  -- the file system included, the segments of each stream have consecutive numbers, of which the
  -- first is the sequence number of the playlist, and the playlist lists all of them.
  pub run-new-Numbers :
      (config : HlsConfig T) (t : ℕ) (es : List (ℕ × Event T)) (key : String) (stream : HlsStream T)
      → IsTimed t es
      → length es < 2 ^ 64
      → get key (run es (new config)).active_streams ≡ some stream
      → Numbers (playlist_of stream).sequence stream.segments
        × (length (playlist_of stream).segments ≡ length stream.segments)
  unfolding playlist_of get
  run-new-Numbers config t es key stream timed room found =
      let (t', n', a) =
        run-AllNumbered t 0 es (new config) timed (omega arith)
          (record { named = λ k w e. cc; numbered = λ k st e. absurd (cc (e)) }) in
      let (w, e, g) = a.numbered key stream found in
      let start : stream.current_sequence - length stream.segments ≡ g.first =
        omega
          (arith, Chain-length g.first g.lo stream.segments stream.current_sequence g.hi g.chain) in
      (
        rw start (Chain-Numbers g.first g.lo stream.segments stream.current_sequence g.hi g.chain),
        Chain-media_segments g.first g.lo stream.segments stream.current_sequence g.hi g.chain,
      )
