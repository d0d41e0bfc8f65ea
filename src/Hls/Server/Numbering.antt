-- ===== src/Hls/Server/Numbering.antt =====
-- Through any history, the segments of every HLS stream are numbered without a gap.
use oxide_cast.Prelude.{
  ℕ, ◌-◌, ◌≤◌, ◌≡◌, refl, true, false, inl, inr, Option, none, some, String, length, Bool-cases,
  Option-cases, arith,
}
use oxide_cast.HashMap.{string_eq, ◌==◌, HashMap, get, insert, modify, map_values}
use oxide_cast.HashMap.Laws.{get-insert, get-remove, get-modify, get-map_values, get_of_get-remove}
use oxide_cast.Net.{Ipv4Addr}
use oxide_cast.Hls.Stream.{Types, HlsConfig, HlsSegment, HlsStream, clean_stream, count_viewer}
use oxide_cast.Hls.Stream.Numbering.{Chain-drop, Chain-retain_young}
use oxide_cast.Hls.Writer.{SegmentWriter, new_writer}
use oxide_cast.Hls.Writer.Sequence.{IsNumbered, IsNumbered-later}
use oxide_cast.Hls.Server.{HlsServer, new_stream, enter_stream, drop_stream, cleanup, track_viewer}

module _ {T : Types} where
  -- Every stream has a writer under its key, and the two fit together.
  pub record AllNumbered (t n : ℕ) (s : HlsServer T) : Type 0 where
    pub named :
        (key : String) (w : SegmentWriter T)
        → get key s.segment_writers ≡ some w
        → w.stream_key ≡ key
    pub numbered :
        (key : String) (stream : HlsStream T)
        → get key s.active_streams ≡ some stream
        → (w : SegmentWriter T) × (get key s.segment_writers ≡ some w)
          × IsNumbered t n stream w.current_segment

  pub AllNumbered-later :
      (t t' n n' : ℕ) (s : HlsServer T) → t ≤ t' → n ≤ n' → AllNumbered t n s → AllNumbered t' n' s
  AllNumbered-later t t' n n' s h k a = record { named = a.named; numbered = later }
    where
      later :
          (key : String) (stream : HlsStream T)
          → get key s.active_streams ≡ some stream
          → (w : SegmentWriter T) × (get key s.segment_writers ≡ some w)
            × IsNumbered t' n' stream w.current_segment
      later key stream found =
          let (w, e, g) = a.numbered key stream found in
          (w, e, IsNumbered-later t t' n n' stream w.current_segment h k g)

  pub enter_stream-AllNumbered :
      (now n : ℕ) (key : String) (address : Ipv4Addr) (port : ℕ) (s : HlsServer T)
      → AllNumbered now n s
      → AllNumbered now n (enter_stream now key address port s)
  enter_stream-AllNumbered now n key address port s a = record {
    named = λ k w found. ground (
      arith,
      a.named k w,
      get-insert key k (new_writer key) s.segment_writers,
      string_eq.same_iff key k,
    );
    numbered = λ k stream found. elim (Bool-cases (key == k)) [
      | inl same ↦ (new_writer key, entered_writer k same, rw (entered k stream same found) fresh)
      | inr other ↦
          let (w, e, g) = a.numbered k stream (left k stream other found) in
          (w, left_writer k w other e, g)
    ];
  }
    where
      new : HlsStream T
      new = new_stream s.config now key address port

      fresh : IsNumbered now n new none
      fresh = record {
        first = 0;
        lo = 0;
        hi = 0;
        chain = (refl, omega arith);
        past = omega arith;
        few = omega arith;
        next = tt;
      }

      entered :
          (k : String) (stream : HlsStream T)
          → (key == k) ≡ true
          → get k (insert key new s.active_streams) ≡ some stream
          → stream ≡ new
      entered k stream same found = ground (arith, get-insert key k new s.active_streams)

      entered_writer :
          (k : String)
          → (key == k) ≡ true
          → get k (insert key (new_writer {T = T} key) s.segment_writers) ≡ some (new_writer key)
      entered_writer k same =
          ground (arith, get-insert key k (new_writer {T = T} key) s.segment_writers)

      left :
          (k : String) (stream : HlsStream T)
          → (key == k) ≡ false
          → get k (insert key new s.active_streams) ≡ some stream
          → get k s.active_streams ≡ some stream
      left k stream other found = ground (arith, get-insert key k new s.active_streams)

      left_writer :
          (k : String) (w : SegmentWriter T)
          → (key == k) ≡ false
          → get k s.segment_writers ≡ some w
          → get k (insert key (new_writer key) s.segment_writers) ≡ some w
      left_writer k w other e =
          ground (arith, get-insert key k (new_writer {T = T} key) s.segment_writers)

  pub drop_stream-AllNumbered :
      (t n : ℕ) (key : String) (s : HlsServer T)
      → AllNumbered t n s
      → AllNumbered t n (drop_stream key s)
  drop_stream-AllNumbered t n key s a = record {
    named = λ k w found. a.named k w (get_of_get-remove key k w s.segment_writers found).0;
    numbered = λ k stream found.
        let (e, other) = get_of_get-remove key k stream s.active_streams found in
        let (w, q, g) = a.numbered k stream e in
        (w, ground (arith, get-remove key k s.segment_writers), g);
  }

  -- What a change of the streams alone has to keep.
  pub mapped-AllNumbered :
      (t n : ℕ) (s : HlsServer T) (streams : HashMap String (HlsStream T))
      → ((k : String) (new : HlsStream T)
          → get k streams ≡ some new
          → (old : HlsStream T) × (get k s.active_streams ≡ some old)
            × ((current : Option (HlsSegment T))
                → IsNumbered t n old current
                → IsNumbered t n new current))
      → AllNumbered t n s
      → AllNumbered t n (record s { active_streams = streams })
  mapped-AllNumbered t n s streams keeps a = record {
    named = a.named;
    numbered = λ k new found.
        let (old, e, grow) = keeps k new found in
        let (w, q, g) = a.numbered k old e in (w, q, grow w.current_segment g);
  }

  clean_stream-IsNumbered :
      (config : HlsConfig T) (now t n : ℕ) (stream : HlsStream T) (current : Option (HlsSegment T))
      → IsNumbered t n stream current
      → IsNumbered t n (clean_stream config now stream) current
  clean_stream-IsNumbered config now t n stream current g =
      let (first, lo, kept) =
        Chain-drop (length stream.segments - config.playlist_length) g.first g.lo stream.segments
          stream.current_sequence g.hi g.chain in
      let (first', lo', young) =
        Chain-retain_young now config.cleanup_interval first lo _ stream.current_sequence g.hi
          kept in
      record {
        first = first';
        lo = lo';
        hi = g.hi;
        chain = young;
        past = g.past;
        few = g.few;
        next = g.next;
      }

  pub cleanup-AllNumbered :
      (now t n : ℕ) (s : HlsServer T) → AllNumbered t n s → AllNumbered t n (cleanup now s)
  unfolding cleanup
  cleanup-AllNumbered now t n s a = mapped-AllNumbered t n s _ cleaned a
    where
      clean : HlsStream T → HlsStream T
      clean = clean_stream s.config now

      cleaned :
          (k : String) (new : HlsStream T)
          → get k (map_values clean s.active_streams) ≡ some new
          → (old : HlsStream T) × (get k s.active_streams ≡ some old)
            × ((current : Option (HlsSegment T))
                → IsNumbered t n old current
                → IsNumbered t n new current)
      cleaned k new found = elim (Option-cases (get k s.active_streams)) [
        | inl e ↦ absurd (ground (arith, get-map_values k clean s.active_streams))
        | inr (old, e) ↦
            let same : new ≡ clean old = ground (arith, get-map_values k clean s.active_streams) in
            (old, e, λ current g. rw same (clean_stream-IsNumbered s.config now t n old current g))
      ]

  pub track_viewer-AllNumbered :
      (key : String) (t n : ℕ) (s : HlsServer T)
      → AllNumbered t n s
      → AllNumbered t n (track_viewer key s)
  unfolding track_viewer
  track_viewer-AllNumbered key t n s a = mapped-AllNumbered t n s _ counted a
    where
      again :
          (old : HlsStream T) (current : Option (HlsSegment T))
          → IsNumbered t n old current
          → IsNumbered t n (count_viewer old) current
      again old current g = record {
        first = g.first;
        lo = g.lo;
        hi = g.hi;
        chain = g.chain;
        past = g.past;
        few = g.few;
        next = g.next;
      }

      counted :
          (k : String) (new : HlsStream T)
          → get k (modify key count_viewer s.active_streams) ≡ some new
          → (old : HlsStream T) × (get k s.active_streams ≡ some old)
            × ((current : Option (HlsSegment T))
                → IsNumbered t n old current
                → IsNumbered t n new current)
      counted k new found = elim (Option-cases (get k s.active_streams)) [
        | inl e ↦ absurd (ground (arith, get-modify key k count_viewer s.active_streams))
        | inr (old, e) ↦ elim (Bool-cases (key == k)) [
          | inl same ↦
              let q : new ≡ count_viewer old =
                ground (arith, get-modify key k count_viewer s.active_streams) in
              (old, e, λ current g. rw q (again old current g))
          | inr other ↦
              let q : new ≡ old = ground (arith, get-modify key k count_viewer s.active_streams) in
              (old, e, λ current g. rw q g)
        ]
      ]
