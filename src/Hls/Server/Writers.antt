-- ===== src/Hls/Server/Writers.antt =====
-- A step of one writer, and the streams and writers of the server around it.
use oxide_cast.Prelude.{ℕ, ◌+◌, ◌≡◌, true, false, inl, inr, some, String, Bool-cases, Result, arith}
use oxide_cast.HashMap.{string_eq, ◌==◌, get, insert}
use oxide_cast.HashMap.Laws.{get-insert}
use oxide_cast.Hls.Stream.{Types, HlsStream}
use oxide_cast.Hls.Writer.{HlsError, SegmentWriter, WriterState}
use oxide_cast.Hls.Writer.Sequence.{Fine, Sound}
use oxide_cast.Hls.Server.{HlsServer, put_back}
use oxide_cast.Hls.Server.Numbering.{AllNumbered, AllNumbered-later}

module _ {T : Types} where
  abbrev pub at_writer : SegmentWriter T → HlsServer T → WriterState T
  at_writer w s = record { writer = w; streams = s.active_streams }

  pub writer-Fine :
      (t n : ℕ) (key : String) (w : SegmentWriter T) (s : HlsServer T)
      → AllNumbered t n s
      → get key s.segment_writers ≡ some w
      → Fine t n (at_writer w s)
  writer-Fine t n key w s a e stream found =
      let (w', e', g) = a.numbered key stream (rw (a.named key w e) at found) in rw (same w' e') g
    where
      same : (w' : SegmentWriter T) → get key s.segment_writers ≡ some w' → w ≡ w'
      same w' e' = ground arith

  pub put_back-AllNumbered :
      (t n : ℕ) (key : String) (w : SegmentWriter T) (s : HlsServer T)
      (r : Result HlsError (Unit {0}) × WriterState T)
      → AllNumbered t n s
      → get key s.segment_writers ≡ some w
      → Sound t (n + 1) (at_writer w s) r
      → AllNumbered t (n + 1) (put_back key r.1 s)
  put_back-AllNumbered t n key w s r a e p = record {
    named = λ k v found. elim (Bool-cases (key == k)) [
      | inl same ↦ ground (
        arith,
        get-insert key k r.1.writer s.segment_writers,
        string_eq.same_iff key k,
        p.0.0,
        named,
      )
      | inr other ↦ ground (arith, later.named k v, get-insert key k r.1.writer s.segment_writers)
    ];
    numbered = λ k stream found. elim (Bool-cases (key == k)) [
      | inl same ↦ (r.1.writer, at_key k same, p.1 stream (own k stream same found))
      | inr other ↦
          let (v, q, g) = later.numbered k stream (rw (p.0.1 k (rw named other)) at found) in
          (v, not_at_key k v other q, g)
    ];
  }
    where
      named : w.stream_key ≡ key
      named = a.named key w e

      later : AllNumbered t (n + 1) s
      later = AllNumbered-later t t n (n + 1) s (omega arith) (omega arith) a

      at_key :
          (k : String)
          → (key == k) ≡ true
          → get k (insert key r.1.writer s.segment_writers) ≡ some r.1.writer
      at_key k same = ground (arith, get-insert key k r.1.writer s.segment_writers)

      own :
          (k : String) (stream : HlsStream T)
          → (key == k) ≡ true
          → get k r.1.streams ≡ some stream
          → get r.1.writer.stream_key r.1.streams ≡ some stream
      own k stream same found = rw (p.0.0, named, (string_eq.same_iff key k).0 same) found

      not_at_key :
          (k : String) (v : SegmentWriter T)
          → (key == k) ≡ false
          → get k s.segment_writers ≡ some v
          → get k (insert key r.1.writer s.segment_writers) ≡ some v
      not_at_key k v other q = ground (arith, get-insert key k r.1.writer s.segment_writers)
