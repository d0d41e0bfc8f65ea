-- ===== src/Hls/Writer/Data.antt =====
-- `finalize_current_segment` and `write_data` keep the segments of the stream numbered.
use oxide_cast.Prelude.{
  ℕ, ◌+◌, ◌-◌, ◌*◌, ◌%◌, ◌^◌, ◌≤◌, ◌<◌, ◌≡◌, refl, false, inl, inr, none, some, List, String, leb,
  Bool-cases, Option-cases, arith,
}
use oxide_cast.HashMap.{string_eq, ◌==◌, get, modify}
use oxide_cast.HashMap.Laws.{get-modify, beq_refl}
use oxide_cast.Hls.Stream.{Types, HlsConfig, HlsSegment, HlsStream, push_segment}
use oxide_cast.Hls.Stream.Numbering.{Chain-push}
use oxide_cast.Hls.Writer.{
  HlsCalls, WriterState, start_new_segment, completed, flushes, finalize_current_segment,
  start_if_none, rotate, append, write_data,
}
use oxide_cast.Hls.Writer.Sequence.{
  IsNumbered, IsNext, IsNumbered-later, Fine, Local-refl, Sound, Sound-and_then,
  start_new_segment-Sound,
}

module _ {T : Types} where
  pub finalize_current_segment-Sound :
      (calls : HlsCalls T) (now n : ℕ) (s : WriterState T)
      → n + 1 < 2 ^ 64
      → Fine now n s
      → Sound now (n + 1) s (finalize_current_segment calls now s)
  unfolding finalize_current_segment
  finalize_current_segment-Sound calls now n s room fine =
      elim (Option-cases s.writer.current_segment) [
        | inl e ↦ rw (e, finalize_current_segment) (Local-refl s, later e)
        | inr (segment, e) ↦ elim (Bool-cases (flushes calls s.writer.segment_file)) [
          | inl flushed ↦
              rw (e, finalize_current_segment, flushed) (pushed_local segment, pushed segment e)
          | inr failed ↦ rw (e, finalize_current_segment, failed) (Local-refl s, dropped)
        ]
      ]
    where
      pushing : HlsSegment T → HlsStream T → HlsStream T
      pushing segment = push_segment (completed now s.writer segment)

      later : s.writer.current_segment ≡ none → Fine now (n + 1) s
      later e stream found =
          IsNumbered-later now now n (n + 1) stream s.writer.current_segment (omega arith)
            (omega arith) (fine stream found)

      dropped :
          (stream : HlsStream T)
          → get s.writer.stream_key s.streams ≡ some stream
          → IsNumbered now (n + 1) stream none
      dropped stream found =
          let g = fine stream found in
          record {
            first = g.first;
            lo = g.lo;
            hi = g.hi;
            chain = g.chain;
            past = g.past;
            few = (let p = g.few in omega arith);
            next = tt;
          }

      pushed_local :
          (segment : HlsSegment T)
          → (s.writer.stream_key ≡ s.writer.stream_key)
            × ((j : String)
                → (s.writer.stream_key == j) ≡ false
                → get j (modify s.writer.stream_key (pushing segment) s.streams) ≡ get j s.streams)
      pushed_local segment = (
        refl,
        λ j h. ground (arith, get-modify s.writer.stream_key j (pushing segment) s.streams),
      )

      grown :
          (segment : HlsSegment T) (old : HlsStream T)
          → s.writer.current_segment ≡ some segment
          → IsNumbered now n old s.writer.current_segment
          → IsNumbered now (n + 1) (push_segment (completed now s.writer segment) old) none
      grown segment old e g =
          let next : IsNext g.hi now old.current_sequence (some segment) = rw e at g.next in
          record {
            first = g.first;
            lo = g.lo;
            hi = segment.created_at;
            chain = rw (small g.few) (
                Chain-push g.first g.lo old.segments old.current_sequence g.hi
                  (completed now s.writer segment) g.chain next.0 next.1 refl);
            past = next.2;
            few = rw (small g.few) (let p = g.few in omega arith);
            next = tt;
          }
        where
          small :
              old.current_sequence ≤ n
              → (old.current_sequence + 1) % 2 ^ 64 ≡ old.current_sequence + 1
          small h = omega arith

      pushed :
          (segment : HlsSegment T)
          → s.writer.current_segment ≡ some segment
          → (stream : HlsStream T)
          → get s.writer.stream_key (modify s.writer.stream_key (pushing segment) s.streams)
            ≡ some stream
          → IsNumbered now (n + 1) stream none
      pushed segment e stream found = elim (Option-cases (get s.writer.stream_key s.streams)) [
        | inl q ↦ absurd (
            ground (
              arith,
              get-modify s.writer.stream_key s.writer.stream_key (pushing segment) s.streams,
              beq_refl s.writer.stream_key,
            ))
        | inr (old, q) ↦ rw (same old q) (grown segment old e (fine old q))
      ]
        where
          same :
              (old : HlsStream T)
              → get s.writer.stream_key s.streams ≡ some old
              → stream ≡ push_segment (completed now s.writer segment) old
          same old q = ground (
            arith,
            get-modify s.writer.stream_key s.writer.stream_key (pushing segment) s.streams,
            beq_refl s.writer.stream_key,
          )

  start_if_none-Sound :
      (calls : HlsCalls T) (now n : ℕ) (s : WriterState T)
      → Fine now n s
      → Sound now n s (start_if_none calls now s)
  start_if_none-Sound calls now n s fine = elim (Option-cases s.writer.current_segment) [
    | inl e ↦ rw (e, start_if_none) (start_new_segment-Sound calls now n s fine)
    | inr (segment, e) ↦ rw (e, start_if_none) (Local-refl s, fine)
  ]

  rotate-Sound :
      (config : HlsConfig T) (calls : HlsCalls T) (now n : ℕ) (s : WriterState T)
      → n + 1 < 2 ^ 64
      → Fine now n s
      → Sound now (n + 1) s (rotate config calls now s)
  rotate-Sound config calls now n s room fine = elim (Option-cases s.writer.segment_start_time) [
    | inl e ↦ rw (e, rotate) (Local-refl s, kept)
    | inr (start, e) ↦
        elim (Bool-cases (leb (config.segment_duration * 1_000_000_000) (now - start))) [
          | inl over ↦
              rw (e, rotate, over)
                (Sound-and_then now (n + 1) (n + 1) s (finalize_current_segment calls now s)
                  (start_new_segment calls now) (omega arith)
                  (finalize_current_segment-Sound calls now n s room fine)
                  (start_new_segment-Sound calls now (n + 1)))
          | inr under ↦ rw (e, rotate, under) (Local-refl s, kept)
        ]
  ]
    where
      kept : Fine now (n + 1) s
      kept stream found =
          IsNumbered-later now now n (n + 1) stream s.writer.current_segment (omega arith)
            (omega arith) (fine stream found)

  append-Sound :
      (calls : HlsCalls T) (bytes : List ℕ) (now n : ℕ) (s : WriterState T)
      → Fine now n s
      → Sound now n s (append calls bytes s)
  append-Sound calls bytes now n s fine = elim (Option-cases s.writer.segment_file) [
    | inl e ↦ rw (e, append) (Local-refl s, fine)
    | inr (file, e) ↦ elim (Bool-cases (calls.write_all file bytes)) [
      | inl wrote ↦ rw (e, append, wrote) (Local-refl s, fine)
      | inr failed ↦ rw (e, append, failed) (Local-refl s, fine)
    ]
  ]

  pub write_data-Sound :
      (config : HlsConfig T) (calls : HlsCalls T) (bytes : List ℕ) (now n : ℕ) (s : WriterState T)
      → n + 1 < 2 ^ 64
      → Fine now n s
      → Sound now (n + 1) s (write_data config calls now bytes s)
  unfolding write_data
  write_data-Sound config calls bytes now n s room fine =
      Sound-and_then now (n + 1) (n + 1) s _ (append calls bytes) (omega arith)
        (Sound-and_then now n (n + 1) s (start_if_none calls now s) (rotate config calls now)
          (omega arith) (start_if_none-Sound calls now n s fine)
          (λ s'. rotate-Sound config calls now n s' room))
        (append-Sound calls bytes now (n + 1))
