-- ===== src/Hls/Writer/Sequence.antt =====
-- What the steps of a segment writer do to the numbers of its stream's segments.
use oxide_cast.Prelude.{
  ℕ, ◌≤◌, ◌≡◌, refl, ◌∙◌, false, inl, inr, Option, none, some, String, Bool-cases, Option-cases,
  Result, ok, err, arith,
}
use oxide_cast.HashMap.{string_eq, ◌==◌, get}
use oxide_cast.Hls.Stream.{Types, HlsSegment, HlsStream}
use oxide_cast.Hls.Stream.Numbering.{Chain}
use oxide_cast.Hls.Writer.{
  HlsError, HlsCalls, WriterState, Action, and_then, new_segment, open_segment, start_new_segment,
}

module _ {T : Types} where
  -- The segment that is being written has the next number.
  abbrev pub IsNext : ℕ → ℕ → ℕ → Option (HlsSegment T) → Type 0
  IsNext hi t next none = Unit {0}
  IsNext hi t next (some segment) =
      (segment.sequence_number ≡ next) × (hi ≤ segment.created_at) × (segment.created_at ≤ t)

  -- The segments of a stream at the time `t`, after at most `n` of them.
  pub record IsNumbered (t n : ℕ) (stream : HlsStream T) (current : Option (HlsSegment T))
      : Type 0 where
    pub first : ℕ
    pub lo : ℕ
    pub hi : ℕ
    pub chain : Chain first lo stream.segments stream.current_sequence hi
    pub past : hi ≤ t
    pub few : stream.current_sequence ≤ n
    pub next : IsNext hi t stream.current_sequence current

  IsNext-later :
      (hi t t' next : ℕ) (current : Option (HlsSegment T))
      → t ≤ t'
      → IsNext hi t next current
      → IsNext hi t' next current
  IsNext-later hi t t' next none h p = tt
  IsNext-later hi t t' next (some segment) h p = (p.0, p.1, omega arith)

  pub IsNumbered-later :
      (t t' n n' : ℕ) (stream : HlsStream T) (current : Option (HlsSegment T))
      → t ≤ t'
      → n ≤ n'
      → IsNumbered t n stream current
      → IsNumbered t' n' stream current
  IsNumbered-later t t' n n' stream current h k g = record {
    first = g.first;
    lo = g.lo;
    hi = g.hi;
    chain = g.chain;
    past = (let p = g.past in omega arith);
    few = (let p = g.few in omega arith);
    next = IsNext-later g.hi t t' _ current h g.next;
  }

  -- The same for the stream of a writer, if it is there.
  abbrev pub Fine : ℕ → ℕ → WriterState T → Type 0
  Fine t n s =
      (stream : HlsStream T)
      → get s.writer.stream_key s.streams ≡ some stream
      → IsNumbered t n stream s.writer.current_segment

  -- A step keeps the key of its writer and all other streams.
  abbrev pub Local : WriterState T → WriterState T → Type 0
  Local s s' =
      (s'.writer.stream_key ≡ s.writer.stream_key)
      × ((j : String) → (s.writer.stream_key == j) ≡ false → get j s'.streams ≡ get j s.streams)

  pub Local-refl : (s : WriterState T) → Local s s
  Local-refl s = (refl, λ j h. refl)

  Local-trans : (a b c : WriterState T) → Local a b → Local b c → Local a c
  Local-trans a b c p q = (q.0 ∙ p.0, λ j h. q.1 j (rw p.0 h) ∙ p.1 j h)

  abbrev pub Sound : ℕ → ℕ → WriterState T → Result HlsError (Unit {0}) × WriterState T → Type 0
  Sound t n s r = Local s r.1 × Fine t n r.1

  pub Sound-and_then :
      (t n m : ℕ) (s : WriterState T) (r : Result HlsError (Unit {0}) × WriterState T)
      (f : Action T)
      → n ≤ m
      → Sound t n s r
      → ((s' : WriterState T) → Fine t n s' → Sound t m s' (f s'))
      → Sound t m s (and_then r f)
  Sound-and_then t n m s (ok u, s') f h p q =
      let after = q s' p.1 in (Local-trans s s' (f s').1 p.0 after.0, after.1)
  Sound-and_then t n m s (err e, s') f h p q = (
    p.0,
    λ stream found.
        IsNumbered-later t t n m stream s'.writer.current_segment (omega arith) h
          (p.1 stream found),
  )

  pub start_new_segment-Sound :
      (calls : HlsCalls T) (now n : ℕ) (s : WriterState T)
      → Fine now n s
      → Sound now n s (start_new_segment calls now s)
  unfolding start_new_segment
  start_new_segment-Sound calls now n s fine =
      elim (Option-cases (get s.writer.stream_key s.streams)) [
        | inl e ↦ rw (e, start_new_segment) (Local-refl s, fine)
        | inr (stream, e) ↦ elim (Bool-cases (calls.create (new_segment now stream).file_path)) [
          | inl made ↦ rw (e, start_new_segment, made) (Local-refl s, opened stream e)
          | inr failed ↦ rw (e, start_new_segment, failed) (Local-refl s, fine)
        ]
      ]
    where
      opened :
          (stream : HlsStream T)
          → get s.writer.stream_key s.streams ≡ some stream
          → Fine now n (record s { writer = open_segment now (new_segment now stream) s.writer })
      opened stream e other found =
          let g = fine other found in
          record {
            first = g.first;
            lo = g.lo;
            hi = g.hi;
            chain = g.chain;
            past = g.past;
            few = g.few;
            next = (cc (e, found), g.past, omega arith);
          }
