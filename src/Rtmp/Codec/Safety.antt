-- ===== src/Rtmp/Codec/Safety.antt =====
-- `decode` on any buffer: no index out of bounds, and no call that neither asks for more bytes nor
-- takes some.
use oxide_cast.Prelude.{
  ℕ, zero, suc, ◌+◌, ◌*◌, ◌^◌, ◌>>=◌, ◌/◌, ◌%◌, ◌≤◌, ◌<◌, ◌≡◌, ◌⊎◌, inl, inr, refl, none, ok, err,
  List, [], ◌∷◌, length, arith, length-drop, Bool-cases, ltb, leb, Result, Option, some, true, take,
  drop, ap,
}
use oxide_cast.Rtmp.Codec.{
  RtmpCodec, Stop, need_more, invalid_format, out_of_bounds, byte_at, basic_header, be24, le32,
  be32, MessageHeader, message_header, extended_timestamp, payload_size, frame, DecodeError, cut,
  decode, at_least, unknown_message_type, with_type,
}
use oxide_cast.Rtmp.Message.{RtmpMessageType, message_type_of}

byte_at-ok : (src : List ℕ) (i : ℕ) → i < length src → (x : ℕ) × (byte_at src i ≡ ok x)
unfolding byte_at
byte_at-ok [] i h = elim h [ ]
byte_at-ok (x ∷ src) zero h = (x, refl)
byte_at-ok (x ∷ src) (suc i) h = byte_at-ok src i (omega arith)

pub be24-ok : (src : List ℕ) (o : ℕ) → o + 3 ≤ length src → (x : ℕ) × (be24 src o ≡ ok x)
unfolding be24
be24-ok src o h =
    let (a, p) = byte_at-ok src o (omega arith) in
    let (b, q) = byte_at-ok src (o + 1) (omega arith) in
    let (c, r) = byte_at-ok src (o + 2) (omega arith) in
    (a * 2 ^ 16 + b * 2 ^ 8 + c, rw (p, q, r) refl)

be32-ok : (src : List ℕ) (o : ℕ) → o + 4 ≤ length src → (x : ℕ) × (be32 src o ≡ ok x)
unfolding be32
be32-ok src o h =
    let (a, p) = byte_at-ok src o (omega arith) in
    let (b, q) = byte_at-ok src (o + 1) (omega arith) in
    let (c, r) = byte_at-ok src (o + 2) (omega arith) in
    let (d, s) = byte_at-ok src (o + 3) (omega arith) in
    (a * 2 ^ 24 + b * 2 ^ 16 + c * 2 ^ 8 + d, rw (p, q, r, s) refl)

le32-ok : (src : List ℕ) (o : ℕ) → o + 4 ≤ length src → (x : ℕ) × (le32 src o ≡ ok x)
unfolding le32
le32-ok src o h =
    let (a, p) = byte_at-ok src o (omega arith) in
    let (b, q) = byte_at-ok src (o + 1) (omega arith) in
    let (c, r) = byte_at-ok src (o + 2) (omega arith) in
    let (d, s) = byte_at-ok src (o + 3) (omega arith) in
    (a + b * 2 ^ 8 + c * 2 ^ 16 + d * 2 ^ 24, rw (p, q, r, s) refl)

-- A stage asks for more bytes, or succeeds with a value that has a property.
abbrev pub Fine : {A : Type 0} → (A → Type 0) → Result Stop A → Type 0
Fine P (ok a) = P a
Fine P (err need_more) = Unit
Fine P (err invalid_format) = ⊥
Fine P (err out_of_bounds) = ⊥

basic_header-Fine :
    (src : List ℕ) (id : ℕ)
    → 1 ≤ length src
    → Fine (λ r. (1 ≤ r.1) × (r.1 ≤ length src)) (basic_header src id)
unfolding basic_header
basic_header-Fine src id h = ground (arith, byte_at-ok src 1, byte_at-ok src 2)

message_header-Fine :
    (src : List ℕ) (fmt o : ℕ)
    → fmt < 4
    → o ≤ length src
    → Fine (λ r. (o ≤ r.offset) × (r.offset ≤ length src)) (message_header src fmt o)
unfolding message_header
message_header-Fine src fmt o hf ho =
    ground (arith, be24-ok src o, be24-ok src (o + 3), byte_at-ok src (o + 6), le32-ok src (o + 7))

extended_timestamp-Fine :
    (src : List ℕ) (h : MessageHeader)
    → h.offset ≤ length src
    → Fine (λ r. (h.offset ≤ r.offset) × (r.offset ≤ length src)) (extended_timestamp src h)
unfolding extended_timestamp
extended_timestamp-Fine src h ho = ground (arith, be32-ok src h.offset)

Fine-bind :
    {A B : Type 0} (P : A → Type 0) (Q : B → Type 0) (m : Result Stop A) (f : A → Result Stop B)
    → Fine P m
    → ((a : A) → P a → Fine Q (f a))
    → Fine Q (m >>= f)
Fine-bind P Q (ok a) f p h = h a p
Fine-bind P Q (err need_more) f p h = tt
Fine-bind P Q (err invalid_format) f p h = p
Fine-bind P Q (err out_of_bounds) f p h = p

abbrev pub Fits : RtmpCodec → List ℕ → MessageHeader → Type 0
Fits c src h = (1 ≤ h.offset) × (h.offset + payload_size c h ≤ length src)

frame_end :
    (c : RtmpCodec) (src : List ℕ) (h : MessageHeader)
    → 1 ≤ h.offset
    → Fine (Fits c src) (at_least (h.offset + payload_size c h) src >>= λ _. ok h)
frame_end c src h low = ground arith

-- Reading a frame never runs out of bounds, and a frame fits into the buffer.
pub frame-Fine : (c : RtmpCodec) (src : List ℕ) → 1 ≤ length src → Fine (Fits c src) (frame c src)
unfolding frame
frame-Fine c src h =
    Fine-bind (λ _. Unit) (Fits c src) (byte_at src 0) _ (ground (arith, byte_at-ok src 0))
      λ b _.
        Fine-bind (λ r. (1 ≤ r.1) × (r.1 ≤ length src)) (Fits c src) (basic_header src (b % 64)) _
          (basic_header-Fine src (b % 64) h)
          λ r low.
            Fine-bind (λ k. (r.1 ≤ k.offset) × (k.offset ≤ length src)) (Fits c src)
              (message_header src (b / 64 % 4) r.1) _
              (message_header-Fine src (b / 64 % 4) r.1 (omega arith) low.1)
              λ k mid.
                Fine-bind (λ k'. (k.offset ≤ k'.offset) × (k'.offset ≤ length src)) (Fits c src)
                  (extended_timestamp src k) _ (extended_timestamp-Fine src k mid.1)
                  λ k' high. frame_end c src k' (omega arith)

take-length_le {ℓ} : {A : Type ℓ} (n : ℕ) (xs : List A) → n ≤ length xs → length (take n xs) ≡ n
take-length_le zero xs h = refl
take-length_le (suc n) [] h = absurd (omega arith)
take-length_le (suc n) (x ∷ xs) h = ap suc (take-length_le n xs (omega arith))

take-nil {ℓ} : {A : Type ℓ} (n : ℕ) → ◌≡◌ {A = List A} [] (take n [])
take-nil zero = refl
take-nil (suc n) = refl

drop-take {ℓ} : {A : Type ℓ} (o n : ℕ) (xs : List A) → drop o (take (o + n) xs) ≡ take n (drop o xs)
drop-take zero n xs = let e : 0 + n ≡ n = omega arith in rw e refl
drop-take (suc o) n [] = let e : suc o + n ≡ suc (o + n) = omega arith in rw e (take-nil n)
drop-take (suc o) n (x ∷ xs) =
    let e : suc o + n ≡ suc (o + n) = omega arith in rw e (drop-take o n xs)

-- A chunk that fits into the buffer is cut off it.
pub cut-Fits :
    (c : RtmpCodec) (src : List ℕ) (h : MessageHeader)
    → Fits c src h
    → cut c src (ok h) ≡ (
      with_type (message_type_of h.message_type_id) h (take (payload_size c h) (drop h.offset src)),
      drop (h.offset + payload_size c h) src,
    )
cut-Fits c src h (_, fits) =
    let n : ℕ = h.offset + payload_size c h in
    let whole : leb n (length src) ≡ true = ground arith in
    let inner : leb h.offset (length (take n src)) ≡ true =
      ground (arith, take-length_le n src fits) in
    ground (arith, whole, inner, drop-take h.offset (payload_size c h) src)

cut-progress :
    (c : RtmpCodec) (src : List ℕ) (r : Result Stop MessageHeader)
    → Fine (Fits c src) r
    → (cut c src r ≡ (ok none, src)) ⊎ (length (cut c src r).1 < length src)
cut-progress c src (ok h) f =
    rw (cut-Fits c src h f) (inr (omega (arith, length-drop (h.offset + payload_size c h) src)))
cut-progress c src (err need_more) f = inl refl
cut-progress c src (err invalid_format) f = absurd f
cut-progress c src (err out_of_bounds) f = absurd f

-- On any buffer `decode` either asks for more bytes and leaves the buffer as it is, or takes at
-- least one byte off it, also when it fails. So the loop that calls it comes to an end.
pub decode_progress :
    (c : RtmpCodec) (src : List ℕ)
    → (decode c src ≡ (ok none, src)) ⊎ (length (decode c src).1 < length src)
unfolding decode
decode_progress c src = elim (Bool-cases (ltb (length src) 12)) [
  | inl short ↦ inl (rw short refl)
  | inr long ↦ rw long (cut-progress c src (frame c src) (frame-Fine c src (ground arith)))
]

with_type_failures :
    (t : Option RtmpMessageType) (h : MessageHeader) (payload : List ℕ) (e : DecodeError)
    → with_type t h payload ≡ err e
    → (e ≡ unknown_message_type) × (t ≡ none)
with_type_failures none h payload e p = (cc, refl)
with_type_failures (some t) h payload e p = absurd cc

-- A whole chunk whose type has no name, taken off the buffer.
abbrev pub Skipped : RtmpCodec → List ℕ → Result Stop MessageHeader → List ℕ → Type 0
Skipped c src r rest =
    (h : MessageHeader) × (r ≡ ok h)
    × (message_type_of h.message_type_id ≡ none)
    × (rest ≡ drop (h.offset + payload_size c h) src)

cut_failures :
    (c : RtmpCodec) (src : List ℕ) (r : Result Stop MessageHeader) (e : DecodeError)
    → Fine (Fits c src) r
    → (cut c src r).0 ≡ err e
    → (e ≡ unknown_message_type) × Skipped c src r (cut c src r).1
cut_failures c src (ok h) e f p =
    let q = with_type_failures _ h _ e (rw (cut-Fits c src h f) at p) in
    (q.0, (h, refl, q.1, ap (λ r. r.1) (cut-Fits c src h f)))
cut_failures c src (err need_more) e f p = absurd cc
cut_failures c src (err invalid_format) e f p = absurd f
cut_failures c src (err out_of_bounds) e f p = absurd f

-- `decode` never panics, neither on an index nor when it cuts the buffer, and never finds a format
-- invalid: on any buffer, its one error is an unknown message type, and then a whole chunk with a type
-- number that has no name has been taken off the buffer.
pub decode_failures :
    (c : RtmpCodec) (src : List ℕ) (e : DecodeError)
    → (decode c src).0 ≡ err e
    → (e ≡ unknown_message_type) × Skipped c src (frame c src) (decode c src).1
unfolding decode
decode_failures c src e p = elim (Bool-cases (ltb (length src) 12)) [
  | inl short ↦ absurd (cc (short))
  | inr long ↦
      rw (long)
        (cut_failures c src (frame c src) e (frame-Fine c src (ground arith)) (rw (long) at p))
]
