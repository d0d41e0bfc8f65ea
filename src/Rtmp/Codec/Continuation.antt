-- ===== src/Rtmp/Codec/Continuation.antt =====
-- Chunks of the formats 2 and 3, which leave out the type and the length of their message.
use oxide_cast.Prelude.{
  ℕ, ◌/◌, ◌%◌, ◌≤◌, ◌≡◌, ◌≢◌, inl, inr, refl, some, ok, err, List, ◌∷◌, length, arith, Bool-cases,
  Result-cases, Option-cases, ◌+◌, ltb, Result,
}
use oxide_cast.Rtmp.Message.{RtmpMessage, message_type_of}
use oxide_cast.Rtmp.Codec.{
  RtmpCodec, Stop, byte_at, basic_header, be24, be32, MessageHeader, message_header,
  extended_timestamp, frame, cut, decode, split_at, payload_size,
}

-- Their header has the message type 0.
message_header_continues :
    (src : List ℕ) (fmt o : ℕ) (h : MessageHeader)
    → message_header src fmt o ≡ ok h
    → 2 ≤ fmt
    → h.message_type_id ≡ 0
unfolding message_header
message_header_continues src fmt o h e two = elim (Result-cases (be24 src o)) [
  | inl (t, p) ↦ ground arith
  | inr (s, p) ↦ ground arith
]

extended_timestamp_keeps :
    (src : List ℕ) (h h' : MessageHeader)
    → extended_timestamp src h ≡ ok h'
    → h'.message_type_id ≡ h.message_type_id
unfolding extended_timestamp
extended_timestamp_keeps src h h' e = elim (Result-cases (be32 src h.offset)) [
  | inl (t, p) ↦ ground arith
  | inr (s, p) ↦ ground arith
]

frame_continues :
    (c : RtmpCodec) (b : ℕ) (src : List ℕ) (h : MessageHeader)
    → frame c (b ∷ src) ≡ ok h
    → 2 ≤ b / 64 % 4
    → h.message_type_id ≡ 0
unfolding frame byte_at
frame_continues c b src h e two = elim (Result-cases (basic_header (b ∷ src) (b % 64))) [
  | inr (s, p) ↦ ground arith
  | inl ((id, o), p) ↦ elim (Result-cases (message_header (b ∷ src) (b / 64 % 4) o)) [
    | inr (s, q) ↦ ground arith
    | inl (k, q) ↦ elim (Result-cases (extended_timestamp (b ∷ src) k)) [
      | inr (s, r) ↦ ground arith
      | inl (k', r) ↦ ground (
        arith,
        message_header_continues (b ∷ src) (b / 64 % 4) o k q two,
        extended_timestamp_keeps (b ∷ src) k k' r,
      )
    ]
  ]
]

cut_continues :
    (c : RtmpCodec) (src : List ℕ) (f : Result Stop MessageHeader) (m : RtmpMessage)
    → ((h : MessageHeader) → f ≡ ok h → h.message_type_id ≡ 0)
    → (cut c src f).0 ≢ ok (some m)
unfolding message_type_of
cut_continues c src (ok h) m zero_type =
    elim (Option-cases (split_at (h.offset + payload_size c h) src)) [
      | inl short ↦ rw (short, cut) (λ p. cc)
      | inr ((chunk, rest), whole) ↦ elim (Option-cases (split_at h.offset chunk)) [
        | inl short ↦ rw (whole, cut) (rw (short, cut) (λ p. cc))
        | inr (parts, inner) ↦ ground (arith, whole, inner, zero_type h refl)
      ]
    ]
cut_continues c src (err Stop.need_more) m zero_type = λ p. cc
cut_continues c src (err Stop.invalid_format) m zero_type = λ p. cc
cut_continues c src (err Stop.out_of_bounds) m zero_type = λ p. cc

-- A chunk of format 2 or 3 is never decoded to a message, whatever it holds and whatever came
-- before it.
pub decode_continuation :
    (c : RtmpCodec) (b : ℕ) (src : List ℕ) (m : RtmpMessage)
    → 2 ≤ b / 64 % 4
    → (decode c (b ∷ src)).0 ≢ ok (some m)
unfolding decode
decode_continuation c b src m two = elim (Bool-cases (ltb (length (b ∷ src)) 12)) [
  | inl short ↦ rw short (λ p. cc)
  | inr long ↦
      rw long
        (cut_continues c (b ∷ src) (frame c (b ∷ src)) m (λ h e. frame_continues c b src h e two))
]
