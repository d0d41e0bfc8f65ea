-- ===== src/Rtmp/Codec.antt =====
-- `RtmpCodec` of src/rtmp_server.rs: the decoder and the encoder of RTMP chunks. A buffer is a list
-- of bytes; `<<` and `|` on bytes in disjoint places are products and sums. An index past the end
-- of the buffer would panic, which is a result of its own here.
pub mod RoundTrip
pub mod Safety
pub mod Framing
pub mod Continuation
use oxide_cast.Prelude.{
  ℕ, ◌+◌, ◌*◌, ◌/◌, ◌%◌, ◌^◌, Option, none, some, List, [], ◌∷◌, ◌++◌, length, get_elem?, take,
  drop, min, ltb, leb, ◌==◌, if◌then◌else◌, Result, ok, err, ok_or, guard, ◌>>=◌, ◌>>◌,
}
use oxide_cast.Rtmp.Message.{RtmpMessageType, RtmpMessage, message_type_of, type_code}

pub record RtmpCodec : Type 0 where
  pub chunk_size : ℕ
  pub window_ack_size : ℕ
  pub peer_bandwidth : ℕ
  pub sequence_number : ℕ
  pub last_ack_sent : ℕ

abbrev pub new : RtmpCodec
new = record {
  chunk_size = 128;
  window_ack_size = 2500000;
  peer_bandwidth = 2500000;
  sequence_number = 0;
  last_ack_sent = 0;
}

-- Why `decode` stops early: `return Ok(None)`, its error on the format, or an index that panics.
pub data Stop : Type 0 where
  need_more invalid_format out_of_bounds : Stop

unfoldable pub byte_at : List ℕ → ℕ → Result Stop ℕ
byte_at src i = ok_or (get_elem? src i) out_of_bounds

-- `if src.len() < n { return Ok(None) }`.
abbrev pub at_least : ℕ → List ℕ → Result Stop (Unit {0})
at_least n src = guard (leb n (length src)) need_more

-- The chunk stream id, and the offset behind the basic header.
unfoldable pub basic_header : List ℕ → ℕ → Result Stop (ℕ × ℕ)
unfolding byte_at
basic_header src id =
    if id == 0
    then (do at_least 2 src; a ← byte_at src 1; ok (a + 64, 2))
    else if id == 1
    then (do at_least 3 src; a ← byte_at src 1; b ← byte_at src 2; ok (a + b * 2 ^ 8 + 64, 3))
    else ok (id, 1)

-- Three bytes, most significant first.
unfoldable pub be24 : List ℕ → ℕ → Result Stop ℕ
unfolding byte_at
be24 src o = do
  a ← byte_at src o
  b ← byte_at src (o + 1)
  c ← byte_at src (o + 2)
  ok (a * 2 ^ 16 + b * 2 ^ 8 + c)

-- Four bytes, least significant first and most significant first.
unfoldable pub le32 : List ℕ → ℕ → Result Stop ℕ
unfolding byte_at
le32 src o = do
  a ← byte_at src o
  b ← byte_at src (o + 1)
  c ← byte_at src (o + 2)
  d ← byte_at src (o + 3)
  ok (a + b * 2 ^ 8 + c * 2 ^ 16 + d * 2 ^ 24)

unfoldable pub be32 : List ℕ → ℕ → Result Stop ℕ
unfolding byte_at
be32 src o = do
  a ← byte_at src o
  b ← byte_at src (o + 1)
  c ← byte_at src (o + 2)
  d ← byte_at src (o + 3)
  ok (a * 2 ^ 24 + b * 2 ^ 16 + c * 2 ^ 8 + d)

pub record MessageHeader : Type 0 where
  pub timestamp : ℕ
  pub message_length : ℕ
  pub message_type_id : ℕ
  pub message_stream_id : ℕ
  pub offset : ℕ

-- The message header by the format of the chunk. The formats 1 to 3 take what they leave out from
-- nowhere: it is 0.
unfoldable pub message_header : List ℕ → ℕ → ℕ → Result Stop MessageHeader
message_header src fmt o =
    if fmt == 0
    then (do
      at_least (o + 11) src
      t ← be24 src o
      l ← be24 src (o + 3)
      k ← byte_at src (o + 6)
      s ← le32 src (o + 7)
      ok (record {
        timestamp = t;
        message_length = l;
        message_type_id = k;
        message_stream_id = s;
        offset = o + 11;
      }))
    else if fmt == 1
    then (do
      at_least (o + 7) src
      t ← be24 src o
      l ← be24 src (o + 3)
      k ← byte_at src (o + 6)
      ok (record {
        timestamp = t;
        message_length = l;
        message_type_id = k;
        message_stream_id = 0;
        offset = o + 7;
      }))
    else if fmt == 2
    then (do
      at_least (o + 3) src
      t ← be24 src o
      ok (record {
        timestamp = t;
        message_length = 0;
        message_type_id = 0;
        message_stream_id = 0;
        offset = o + 3;
      }))
    else if fmt == 3
    then ok (record {
      timestamp = 0;
      message_length = 0;
      message_type_id = 0;
      message_stream_id = 0;
      offset = o;
    })
    else err invalid_format

-- A timestamp of 0xFFFFFF stands for four more bytes.
unfoldable pub extended_timestamp : List ℕ → MessageHeader → Result Stop MessageHeader
extended_timestamp src h =
    if leb 0xFFFFFF h.timestamp
    then (do
      at_least (h.offset + 4) src
      t ← be32 src h.offset
      ok (record h { timestamp = t; offset = h.offset + 4 }))
    else ok h

abbrev pub payload_size : RtmpCodec → MessageHeader → ℕ
payload_size c h = min h.message_length c.chunk_size

-- All that is read before the buffer is cut.
unfoldable pub frame : RtmpCodec → List ℕ → Result Stop MessageHeader
frame c src = do
  b ← byte_at src 0
  (id, o) ← basic_header src (b % 64)
  h ← message_header src (b / 64 % 4) o
  h' ← extended_timestamp src h
  at_least (h'.offset + payload_size c h') src
  ok h'

pub data DecodeError : Type 0 where
  invalid_chunk_format unknown_message_type panics : DecodeError

abbrev pub with_type :
    Option RtmpMessageType → MessageHeader → List ℕ → Result DecodeError (Option RtmpMessage)
with_type none h payload = err unknown_message_type
with_type (some t) h payload = ok (
    some (record {
      message_type = t;
      timestamp = h.timestamp;
      stream_id = h.message_stream_id;
      payload = payload;
    }))

-- `split_to` and `split_off` of the buffer: the first `n` bytes and the others. Both panic when there
-- are fewer than `n`.
abbrev pub split_at : ℕ → List ℕ → Option (List ℕ × List ℕ)
split_at n src = if leb n (length src) then some (take n src, drop n src) else none

-- The chunk is cut off the buffer, and the payload off the chunk; the message type is looked at after
-- that.
abbrev pub cut :
    RtmpCodec
    → List ℕ
    → Result Stop MessageHeader
    → Result DecodeError (Option RtmpMessage) × List ℕ
cut c src (err need_more) = (ok none, src)
cut c src (err invalid_format) = (err invalid_chunk_format, src)
cut c src (err out_of_bounds) = (err panics, src)
cut c src (ok h) = elim (split_at (h.offset + payload_size c h) src) [
  | none ↦ (err panics, src)
  | some (chunk, rest) ↦ elim (split_at h.offset chunk) [
    | none ↦ (err panics, rest)
    | some (header, payload) ↦ (with_type (message_type_of h.message_type_id) h payload, rest)
  ]
]

-- `decode`: the result, and what is left of the buffer. The codec does not change.
unfoldable pub decode : RtmpCodec → List ℕ → Result DecodeError (Option RtmpMessage) × List ℕ
decode c src = if ltb (length src) 12 then (ok none, src) else cut c src (frame c src)

-- `x as u8` keeps the low eight bits.
abbrev pub u8 : ℕ → ℕ
u8 x = x % 256

-- `encode`: what it appends to the buffer.
unfoldable pub encode : RtmpMessage → List ℕ
encode item =
    let n = length item.payload in
    0x02
    ∷ u8 (item.timestamp / 2 ^ 16)
    ∷ u8 (item.timestamp / 2 ^ 8)
    ∷ u8 item.timestamp
    ∷ u8 (n / 2 ^ 16)
    ∷ u8 (n / 2 ^ 8)
    ∷ u8 n
    ∷ type_code item.message_type
    ∷ u8 item.stream_id
    ∷ u8 (item.stream_id / 2 ^ 8)
    ∷ u8 (item.stream_id / 2 ^ 16)
    ∷ u8 (item.stream_id / 2 ^ 24)
    ∷ item.payload
