-- ===== src/Rtmp/Codec/RoundTrip.antt =====
-- Decoding what was encoded.
use oxide_cast.Prelude.{
  ℕ, zero, suc, ap, ◌+◌, ◌*◌, ◌/◌, ◌%◌, ◌^◌, ◌≤◌, ◌<◌, ◌≡◌, refl, some, ok, List, [], ◌∷◌, ◌++◌,
  length, take, drop, min, arith, length-append,
}
use oxide_cast.Rtmp.Message.{RtmpMessageType, RtmpMessage, type_code, message_type_of}
use oxide_cast.Rtmp.Codec.{
  RtmpCodec, decode, encode, frame, basic_header, message_header, extended_timestamp, be24, le32,
  MessageHeader,
}
use oxide_cast.Rtmp.Codec.Safety.{Fits, cut-Fits}

message_type_of-type_code : (t : RtmpMessageType) → message_type_of (type_code t) ≡ some t
unfolding message_type_of
message_type_of-type_code RtmpMessageType.set_chunk_size = refl
message_type_of-type_code _ = refl

abbrev header_of : RtmpMessage → MessageHeader
header_of item = record {
  timestamp = item.timestamp;
  message_length = length item.payload;
  message_type_id = type_code item.message_type;
  message_stream_id = item.stream_id;
  offset = 12;
}

bytes24 : (n : ℕ) → n < 2 ^ 24 → n / 2 ^ 16 % 256 * 2 ^ 16 + n / 2 ^ 8 % 256 * 2 ^ 8 + n % 256 ≡ n
bytes24 n h = omega arith

bytes32 :
    (n : ℕ)
    → n < 2 ^ 32
    → n % 256 + n / 2 ^ 8 % 256 * 2 ^ 8 + n / 2 ^ 16 % 256 * 2 ^ 16 + n / 2 ^ 24 % 256 * 2 ^ 24 ≡ n
bytes32 n h = omega arith

frame-encode :
    (c : RtmpCodec) (item : RtmpMessage) (rest : List ℕ)
    → item.timestamp < 0xFFFFFF
    → item.stream_id < 2 ^ 32
    → length item.payload < 2 ^ 24
    → frame c (encode item ++ rest) ≡ ok (header_of item)
unfolding frame basic_header message_header extended_timestamp be24 le32 encode
frame-encode c item rest ht hs hl = ground (
  arith,
  bytes24 item.timestamp,
  bytes24 (length item.payload),
  bytes32 item.stream_id,
  length-append item.payload rest,
)

take_prefix {ℓ} :
    {A : Type ℓ} (n : ℕ) (xs ys : List A) → take (min (length xs) n) (xs ++ ys) ≡ take n xs
take_prefix zero xs ys = let e : min (length xs) 0 ≡ 0 = omega arith in rw e refl
take_prefix (suc n) [] ys = let e : min 0 (suc n) ≡ 0 = omega arith in rw e refl
take_prefix (suc n) (x ∷ xs) ys =
    let e : min (suc (length xs)) (suc n) ≡ suc (min (length xs) n) = omega arith in
    rw e (ap (◌∷◌ x) (take_prefix n xs ys))

drop_prefix {ℓ} :
    {A : Type ℓ} (n : ℕ) (xs ys : List A) → drop (min (length xs) n) (xs ++ ys) ≡ drop n xs ++ ys
drop_prefix zero xs ys = let e : min (length xs) 0 ≡ 0 = omega arith in rw e refl
drop_prefix (suc n) [] ys = let e : min 0 (suc n) ≡ 0 = omega arith in rw e refl
drop_prefix (suc n) (x ∷ xs) ys =
    let e : min (suc (length xs)) (suc n) ≡ suc (min (length xs) n) = omega arith in
    rw e (drop_prefix n xs ys)

drop-nil {ℓ} : {A : Type ℓ} (n : ℕ) → ◌≡◌ {A = List A} [] (drop n [])
drop-nil zero = refl
drop-nil (suc n) = refl

drop-drop {ℓ} : {A : Type ℓ} (a b : ℕ) (xs : List A) → drop (a + b) xs ≡ drop b (drop a xs)
drop-drop zero b xs = let e : 0 + b ≡ b = omega arith in rw e refl
drop-drop (suc a) b [] = let e : suc a + b ≡ suc (a + b) = omega arith in rw e (drop-nil b)
drop-drop (suc a) b (x ∷ xs) =
    let e : suc a + b ≡ suc (a + b) = omega arith in rw e (drop-drop a b xs)

encoded_bytes :
    (item : RtmpMessage) (rest : List ℕ)
    → (drop 12 (encode item ++ rest) ≡ item.payload ++ rest) × (12 ≤ length (encode item ++ rest))
unfolding encode
encoded_bytes item rest = (refl, omega arith)

encode-Fits :
    (c : RtmpCodec) (item : RtmpMessage) (rest : List ℕ)
    → Fits c (encode item ++ rest) (header_of item)
unfolding encode
encode-Fits c item rest = (omega arith, omega (arith, length-append item.payload rest))

-- What `decode` finds in a buffer that begins with an encoded message, when its timestamp is below
-- 0xFFFFFF, its stream id fits 32 bits and its payload is shorter than 2 ^ 24 bytes: the message with
-- at most `chunk_size` bytes of its payload. The other payload bytes stay in the buffer, in front of
-- what follows.
pub decode-encode :
    (c : RtmpCodec) (item : RtmpMessage) (rest : List ℕ)
    → item.timestamp < 0xFFFFFF
    → item.stream_id < 2 ^ 32
    → length item.payload < 2 ^ 24
    → decode c (encode item ++ rest) ≡ (
      ok (some (record item { payload = take c.chunk_size item.payload })),
      drop c.chunk_size item.payload ++ rest,
    )
unfolding decode
decode-encode c item rest ht hs hl =
    rw
      (
        frame-encode c item rest ht hs hl,
        cut-Fits c (encode item ++ rest) (header_of item) (encode-Fits c item rest),
        message_type_of-type_code item.message_type,
      )
      (ground (
        arith,
        encoded_bytes item rest,
        drop-drop 12 (min (length item.payload) c.chunk_size) (encode item ++ rest),
        take_prefix c.chunk_size item.payload rest,
        drop_prefix c.chunk_size item.payload rest,
      ))
