-- ===== src/Multicast/Packet.antt =====
-- `MulticastPacket` and the datagram that `PacketSender::send_packet` of src/multicast.rs builds,
-- with the parsing that the receivers of src/hls_server.rs and src/webrtc_server.rs share.
pub mod RoundTrip
use oxide_cast.Prelude.{
  ℕ, ◌+◌, ◌<◌, ◌^◌, List, [], ◌∷◌, ◌++◌, String, Option, none, some, to_be_bytes, from_be_bytes,
  take, drop, replicate, length, ltb, if◌then◌else◌,
}

pub data PayloadType : Type 0 where
  video audio metadata key_frame : PayloadType

pub record MulticastPacket : Type 0 where
  pub stream_key : String
  pub sequence_number : ℕ
  pub timestamp : ℕ
  pub payload_type : PayloadType
  pub payload : List ℕ

-- `payload_type as u8`.
abbrev pub payload_type_byte : PayloadType → ℕ
payload_type_byte video = 0
payload_type_byte audio = 1
payload_type_byte metadata = 2
payload_type_byte key_frame = 3

-- The 16 bytes of header, seven of them padding, and the payload.
unfoldable pub packet_data : MulticastPacket → List ℕ
packet_data p =
    to_be_bytes p.sequence_number
    ++ (to_be_bytes p.timestamp
        ++ (payload_type_byte p.payload_type ∷ (replicate 7 0 ++ p.payload)))

-- What a receiver reads off a datagram.
pub record Received : Type 0 where
  pub sequence_number : ℕ
  pub timestamp : ℕ
  pub payload_type : ℕ
  pub payload : List ℕ
  pub size : ℕ

-- `recv_from` cuts a datagram to the receive buffer of 1500 bytes.
abbrev pub recv_buffer : ℕ
recv_buffer = 1500

abbrev pub parse_header : List ℕ → Option Received
parse_header (s0 ∷ s1 ∷ s2 ∷ s3 ∷ t0 ∷ t1 ∷ t2 ∷ t3 ∷ kind ∷ rest) = some (record {
  sequence_number = from_be_bytes s0 s1 s2 s3;
  timestamp = from_be_bytes t0 t1 t2 t3;
  payload_type = kind;
  payload = drop 7 rest;
  size = length rest + 9;
})
parse_header _ = none

-- `none` is a datagram that is too small and skipped.
unfoldable pub receive : List ℕ → Option Received
receive datagram =
    let buffer = take recv_buffer datagram in
    if ltb (length buffer) 16 then none else parse_header buffer
