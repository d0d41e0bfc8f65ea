-- ===== src/Multicast/Packet/RoundTrip.antt =====
-- Senders and receivers of datagrams agree.
use oxide_cast.Prelude.{
  ◌+◌, ◌<◌, ◌^◌, ◌≡◌, some, take, length, min, arith, from_be_bytes-to_be_bytes, length-take,
}
use oxide_cast.Multicast.Packet.{MulticastPacket, payload_type_byte, packet_data, receive}

-- What a receiver reads of a packet is what was sent, but for payload past 1484 bytes.
pub receive-packet_data :
    (p : MulticastPacket)
    → p.sequence_number < 2 ^ 32
    → p.timestamp < 2 ^ 32
    → receive (packet_data p)
      ≡ some (record {
        sequence_number = p.sequence_number;
        timestamp = p.timestamp;
        payload_type = payload_type_byte p.payload_type;
        payload = take 1484 p.payload;
        size = 16 + min 1484 (length p.payload);
      })
unfolding receive packet_data
receive-packet_data p hs ht = ground (
  arith,
  length-take 1484 p.payload,
  from_be_bytes-to_be_bytes p.sequence_number,
  from_be_bytes-to_be_bytes p.timestamp,
)
