-- ===== src/StreamManager/Media.antt =====
-- The media path of src/stream_manager.rs: from a message of a publisher to a datagram of its group.
pub mod Delivery
use oxide_cast.Prelude.{
  ℕ, ◌+◌, ◌/◌, ◌%◌, ◌^◌, Bool, Option, none, some, List, String, length, if◌then◌else◌, Result, ok,
  err,
}
use oxide_cast.Action.{Action, ◌>>=◌, ◌>>◌, pure, gets, changes, on_result, within}
use oxide_cast.HashMap.{string_eq, nat_eq, ◌==◌, modify, values, map_values}
use oxide_cast.Net.{SocketAddr}
use oxide_cast.Database.{first_with}
use oxide_cast.Multicast.Packet.{MulticastPacket, PayloadType}
use oxide_cast.Multicast.Manager as Multicast
use oxide_cast.StreamManager.State.{
  Crates, Calls, ActiveStreamInfo, StreamSessionInfo, StreamManager, Does, in_multicast,
}

abbrev pub has_key : {Float : Type 0} → String → ActiveStreamInfo Float → Bool
has_key key info = info.stream_key == key

-- The numbers are u64.
abbrev pub count_frame :
    {Float : Type 0} → ℕ → ℕ → StreamSessionInfo Float → StreamSessionInfo Float
count_frame stream_id bytes session =
    if session.stream_id == stream_id
    then record session {
      metrics = record session.metrics {
        bytes_transmitted = (session.metrics.bytes_transmitted + bytes) % 2 ^ 64;
        frames_processed = (session.metrics.frames_processed + 1) % 2 ^ 64;
      };
    }
    else session

abbrev pub see_frame : {Float : Type 0} → ℕ → ActiveStreamInfo Float → ActiveStreamInfo Float
see_frame now info = record info { last_frame_at = now }

-- `timestamp() as u32`.
abbrev pub packet_of : ℕ → String → List ℕ → PayloadType → ℕ → MulticastPacket
packet_of now key bytes kind number = record {
  stream_key = key;
  sequence_number = number;
  timestamp = (now / 1_000_000_000) % 2 ^ 32;
  payload_type = kind;
  payload = bytes;
}

module _ {X : Crates} where
  -- One counter for all streams, an `AtomicU32`.
  unfoldable pub get_next_sequence_number : Does X ℕ
  get_next_sequence_number s =
      (ok s.sequence_number, record s { sequence_number = (s.sequence_number + 1) % 2 ^ 32 })

  unfoldable pub update_stream_metrics : ℕ → ℕ → StreamManager X → StreamManager X
  update_stream_metrics stream_id bytes s = record s {
    stream_sessions = map_values (count_frame stream_id bytes) s.stream_sessions;
  }

  abbrev pub see_stream : ℕ → ℕ → StreamManager X → StreamManager X
  see_stream stream_id now s = record s {
    active_streams = modify stream_id (see_frame now) s.active_streams;
  }

  -- For the stream that is on air.
  unfoldable pub send_media :
      Calls X
      → ℕ
      → String
      → List ℕ
      → PayloadType
      → ActiveStreamInfo X.hls_types.Float
      → Does X (Option (List ℕ × SocketAddr))
  send_media calls now key bytes kind info = do
    number ← get_next_sequence_number
    sent ← in_multicast (Multicast.send_packet calls.net now (packet_of now key bytes kind number))
    changes (update_stream_metrics info.stream_id (length bytes))
    changes (see_stream info.stream_id now)
    pure (some sent)

  abbrev pub send_found :
      Calls X
      → ℕ
      → String
      → List ℕ
      → PayloadType
      → Option (ActiveStreamInfo X.hls_types.Float)
      → Does X (Option (List ℕ × SocketAddr))
  send_found calls now key bytes kind none = pure none
  send_found calls now key bytes kind (some info) = send_media calls now key bytes kind info

  -- A success carries the datagram that was sent, if any, and where it went.
  unfoldable pub handle_media_data :
      Calls X → ℕ → String → List ℕ → PayloadType → Does X (Option (List ℕ × SocketAddr))
  handle_media_data calls now key bytes kind = do
    info ← gets (λ s. first_with (has_key key) (values s.active_streams))
    send_found calls now key bytes kind info
