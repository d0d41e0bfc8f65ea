-- ===== src/Rtmp/Tests.antt =====
-- Concrete runs of the RTMP ingest, and its theorems at concrete inputs.
use oxide_cast.Prelude.{
  ℕ, ◌≡◌, ◌≢◌, ◌⊎◌, ◌<◌, refl, true, false, none, some, List, [], ◌∷◌, ◌++◌, String, length, ok,
  err, arith, ◌==◌, if◌then◌else◌,
}
use oxide_cast.HashMap.{string_eq, get}
use oxide_cast.Net.{octets, v4, SocketAddr, socket_addr, socket_addr_eq}
use oxide_cast.Rtmp.Message.{RtmpMessage, audio_data, command_amf0, message_type_of}
use oxide_cast.Rtmp.Codec.{
  new, decode, encode, frame, byte_at, basic_header, message_header, be24, extended_timestamp,
  unknown_message_type,
}
use oxide_cast.Rtmp.Codec.RoundTrip.{decode-encode}
use oxide_cast.Rtmp.Codec.Safety.{decode_progress, decode_failures, Skipped}
use oxide_cast.Rtmp.Codec.Framing.{decode-append}
use oxide_cast.Rtmp.Codec.Continuation.{decode_continuation}
use oxide_cast.Rtmp.Amf.{
  AmfError, parse_amf0_string, parse_stream_key_from_publish, position_of_marker,
}
use oxide_cast.Rtmp.Amf.Keys.{parse_stream_key-publish}
use oxide_cast.Rtmp.Server.{RtmpServer, Calls, amf, handle_command, accept_publish}
use oxide_cast.Rtmp.Server.Commands.{handle_command_refuses}
use oxide_cast.Rtmp.Connection.{handle_rtmp_messages, handle_connection}
use oxide_cast.Rtmp.Connection.Leaves.{EntryAfter, handle_connection_leaves, accepted_publish_stays}

abbrev sound : RtmpMessage
sound = record {
  message_type = audio_data;
  timestamp = 70000;
  stream_id = 258;
  payload = 1 ∷ 2 ∷ 3 ∷ [];
}

encode-sound : encode sound ≡ 2 ∷ 1 ∷ 17 ∷ 112 ∷ 0 ∷ 0 ∷ 3 ∷ 8 ∷ 2 ∷ 1 ∷ 0 ∷ 0 ∷ 1 ∷ 2 ∷ 3 ∷ []
unfolding encode
encode-sound = refl

decode-encode_example : decode new (encode sound ++ (9 ∷ [])) ≡ (ok (some sound), 9 ∷ [])
decode-encode_example = decode-encode new sound (9 ∷ []) (omega arith) (omega arith) (omega arith)

-- Eleven bytes of zeros behind a basic header of format 3.
abbrev continuation : List ℕ
continuation = 0xC2 ∷ 0 ∷ 0 ∷ 0 ∷ 0 ∷ 0 ∷ 0 ∷ 0 ∷ 0 ∷ 0 ∷ 0 ∷ 0 ∷ []

continuation_fails : (decode new continuation).0 ≡ err unknown_message_type
unfolding decode frame byte_at basic_header message_header extended_timestamp message_type_of be24
continuation_fails = refl

decode_progress_example :
    (decode new continuation ≡ (ok none, continuation)) ⊎ (length (decode new continuation).1 < 12)
decode_progress_example = decode_progress new continuation

decode_failures_example :
    (unknown_message_type ≡ unknown_message_type)
    × Skipped new continuation (frame new continuation) (decode new continuation).1
decode_failures_example = decode_failures new continuation unknown_message_type continuation_fails

decode-append_example :
    decode new (continuation ++ (7 ∷ []))
    ≡ ((decode new continuation).0, (decode new continuation).1 ++ (7 ∷ []))
decode-append_example = decode-append new continuation (7 ∷ []) (λ e. cc (continuation_fails))

decode_continuation_example : (decode new continuation).0 ≢ ok (some sound)
decode_continuation_example =
    decode_continuation new 0xC2 (0 ∷ 0 ∷ 0 ∷ 0 ∷ 0 ∷ 0 ∷ 0 ∷ 0 ∷ 0 ∷ 0 ∷ 0 ∷ []) sound
      (omega arith)

-- A decoding of text that knows two words.
abbrev words : List ℕ → String
words [] = ""
words (b ∷ bs) = if b == b'p' then "publish" else "connect"

abbrev publish_bytes : List ℕ
publish_bytes = 2 ∷ 0 ∷ 7 ∷ b'p' ∷ b'u' ∷ b'b' ∷ b'l' ∷ b'i' ∷ b's' ∷ b'h' ∷ []

publish_key : parse_stream_key_from_publish words publish_bytes ≡ ok "publish"
unfolding parse_stream_key_from_publish parse_amf0_string position_of_marker
publish_key = refl

parse_stream_key-publish_example : ◌≡◌ {A = String} "publish" "publish"
parse_stream_key-publish_example =
    parse_stream_key-publish words publish_bytes "publish" publish_key

abbrev peer : SocketAddr
peer = socket_addr (v4 (octets 10 0 0 7)) 50000

abbrev empty_server : RtmpServer
empty_server = record { connections = []; active_streams = [] }

-- A manager that knows every key as stream 4.
abbrev calls : Calls
calls = record {
  authenticate_stream_key = λ _. some (some 4);
  start_stream = λ _. true;
  send = λ _. true;
}

handle_command_refuses_example :
    (e : AmfError) × (handle_command words calls peer 0 publish_bytes empty_server
      ≡ (err (amf e), empty_server))
handle_command_refuses_example =
    handle_command_refuses words calls peer 0 0 7
      (b'p' ∷ b'u' ∷ b'b' ∷ b'l' ∷ b'i' ∷ b's' ∷ b'h' ∷ []) empty_server (omega arith)

abbrev command : RtmpMessage
command = record {
  message_type = command_amf0;
  timestamp = 0;
  stream_id = 0;
  payload = publish_bytes;
}

handle_connection_leaves_example :
    EntryAfter peer
      (handle_connection words calls 1 peer 0 true (ok command ∷ ok command ∷ []) empty_server).0
      (handle_connection words calls 1 peer 0 true (ok command ∷ ok command ∷ []) empty_server).1
    × ((k : String)
        → get k
            (handle_connection words calls 1 peer 0 true
              (ok command ∷ ok command ∷ [])
              empty_server).1.active_streams
          ≡ none
        → get k empty_server.active_streams ≡ none)
handle_connection_leaves_example =
    handle_connection_leaves words calls 1 peer 0 true (ok command ∷ ok command ∷ []) empty_server

abbrev connected : RtmpServer
connected = record {
  connections =
      (
        peer,
        record {
          id = 1;
          addr = peer;
          stream_key = none;
          connected_at = 0;
          bytes_received = 0;
          is_publishing = false;
        },
      )
      ∷ [];
  active_streams = [];
}

accepted_publish_stays_example :
    get "publish"
      (handle_rtmp_messages words calls peer 0 true
        (ok sound ∷ [])
        0
        (accept_publish calls peer 0 "publish" 4 connected).1).1.active_streams
    ≢ none
unfolding get
accepted_publish_stays_example =
    accepted_publish_stays words calls peer 0 true "publish" 4 (ok sound ∷ []) 0 connected (λ e. cc)
