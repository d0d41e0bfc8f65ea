-- ===== src/Rtmp/Connection.antt =====
-- One connection's task of src/rtmp_server.rs, from its entry in the table to its end.
pub mod Grows
pub mod Leaves
use oxide_cast.Prelude.{
  ℕ, ◌+◌, ◌%◌, ◌^◌, Bool, true, false, Option, none, some, List, [], ◌∷◌, ◌++◌, String, length, ltb,
  ◌==◌, drop, if◌then◌else◌, Result, ok, err, guard, ◌>>=◌, ◌>>◌,
}
use oxide_cast.HashMap.{string_eq, HashMap, get, insert, remove, modify}
use oxide_cast.Net.{SocketAddr, socket_addr_eq}
use oxide_cast.Rtmp.Message.{RtmpMessage, RtmpMessageType, command_amf0, video_data, audio_data}
use oxide_cast.Rtmp.Codec.{DecodeError}
use oxide_cast.Rtmp.Amf.{AmfError, parse_amf0_string, parse_stream_key_from_publish}
use text.Mathlib.Text.{◌==◌ as str_eq}
use oxide_cast.Rtmp.Server.{
  RtmpConnection, ActiveStream, RtmpServer, Calls, ConnectionError, amf, decoding, timeout,
  handle_command, connection_gone, manager_failed, send_failed, handshake_waits,
}

abbrev pub get_stream_key : SocketAddr → RtmpServer → Option String
get_stream_key addr s = elim (get addr s.connections) [ none ↦ none | some c ↦ c.stream_key ]

abbrev pub add_bytes : ℕ → RtmpConnection → RtmpConnection
add_bytes bytes c = record c { bytes_received = (c.bytes_received + bytes) % 2 ^ 64 }

abbrev pub update_connection_stats : SocketAddr → ℕ → RtmpServer → RtmpServer
update_connection_stats addr bytes s = record s {
  connections = modify addr (add_bytes bytes) s.connections;
}

-- The capacity of the channel for media data, which nobody reads from.
abbrev pub channel_capacity : ℕ
channel_capacity = 1000

-- How the loop over the messages goes on: with what the channel holds, or never (`blocked`: the
-- send waits for room), or it ends with an error.
pub data Next : Type 0 where
  goes_on : ℕ → Next
  blocked : Next
  fails : ConnectionError → Next

abbrev pub next_of : ℕ → Result ConnectionError (Unit {0}) → Next
next_of queued (ok _) = goes_on queued
next_of queued (err e) = fails e

abbrev pub forward_media : SocketAddr → RtmpMessage → ℕ → RtmpServer → Next × RtmpServer
forward_media addr m queued s = elim (get_stream_key addr s) [
  | none ↦ (goes_on queued, s)
  | some _ ↦
      if ltb queued channel_capacity
      then (goes_on (queued + 1), update_connection_stats addr (length m.payload) s)
      else (blocked, s)
]

-- The connection leaves the table on success only.
abbrev pub close_connection :
    SocketAddr
    → Result ConnectionError (Unit {0}) × RtmpServer
    → Result ConnectionError (Unit {0}) × RtmpServer
close_connection addr (ok _, s) = (ok tt, record s { connections = remove addr s.connections })
close_connection addr (err e, s) = (err e, s)

module _ (lossy : List ℕ → String) where
  -- One round of the loop of `handle_rtmp_messages`. Of a new chunk size it only writes a log line.
  abbrev pub handle_message :
      Calls → SocketAddr → ℕ → RtmpMessage → RtmpMessageType → ℕ → RtmpServer → Next × RtmpServer
  handle_message calls addr now m command_amf0 queued s =
      let (r, s') = handle_command lossy calls addr now m.payload s in (next_of queued r, s')
  handle_message calls addr now m video_data queued s = forward_media addr m queued s
  handle_message calls addr now m audio_data queued s = forward_media addr m queued s
  handle_message calls addr now m _ queued s = (goes_on queued, s)

  -- The messages that arrive before the peer closes (`closes`) or the timer fires.
  unfoldable pub handle_rtmp_messages :
      Calls
      → SocketAddr
      → ℕ
      → Bool
      → List (Result DecodeError RtmpMessage)
      → ℕ
      → RtmpServer
      → Result ConnectionError (Unit {0}) × RtmpServer
  handle_rtmp_messages calls addr now closes [] queued s =
      (if closes then ok tt else err timeout, s)
  handle_rtmp_messages calls addr now closes (err e ∷ ms) queued s = (err (decoding e), s)
  handle_rtmp_messages calls addr now closes (ok m ∷ ms) queued s =
      let (next, s') = handle_message calls addr now m m.message_type queued s in
      elim next [
        | goes_on queued' ↦ handle_rtmp_messages calls addr now closes ms queued' s'
        | blocked ↦ (err timeout, s')
        | fails e ↦ (err e, s')
      ]

  -- The first message, of any type, stands for the handshake, and so does the end of the messages.
  abbrev pub after_handshake :
      Calls
      → SocketAddr
      → ℕ
      → Bool
      → List (Result DecodeError RtmpMessage)
      → RtmpServer
      → Result ConnectionError (Unit {0}) × RtmpServer
  after_handshake calls addr now closes [] s = (if closes then ok tt else err handshake_waits, s)
  after_handshake calls addr now closes (err e ∷ ms) s = (err (decoding e), s)
  after_handshake calls addr now closes (ok _ ∷ ms) s =
      handle_rtmp_messages calls addr now closes ms 0 s

  unfoldable pub handle_connection :
      Calls
      → ℕ
      → SocketAddr
      → ℕ
      → Bool
      → List (Result DecodeError RtmpMessage)
      → RtmpServer
      → Result ConnectionError (Unit {0}) × RtmpServer
  handle_connection calls id addr now closes ms s = close_connection addr (
      after_handshake calls addr now closes ms (record s {
        connections =
            insert addr
              (record {
                id = id;
                addr = addr;
                stream_key = none;
                connected_at = now;
                bytes_received = 0;
                is_publishing = false;
              })
              s.connections;
      }))
