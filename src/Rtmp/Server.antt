-- ===== src/Rtmp/Server.antt =====
-- `RtmpServer` of src/rtmp_server.rs: its tables, its responses and its commands. The stream manager
-- and the socket are given by `Calls`.
pub mod Commands
use oxide_cast.Prelude.{
  ℕ, Bool, true, false, Option, none, some, List, [], ◌∷◌, String, length, ltb, drop, if◌then◌else◌,
  Result, ok, err, guard, ◌>>◌,
}
use oxide_cast.HashMap.{string_eq, HashMap, get, insert, modify}
use oxide_cast.Net.{SocketAddr, socket_addr_eq}
use oxide_cast.Rtmp.Message.{RtmpMessage, command_amf0}
use oxide_cast.Rtmp.Codec.{DecodeError}
use oxide_cast.Rtmp.Amf.{AmfError, parse_amf0_string, parse_stream_key_from_publish}
use text.Mathlib.Text.{◌==◌ as str_eq}

pub record RtmpConnection : Type 0 where
  pub id : ℕ
  pub addr : SocketAddr
  pub stream_key : Option String
  pub connected_at : ℕ
  pub bytes_received : ℕ
  pub is_publishing : Bool

pub record ActiveStream : Type 0 where
  pub stream_key : String
  pub connection_id : ℕ
  pub started_at : ℕ
  pub frame_count : ℕ
  pub bytes_transmitted : ℕ

-- The two tables that the connections share.
pub record RtmpServer : Type 0 where
  pub connections : HashMap SocketAddr RtmpConnection
  pub active_streams : HashMap String ActiveStream

-- `StreamManager::authenticate_stream_key` and `start_stream`, `none` being an error, and the
-- sending of a response.
pub record Calls : Type 0 where
  pub authenticate_stream_key : String → Option (Option ℕ)
  pub start_stream : ℕ → Bool
  pub send : RtmpMessage → Bool

-- `connection_gone` is the panic of the `unwrap` on the connection table. `handshake_waits` is no
-- error of the code: the handshake has no timer, and the task waits for a message that never comes.
pub data ConnectionError : Type 0 where
  amf : AmfError → ConnectionError
  decoding : DecodeError → ConnectionError
  manager_failed connection_gone send_failed timeout handshake_waits : ConnectionError

-- AMF0 string "_result", and the number 1.0.
abbrev pub connect_response_payload : List ℕ
connect_response_payload =
    0x02 ∷ 0x00 ∷ 0x07 ∷ b'_' ∷ b'r' ∷ b'e' ∷ b's' ∷ b'u' ∷ b'l' ∷ b't' ∷ 0x00 ∷ 0x3f ∷ 0xf0 ∷ 0x00
    ∷ 0x00 ∷ 0x00 ∷ 0x00 ∷ 0x00 ∷ 0x00 ∷ []

abbrev pub publish_response_payload : Bool → List ℕ
publish_response_payload true =
    0x02 ∷ 0x00 ∷ 0x0f ∷ b'o' ∷ b'n' ∷ b'P' ∷ b'u' ∷ b'b' ∷ b'l' ∷ b'i' ∷ b's' ∷ b'h' ∷ b'S' ∷ b't'
    ∷ b'a' ∷ b'r' ∷ b't' ∷ []
publish_response_payload false =
    0x02 ∷ 0x00 ∷ 0x0d ∷ b'o' ∷ b'n' ∷ b'P' ∷ b'u' ∷ b'b' ∷ b'l' ∷ b'i' ∷ b's' ∷ b'h' ∷ b'E' ∷ b'r'
    ∷ b'r' ∷ b'o' ∷ b'r' ∷ []

abbrev pub response : ℕ → List ℕ → RtmpMessage
response stream_id payload = record {
  message_type = command_amf0;
  timestamp = 0;
  stream_id = stream_id;
  payload = payload;
}

abbrev pub send_connect_response : Calls → Result ConnectionError (Unit {0})
send_connect_response calls = guard (calls.send (response 0 connect_response_payload)) send_failed

abbrev pub send_publish_response : Calls → Bool → Result ConnectionError (Unit {0})
send_publish_response calls success =
    guard (calls.send (response 1 (publish_response_payload success))) send_failed

abbrev pub start_publishing : String → RtmpConnection → RtmpConnection
start_publishing key c = record c { stream_key = some key; is_publishing = true }

-- An accepted publish command, from the update of the tables on.
unfoldable pub accept_publish :
    Calls
    → SocketAddr
    → ℕ
    → String
    → ℕ
    → RtmpServer
    → Result ConnectionError (Unit {0}) × RtmpServer
accept_publish calls addr now key stream_id s =
    let conns = modify addr (start_publishing key) s.connections in
    elim (get addr conns) [
      | none ↦ (err connection_gone, record s { connections = conns })
      | some conn ↦ (
        (do guard (calls.start_stream stream_id) manager_failed; send_publish_response calls true),
        record {
          connections = conns;
          active_streams =
              insert key
                (record {
                  stream_key = key;
                  connection_id = conn.id;
                  started_at = now;
                  frame_count = 0;
                  bytes_transmitted = 0;
                })
                s.active_streams;
        },
      )
    ]

abbrev pub publish :
    Calls
    → SocketAddr
    → ℕ
    → Result AmfError String
    → RtmpServer
    → Result ConnectionError (Unit {0}) × RtmpServer
publish calls addr now (err e) s = (err (amf e), s)
publish calls addr now (ok key) s = elim (calls.authenticate_stream_key key) [
  | none ↦ (err manager_failed, s)
  | some none ↦ (send_publish_response calls false, s)
  | some (some stream_id) ↦ accept_publish calls addr now key stream_id s
]

module _ (lossy : List ℕ → String) where
  -- The commands "play" and those that are not known do nothing.
  unfoldable pub handle_command :
      Calls → SocketAddr → ℕ → List ℕ → RtmpServer → Result ConnectionError (Unit {0}) × RtmpServer
  handle_command calls addr now payload s =
      if ltb (length payload) 2
      then (ok tt, s)
      else (elim (parse_amf0_string lossy (drop 1 payload)) [
        | err e ↦ (err (amf e), s)
        | ok name ↦
            if str_eq name "connect"
            then (send_connect_response calls, s)
            else if str_eq name "publish"
            then publish calls addr now (parse_stream_key_from_publish lossy (drop 1 payload)) s
            else (ok tt, s)
      ])
