-- ===== src/Rtmp/Connection/Grows.antt =====
-- While a connection's task runs, no entry of the two tables goes away.
use oxide_cast.Prelude.{
  ℕ, ◌≡◌, ◌⊎◌, refl, drop, length, Bool, Option, none, some, inl, inr, List, [], ◌∷◌, String, arith,
  Result, ok, err, Option-cases,
}
use oxide_cast.HashMap.{HashMap, string_eq, get, insert, modify}
use oxide_cast.HashMap.Laws.{get-insert, get-modify}
use oxide_cast.Net.{SocketAddr, socket_addr_eq}
use oxide_cast.Rtmp.Codec.{DecodeError}
use oxide_cast.Rtmp.Message.{RtmpMessage, RtmpMessageType}
use oxide_cast.Rtmp.Amf.{AmfError, parse_stream_key_from_publish}
use oxide_cast.Rtmp.Server.{
  RtmpConnection, ActiveStream, RtmpServer, Calls, ConnectionError, accept_publish, publish,
  handle_command, start_publishing,
}
use oxide_cast.Rtmp.Connection.{
  handle_message, forward_media, handle_rtmp_messages, after_handshake, Next, goes_on, blocked,
  fails, add_bytes,
}

-- No entry of either table goes away.
pub record Grows (s t : RtmpServer) : Type 0 where
  pub conns : (a : SocketAddr) → get a t.connections ≡ none → get a s.connections ≡ none
  pub streams : (k : String) → get k t.active_streams ≡ none → get k s.active_streams ≡ none

pub Grows-refl : (s : RtmpServer) → Grows s s
Grows-refl s = record { conns = λ a e. e; streams = λ k e. e }

pub Grows-trans : (s t u : RtmpServer) → Grows s t → Grows t u → Grows s u
Grows-trans s t u p q = record {
  conns = λ a e. p.conns a (q.conns a e);
  streams = λ k e. p.streams k (q.streams k e);
}

pub get-modify-none :
    (a b : SocketAddr) (f : RtmpConnection → RtmpConnection) (m : HashMap SocketAddr RtmpConnection)
    → get b (modify a f m) ≡ none
    → get b m ≡ none
get-modify-none a b f m e = ground (arith, get-modify a b f m)

modified-Grows :
    (a : SocketAddr) (f : RtmpConnection → RtmpConnection) (s : RtmpServer)
    → Grows s (record s { connections = modify a f s.connections })
modified-Grows a f s = record {
  conns = λ b e. get-modify-none a b f s.connections e;
  streams = λ k e. e;
}

inserted-Grows :
    (key : String) (stream : ActiveStream) (s : RtmpServer)
    → Grows s (record s { active_streams = insert key stream s.active_streams })
inserted-Grows key stream s = record {
  conns = λ b e. e;
  streams = λ k e. ground (arith, get-insert key k stream s.active_streams);
}

accept_publish-Grows :
    (calls : Calls) (addr : SocketAddr) (now : ℕ) (key : String) (id : ℕ) (s : RtmpServer)
    → Grows s (accept_publish calls addr now key id s).1
unfolding accept_publish
accept_publish-Grows calls addr now key id s =
    let f = start_publishing key in
    let modified = modified-Grows addr f s in
    elim (Option-cases (get addr (modify addr f s.connections))) [
      | inl e ↦ rw (e, accept_publish) modified
      | inr (c, e) ↦
          rw (e, accept_publish)
            (Grows-trans s (record s { connections = modify addr f s.connections }) _ modified
              (inserted-Grows key _ _))
    ]

publish-Grows :
    (calls : Calls) (addr : SocketAddr) (now : ℕ) (r : Result AmfError String) (s : RtmpServer)
    → Grows s (publish calls addr now r s).1
publish-Grows calls addr now (err e) s = Grows-refl s
publish-Grows calls addr now (ok key) s = go (calls.authenticate_stream_key key) refl
  where
    go :
        (o : Option (Option ℕ))
        → calls.authenticate_stream_key key ≡ o
        → Grows s (publish calls addr now (ok key) s).1
    go none e = rw (e, publish) (Grows-refl s)
    go (some none) e = rw (e, publish) (Grows-refl s)
    go (some (some id)) e = rw (e, publish) (accept_publish-Grows calls addr now key id s)

Next-cases :
    (n : Next)
    → ((q : ℕ) × (n ≡ goes_on q)) ⊎ ((n ≡ blocked) ⊎ ((e : ConnectionError) × (n ≡ fails e)))
Next-cases (goes_on q) = inl (q, refl)
Next-cases blocked = inr (inl refl)
Next-cases (fails e) = inr (inr (e, refl))

module _ (lossy : List ℕ → String) where
  handle_command-Grows :
      (calls : Calls) (addr : SocketAddr) (now : ℕ) (payload : List ℕ) (s : RtmpServer)
      → Grows s (handle_command lossy calls addr now payload s).1
  unfolding handle_command
  handle_command-Grows calls addr now payload s = ground (
    arith,
    Grows-refl s,
    publish-Grows calls addr now (parse_stream_key_from_publish lossy (drop 1 payload)) s,
  )

  forward_media-Grows :
      (addr : SocketAddr) (m : RtmpMessage) (queued : ℕ) (s : RtmpServer)
      → Grows s (forward_media addr m queued s).1
  forward_media-Grows addr m queued s =
      ground (arith, Grows-refl s, modified-Grows addr (add_bytes (length m.payload)) s)

  handle_message-Grows :
      (calls : Calls) (addr : SocketAddr) (now : ℕ) (m : RtmpMessage) (k : RtmpMessageType)
      (queued : ℕ) (s : RtmpServer)
      → Grows s (handle_message lossy calls addr now m k queued s).1
  handle_message-Grows calls addr now m RtmpMessageType.command_amf0 queued s =
      handle_command-Grows calls addr now m.payload s
  handle_message-Grows calls addr now m RtmpMessageType.video_data queued s =
      forward_media-Grows addr m queued s
  handle_message-Grows calls addr now m RtmpMessageType.audio_data queued s =
      forward_media-Grows addr m queued s
  handle_message-Grows calls addr now m _ queued s = Grows-refl s

  pub handle_rtmp_messages-Grows :
      (calls : Calls) (addr : SocketAddr) (now : ℕ) (closes : Bool)
      (ms : List (Result DecodeError RtmpMessage)) (queued : ℕ) (s : RtmpServer)
      → Grows s (handle_rtmp_messages lossy calls addr now closes ms queued s).1
  unfolding handle_rtmp_messages
  handle_rtmp_messages-Grows calls addr now closes [] queued s = Grows-refl s
  handle_rtmp_messages-Grows calls addr now closes (err e ∷ ms) queued s = Grows-refl s
  handle_rtmp_messages-Grows calls addr now closes (ok m ∷ ms) queued s =
      let step = handle_message lossy calls addr now m m.message_type queued s in
      let first = handle_message-Grows calls addr now m m.message_type queued s in
      elim (Next-cases step.0) [
        | inl (queued', e) ↦
            rw (e, handle_rtmp_messages)
              (Grows-trans s step.1 _ first
                (handle_rtmp_messages-Grows calls addr now closes ms queued' step.1))
        | inr (inl e) ↦ rw (e, handle_rtmp_messages) first
        | inr (inr (why, e)) ↦ rw (e, handle_rtmp_messages) first
      ]

  pub after_handshake-Grows :
      (calls : Calls) (addr : SocketAddr) (now : ℕ) (closes : Bool)
      (ms : List (Result DecodeError RtmpMessage)) (s : RtmpServer)
      → Grows s (after_handshake lossy calls addr now closes ms s).1
  after_handshake-Grows calls addr now closes [] s = Grows-refl s
  after_handshake-Grows calls addr now closes (err e ∷ ms) s = Grows-refl s
  after_handshake-Grows calls addr now closes (ok m ∷ ms) s =
      handle_rtmp_messages-Grows calls addr now closes ms 0 s
