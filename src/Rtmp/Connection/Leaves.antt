-- ===== src/Rtmp/Connection/Leaves.antt =====
-- What the end of a connection leaves in the tables.
use oxide_cast.Prelude.{
  ℕ, ◌≡◌, ◌≢◌, refl, Bool, false, none, inl, inr, List, String, arith, Result, ok, err,
  Option-cases,
}
use oxide_cast.HashMap.{string_eq, get, insert, modify}
use oxide_cast.HashMap.Laws.{get-insert, get-remove}
use oxide_cast.Net.{SocketAddr, socket_addr_eq, socket_addr_beq_iff}
use oxide_cast.Rtmp.Codec.{DecodeError}
use oxide_cast.Rtmp.Message.{RtmpMessage}
use oxide_cast.Rtmp.Server.{
  RtmpConnection, RtmpServer, Calls, ConnectionError, accept_publish, start_publishing,
}
use oxide_cast.Rtmp.Connection.{
  handle_rtmp_messages, handle_connection, after_handshake, close_connection,
}
use text.Mathlib.TextEquality.{eq_iff}
use oxide_cast.Rtmp.Connection.Grows.{
  Grows, get-modify-none, handle_rtmp_messages-Grows, after_handshake-Grows,
}

accept_publish_active :
    (calls : Calls) (addr : SocketAddr) (now : ℕ) (key : String) (stream_id : ℕ) (s : RtmpServer)
    → get addr s.connections ≢ none
    → get key (accept_publish calls addr now key stream_id s).1.active_streams ≢ none
unfolding accept_publish
accept_publish_active calls addr now key stream_id s known =
    elim (Option-cases (get addr (modify addr (start_publishing key) s.connections))) [
      | inl e ↦ absurd (known (get-modify-none addr addr (start_publishing key) s.connections e))
      | inr (c, e) ↦
          rw (e, accept_publish)
            (λ missing. ground (
              arith,
              get-insert key key
                  (record {
                    stream_key = key;
                    connection_id = c.id;
                    started_at = now;
                    frame_count = 0;
                    bytes_transmitted = 0;
                  })
                  s.active_streams,
              eq_iff key key,
              missing,
            ))
    ]

-- The end of a connection by its result: a failure leaves its entry in place.
abbrev pub EntryAfter : SocketAddr → Result ConnectionError (Unit {0}) → RtmpServer → Type 0
EntryAfter addr (ok _) s = get addr s.connections ≡ none
EntryAfter addr (err e) s = get addr s.connections ≢ none

close_connection-EntryAfter :
    (addr : SocketAddr) (r : Result ConnectionError (Unit {0}) × RtmpServer)
    → get addr r.1.connections ≢ none
    → let r' = close_connection addr r in EntryAfter addr r'.0 r'.1
close_connection-EntryAfter addr (ok u, s) h =
    ground (arith, get-remove addr addr s.connections, socket_addr_beq_iff addr addr)
close_connection-EntryAfter addr (err e, s) h = h

close_connection_streams :
    (addr : SocketAddr) (r : Result ConnectionError (Unit {0}) × RtmpServer)
    → (close_connection addr r).1.active_streams ≡ r.1.active_streams
close_connection_streams addr (ok u, s) = refl
close_connection_streams addr (err e, s) = refl

module _ (lossy : List ℕ → String) where
  -- When a connection's task ends well, its entry is gone from the table of connections; when it
  -- ends with an error or a timeout, the entry is still there. Either way no stream that was
  -- active when it began has left the table of active streams.
  pub handle_connection_leaves :
      (calls : Calls) (id : ℕ) (addr : SocketAddr) (now : ℕ) (closes : Bool)
      (ms : List (Result DecodeError RtmpMessage)) (s : RtmpServer)
      → let r = handle_connection lossy calls id addr now closes ms s in
        EntryAfter addr r.0 r.1
        × ((k : String) → get k r.1.active_streams ≡ none → get k s.active_streams ≡ none)
  unfolding handle_connection
  handle_connection_leaves calls id addr now closes ms s = (
    close_connection-EntryAfter addr (after_handshake lossy calls addr now closes ms opened) kept,
    λ k e. grown.streams k (
        rw (close_connection_streams addr (after_handshake lossy calls addr now closes ms opened))
          at e),
  )
    where
      entry : RtmpConnection
      entry = record {
        id = id;
        addr = addr;
        stream_key = none;
        connected_at = now;
        bytes_received = 0;
        is_publishing = false;
      }

      opened : RtmpServer
      opened = record s { connections = insert addr entry s.connections }

      grown : Grows opened (after_handshake lossy calls addr now closes ms opened).1
      grown = after_handshake-Grows lossy calls addr now closes ms opened

      kept : get addr (after_handshake lossy calls addr now closes ms opened).1.connections ≢ none
      kept e = ground (
        arith,
        grown.conns addr e,
        get-insert addr addr entry s.connections,
        socket_addr_beq_iff addr addr,
      )

  -- The stream key of an accepted publish command, from a connection that is in the table, is in
  -- the table of active streams whatever messages follow on the connection.
  pub accepted_publish_stays :
      (calls : Calls) (addr : SocketAddr) (now : ℕ) (closes : Bool) (key : String) (stream_id : ℕ)
      (ms : List (Result DecodeError RtmpMessage)) (queued : ℕ) (s : RtmpServer)
      → get addr s.connections ≢ none
      → let s' = (accept_publish calls addr now key stream_id s).1 in
        get key (handle_rtmp_messages lossy calls addr now closes ms queued s').1.active_streams
        ≢ none
  unfolding accept_publish
  accepted_publish_stays calls addr now closes key stream_id ms queued s known e =
      accept_publish_active calls addr now key stream_id s known
        ((handle_rtmp_messages-Grows lossy calls addr now closes ms queued _).streams key e)
