-- ===== src/WebRtc/Tests.antt =====
-- Concrete runs of the WebRTC server, and its theorems at concrete inputs. A float is a number, and a
-- peer connection is known by a number.
use oxide_cast.Prelude.{
  ℕ, ◌+◌, ◌≡◌, refl, true, false, not, none, some, List, [], ◌∷◌, String, ok, err, arith,
}
use oxide_cast.HashMap.{string_eq, nat_eq, get, contains_key, insert, remove, modify, retain}
use oxide_cast.HashMap.Values.{keep_if}
use oxide_cast.Net.{octets}
use oxide_cast.Multicast.Packet.{MulticastPacket, audio, packet_data}
use oxide_cast.WebRtc.Stream.{
  WebRtcConfig, WebRtcOffer, new_video_track, new_audio_track, connected,
}
use oxide_cast.WebRtc.Server.{
  WebRtcServer, RtcCalls, new, start_stream, stop_stream, stream_not_found, receive_datagram,
  watching, is_of, update_viewer_count,
}
use oxide_cast.WebRtc.Server.Forward.{receive_datagram-packet_data, expected}
use oxide_cast.WebRtc.Peers.{negotiate, create_peer_connection, on_state_change, connection_cleanup}
use oxide_cast.WebRtc.Peers.History.{
  Event, starts, offers, state_changes, cleans, step, run, run-stop_stream,
}
use oxide_cast.WebRtc.Peers.Counts.{create_peer_connection-on_state_change, Counts}

abbrev calls : RtcCalls ℕ
calls = record {
  bind_and_join = λ address port. true;
  new_peer_connection = λ servers. some 7;
  add_track = λ peer track. true;
  parse_offer = λ sdp. true;
  set_remote_description = λ peer sdp. true;
  create_answer = λ peer. some "answer";
  set_local_description = λ peer sdp. true;
  parse_candidate = λ candidate. true;
  add_ice_candidate = λ peer candidate. true;
  close = λ peer. true;
}

abbrev config : WebRtcConfig
config = record {
  stun_servers = "stun:stun.example.org:3478" ∷ [];
  turn_servers = record { url = "turn:turn.example.org"; username = "u"; credential = "c" } ∷ [];
  ice_timeout = 30;
  dtls_timeout = 30;
  max_bitrate = 5000;
  min_bitrate = 100;
  enable_simulcast = false;
}

abbrev offer : String → WebRtcOffer
offer key = record {
  sdp = "offer";
  stream_key = key;
  session_id = "session";
  viewer_info = record { ip_address = "10.0.0.9"; user_agent = none; session_id = "session" };
}

abbrev events : List (Event ℕ ℕ)
events =
    starts calls 0 "a" (octets 239 255 0 1) 30000
    ∷ starts calls 0 "b" (octets 239 255 0 2) 30001
    ∷ offers calls 0 1 10 (offer "a")
    ∷ offers calls 0 2 20 (offer "b")
    ∷ state_changes 1 30 connected
    ∷ cleans 40
    ∷ []

abbrev server : WebRtcServer ℕ ℕ
server = run events (new config)

-- One viewer watches "a", the offer for "b" has been answered only, and there is no stream "c".
offers_answered :
    (watching "a" server ≡ 1)
    × (watching "b" server ≡ 0)
    × ((create_peer_connection calls 0 3 50 (offer "c") server).0 ≡ err stream_not_found)
    × ((create_peer_connection calls 0 3 50 (offer "a") server).0
        ≡ ok (record { sdp = "answer"; session_id = "session" }))
    × (get 3 server.peer_connections ≡ none)
unfolding run step new start_stream create_peer_connection negotiate on_state_change get
    contains_key insert remove modify retain update_viewer_count connection_cleanup
offers_answered = (refl, refl, refl, refl, refl)

run-stop_stream_example :
    let (r, s') = stop_stream calls "a" server in
    (r ≡ ok tt)
    × (get "a" s'.active_streams ≡ none)
    × ((i : ℕ)
        → get i s'.peer_connections
          ≡ keep_if (λ c. not (is_of "a" c)) (get i server.peer_connections))
run-stop_stream_example = run-stop_stream calls (λ p. refl) config events "a"

create_peer_connection-on_state_change_example :
    Counts
      (watching "a" server)
      (1 + watching "a" server)
      90
      "a"
      (on_state_change 3 60 connected (create_peer_connection calls 0 3 50 (offer "a") server).1)
create_peer_connection-on_state_change_example =
    create_peer_connection-on_state_change calls 0 3 50 60 90 (offer "a")
      (record { sdp = "answer"; session_id = "session" }) server offers_answered.4 offers_answered.3

abbrev packet : MulticastPacket
packet = record {
  stream_key = "a";
  sequence_number = 70000;
  timestamp = 5;
  payload_type = audio;
  payload = 1 ∷ 2 ∷ [];
}

receive_datagram-packet_data_example :
    (receive_datagram "a" (new_video_track "a") (new_audio_track "a") (packet_data packet) server).0
    ≡ expected (new_video_track "a") (new_audio_track "a") packet audio
receive_datagram-packet_data_example =
    receive_datagram-packet_data "a" (new_video_track "a") (new_audio_track "a") packet server
      (ground arith) (ground arith)
