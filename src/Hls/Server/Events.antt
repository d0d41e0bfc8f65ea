-- ===== src/Hls/Server/Events.antt =====
-- Histories of the HLS server: its calls, its receivers' datagrams and its clean-up.
use oxide_cast.Prelude.{ℕ, ◌≤◌, List, [], ◌∷◌, String}
use oxide_cast.Net.{Ipv4Addr}
use oxide_cast.Hls.Stream.{Types}
use oxide_cast.Hls.Writer.{HlsCalls}
use oxide_cast.Hls.Server.{
  HlsServer, start_stream, stop_stream, receive_datagram, cleanup, track_viewer,
}

-- One step, with the file system that it meets.
pub data Event (T : Types) : Type 0 where
  starts : HlsCalls T → String → Ipv4Addr → ℕ → Event T
  stops : HlsCalls T → String → Event T
  receives : HlsCalls T → String → List ℕ → Event T
  cleans : Event T
  tracks : String → Event T

module _ {T : Types} where
  unfoldable pub step : ℕ → Event T → HlsServer T → HlsServer T
  step now (starts calls key address port) s = (start_stream calls now key address port s).1
  step now (stops calls key) s = (stop_stream calls now key s).1
  step now (receives calls key datagram) s = receive_datagram calls now key datagram s
  step now cleans s = cleanup now s
  step now (tracks key) s = track_viewer key s

  -- Each step at its time.
  unfoldable pub run : List (ℕ × Event T) → HlsServer T → HlsServer T
  run [] s = s
  run ((now, e) ∷ es) s = run es (step now e s)

  -- The clock does not go back, from `t` on.
  abbrev pub IsTimed : ℕ → List (ℕ × Event T) → Type 0
  IsTimed t [] = Unit {0}
  IsTimed t ((now, e) ∷ es) = (t ≤ now) × IsTimed now es
