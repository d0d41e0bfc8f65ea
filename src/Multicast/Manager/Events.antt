-- ===== src/Multicast/Manager/Events.antt =====
-- Histories of the multicast manager: any sequence of its operations, background task included.
use oxide_cast.Prelude.{ℕ, List, [], ◌∷◌, String}
use oxide_cast.Net.{SocketAddr}
use oxide_cast.Multicast.Packet.{MulticastPacket}
use oxide_cast.Multicast.Manager.{
  MulticastManager, UdpOps, create_group, remove_group, send_packet, add_viewer, remove_viewer,
  update_viewer_last_seen, cleanup,
}

-- One call, with the network, the ids and the time that it meets.
pub data Event (Socket : Type 0) : Type 0 where
  creates : UdpOps Socket → ℕ → ℕ → String → Event Socket
  removes : String → Event Socket
  sends : UdpOps Socket → ℕ → MulticastPacket → Event Socket
  joins : ℕ → ℕ → String → SocketAddr → String → Event Socket
  leaves : String → SocketAddr → Event Socket
  sees : ℕ → String → SocketAddr → Event Socket
  cleans : ℕ → Event Socket

module _ {Socket : Type 0} where
  unfoldable pub step : Event Socket → MulticastManager Socket → MulticastManager Socket
  step (creates net id now stream_key) m = (create_group net id now stream_key m).1
  step (removes stream_key) m = remove_group stream_key m
  step (sends net now packet) m = (send_packet net now packet m).1
  step (joins id now stream_key addr profile) m = (add_viewer id now stream_key addr profile m).1
  step (leaves stream_key addr) m = remove_viewer stream_key addr m
  step (sees now stream_key addr) m = update_viewer_last_seen now stream_key addr m
  step (cleans now) m = cleanup now m

  unfoldable pub run : List (Event Socket) → MulticastManager Socket → MulticastManager Socket
  run [] m = m
  run (e ∷ es) m = run es (step e m)
