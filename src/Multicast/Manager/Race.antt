-- ===== src/Multicast/Manager/Race.antt =====
-- What may happen between the two halves of `send_packet`.
use oxide_cast.Multicast.Manager.{
  begin_send, MulticastManager, UdpOps, remove_group, send_datagram, no_socket, new,
}
use oxide_cast.Prelude.{
  ℕ, ◌≡◌, ◌≢◌, refl, some, inl, inr, List, String, arith, Option-cases, ◌∙◌, ok, err, ◌↔◌,
  Bool-cases,
}
use oxide_cast.HashMap.{◌==◌, string_eq, nat_eq, get}
use oxide_cast.HashMap.Laws.{get-remove}
use oxide_cast.Net.{Ipv4Addr, ipv4_eq, ipv4_beq_iff}
use oxide_cast.Multicast.Group.{MulticastGroup, count_packet}
use oxide_cast.Multicast.Manager.Ownership.{IsOwned, modify-Within}
use oxide_cast.Multicast.Manager.Events.{Event, run}
use oxide_cast.Config.{MulticastConfig}
use oxide_cast.Multicast.Packet.{MulticastPacket}
use oxide_cast.Multicast.Manager.History.{run-new-IsOwned, modified-IsOwned}
use oxide_cast.Multicast.Manager.Held.{IsHeld, AllSpare, run-IsHeld}

module _ {Socket : Type 0} where
  send_datagram-wired :
      (net : UdpOps Socket) (m : MulticastManager Socket) (g : MulticastGroup)
      (packet : MulticastPacket)
      → (s : Socket) × (get g.multicast_address m.sockets ≡ some s)
      → send_datagram net m.sockets g packet ≢ err no_socket
  unfolding send_datagram
  send_datagram-wired net m g packet wired = ground arith

  -- The table has a group of the stream at this address.
  abbrev pub HasGroupAt : Ipv4Addr → String → MulticastManager Socket → Type 0
  HasGroupAt addr key m =
      (g : MulticastGroup) × (get key m.groups ≡ some g) × (g.multicast_address ≡ addr)

  begin_send-IsHeld :
      (now : ℕ) (packet : MulticastPacket) (m : MulticastManager Socket) (group : MulticastGroup)
      → IsOwned m
      → (begin_send now packet m).0 ≡ ok group
      → IsHeld group.multicast_address group.port
          (λ k. k ≡ packet.stream_key)
          (begin_send now packet m).1
  unfolding begin_send
  begin_send-IsHeld now packet m group o e = elim (Option-cases (get packet.stream_key m.groups)) [
    | inl missing ↦ absurd (ground arith)
    | inr (h, found) ↦
        let w = modify-Within m packet.stream_key (count_packet now packet) (λ g. (refl, refl)) in
        let counted : count_packet now packet h ≡ group = ground arith in
        rw (found, begin_send)
          (rw (← counted) (record {
            owned = modified-IsOwned packet.stream_key _ m (λ g. (refl, refl)) o;
            kept = (
              o.owns packet.stream_key h found,
              o.wired packet.stream_key h found,
              λ k g p same.
                  let (h', p', q, _) = w k g p in
                  o.apart k packet.stream_key h' h p' found (q ∙ same),
            );
          }))
  ]

  removed_sends_iff :
      (net : UdpOps Socket) (packet : MulticastPacket) (group : MulticastGroup)
      (m : MulticastManager Socket)
      → (s : Socket) × (get group.multicast_address m.sockets ≡ some s)
      → (send_datagram net (remove_group packet.stream_key m).sockets group packet ≡ err no_socket)
        ↔ HasGroupAt group.multicast_address packet.stream_key m
  unfolding remove_group send_datagram
  removed_sends_iff net packet group m (s, wired) =
      elim (Option-cases (get packet.stream_key m.groups)) [
        | inl missing ↦
            rw (missing, remove_group, wired) (λ p. absurd (ground arith), λ (g, p, _). absurd (cc))
        | inr (g, found) ↦ elim (Bool-cases (g.multicast_address == group.multicast_address)) [
          | inl same ↦
              let here : g.multicast_address ≡ group.multicast_address =
                ground (arith, ipv4_beq_iff g.multicast_address group.multicast_address) in
              (
                λ p. (g, found, here),
                λ q. ground (
                  arith,
                  found,
                  same,
                  get-remove g.multicast_address group.multicast_address m.sockets,
                ),
              )
          | inr other ↦ (
            λ p. absurd (
                ground (
                  arith,
                  found,
                  other,
                  wired,
                  get-remove g.multicast_address group.multicast_address m.sockets,
                )),
            λ (h, p, q). absurd (
                ground (
                  arith,
                  found,
                  p,
                  q,
                  other,
                  ipv4_beq_iff g.multicast_address group.multicast_address,
                )),
          )
        ]
      ]

  -- When the first half of a send, after any history of the manager, has found the group of its stream,
  -- and any operations but a removal of that stream run after it: the second half does not then fail
  -- for want of a socket. When a removal of the stream runs as well, last before the second half, it
  -- fails so just when the stream still had a group at the address that the first half saw.
  pub begin_send-send_datagram :
      (config : MulticastConfig) (before between : List (Event Socket)) (net : UdpOps Socket)
      (now : ℕ) (packet : MulticastPacket) (group : MulticastGroup)
      → (begin_send now packet (run before (new config))).0 ≡ ok group
      → AllSpare (λ k. k ≡ packet.stream_key) between
      → let late = run between (begin_send now packet (run before (new config))).1 in
        (send_datagram net late.sockets group packet ≢ err no_socket)
        × ((send_datagram net (remove_group packet.stream_key late).sockets group packet
              ≡ err no_socket)
            ↔ HasGroupAt group.multicast_address packet.stream_key late)
  begin_send-send_datagram config before between net now packet group found spares =
      let m = run before (new config) in
      let held =
        run-IsHeld group.multicast_address group.port (λ k. k ≡ packet.stream_key) between
          (begin_send now packet m).1 spares
          (begin_send-IsHeld now packet m group (run-new-IsOwned config before) found) in
      let late : MulticastManager Socket = run between (begin_send now packet m).1 in
      (
        send_datagram-wired net late group packet held.kept.1,
        removed_sends_iff net packet group late held.kept.1,
      )
