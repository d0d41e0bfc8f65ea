-- ===== src/Multicast/Manager/History.antt =====
-- Every history of the manager keeps the ownership of addresses, ports and sockets.
use oxide_cast.Multicast.Manager.{
  begin_send, MulticastManager, new, send_packet, add_viewer, remove_viewer,
  update_viewer_last_seen,
}
use oxide_cast.Prelude.{◌≡◌, refl, inl, inr, List, [], ◌∷◌, String, Option-cases}
use oxide_cast.HashMap.{string_eq, nat_eq, get, modify}
use oxide_cast.HashMap.Values.{modify-IsUnique}
use oxide_cast.Config.{MulticastConfig}
use oxide_cast.Net.{ipv4_eq}
use oxide_cast.Multicast.Group.{MulticastGroup}
use oxide_cast.Multicast.Manager.Ownership.{
  IsOwned, new-IsOwned, Within-IsOwned, modify-Within, cleanup-IsOwned,
}
use oxide_cast.Multicast.Manager.Events.{
  Event, creates, removes, sends, joins, leaves, sees, cleans, step, run,
}
use oxide_cast.Multicast.Manager.Lifecycle.{create_group-IsOwned, remove_group-IsOwned}

module _ {Socket : Type 0} where
  pub modified-IsOwned :
      (key : String) (f : MulticastGroup → MulticastGroup) (m : MulticastManager Socket)
      → ((g : MulticastGroup)
          → ((f g).multicast_address ≡ g.multicast_address) × ((f g).port ≡ g.port))
      → IsOwned m
      → IsOwned (record m { groups = modify key f m.groups })
  modified-IsOwned key f m same o =
      Within-IsOwned m (modify key f m.groups) o (modify-IsUnique key f m.groups o.unique_keys)
        (modify-Within m key f same)

  pub step-IsOwned :
      (e : Event Socket) (m : MulticastManager Socket) → IsOwned m → IsOwned (step e m)
  unfolding step send_packet begin_send add_viewer remove_viewer update_viewer_last_seen
  step-IsOwned (creates net id now key) m o = create_group-IsOwned net id now key m o
  step-IsOwned (removes key) m o = remove_group-IsOwned key m o
  step-IsOwned (sends net now packet) m o = elim (Option-cases (get packet.stream_key m.groups)) [
    | inl e ↦ rw (e, step) o
    | inr (g, e) ↦ rw (e, step) (modified-IsOwned packet.stream_key _ m (λ g. (refl, refl)) o)
  ]
  step-IsOwned (joins id now key addr profile) m o = elim (Option-cases (get key m.groups)) [
    | inl e ↦ rw (e, step) o
    | inr (g, e) ↦ rw (e, step) (modified-IsOwned key _ m (λ g. (refl, refl)) o)
  ]
  step-IsOwned (leaves key addr) m o = modified-IsOwned key _ m (λ g. (refl, refl)) o
  step-IsOwned (sees now key addr) m o = modified-IsOwned key _ m (λ g. (refl, refl)) o
  step-IsOwned (cleans now) m o = cleanup-IsOwned m now o

  run-IsOwned :
      (es : List (Event Socket)) (m : MulticastManager Socket) → IsOwned m → IsOwned (run es m)
  unfolding run
  run-IsOwned [] m o = o
  run-IsOwned (e ∷ es) m o = run-IsOwned es (step e m) (step-IsOwned e m o)

  -- After any history of calls and clean-ups on a new manager: the allocator's tables agree; each
  -- group's address is taken in the allocator, with the group's port, and has a socket; and no two
  -- keys have groups at one address.
  pub run-new-IsOwned :
      (config : MulticastConfig) (es : List (Event Socket)) → IsOwned (run es (new config))
  run-new-IsOwned config es = run-IsOwned es (new config) (new-IsOwned config)
