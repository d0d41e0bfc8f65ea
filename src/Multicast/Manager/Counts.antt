-- ===== src/Multicast/Manager/Counts.antt =====
-- `viewer_count` of a group is the number of its viewers.
use oxide_cast.Multicast.Manager.{
  begin_send, MulticastManager, UdpOps, new, create_multicast_socket, create_group, create_at,
  remove_group, send_packet, add_viewer, remove_viewer, update_viewer_last_seen, cleanup,
}
use oxide_cast.Prelude.{
  ℕ, ◌≡◌, refl, some, inl, inr, List, [], ◌∷◌, String, length, arith, Result-cases, Option-cases,
}
use oxide_cast.HashMap.{KeyEq, HashMap, string_eq, get, modify}
use oxide_cast.HashMap.Values.{
  AllValues, get-AllValues, insert-AllValues, remove-AllValues, modify-AllValues,
  map_values-AllValues, retain-AllValues, IsUnique, insert-IsUnique, remove-IsUnique,
  modify-IsUnique, retain-IsUnique,
}
use oxide_cast.Config.{MulticastConfig}
use oxide_cast.Net.{socket_addr_eq}
use oxide_cast.Multicast.Group.{MulticastGroup, new_group, see}
use oxide_cast.Multicast.Allocator.{allocate_address}
use oxide_cast.Multicast.Manager.Events.{
  Event, creates, removes, sends, joins, leaves, sees, cleans, step, run,
}

abbrev pub IsCounted : MulticastGroup → Type 0
IsCounted g = (g.viewer_count ≡ length g.viewers) × IsUnique g.viewers

length-modify {ℓ κ} :
    {K : Type ℓ} {V : Type κ} ⦃e : KeyEq K⦄ (k : K) (f : V → V) (m : HashMap K V)
    → length (modify k f m) ≡ length m
unfolding modify
length-modify k f [] = refl
length-modify k f ((j, v) ∷ m) = ground (arith, length-modify k f m)

module _ {Socket : Type 0} where
  create_group-IsCounted :
      (net : UdpOps Socket) (id now : ℕ) (key : String) (m : MulticastManager Socket)
      → AllValues IsCounted m.groups
      → AllValues IsCounted (create_group net id now key m).1.groups
  unfolding create_group
  create_group-IsCounted net id now key m h =
      elim (Result-cases (allocate_address m.address_allocator).0) [
        | inl ((address, port), e) ↦
            elim (Result-cases (create_multicast_socket net m.config address)) [
              | inl (socket, q) ↦
                  rw (e, create_at, q)
                    (insert-AllValues IsCounted key (new_group id now key address port) m.groups
                      (refl, tt) h)
              | inr (why, q) ↦ rw (e, create_at, q) h
            ]
        | inr (why, e) ↦ rw (e, create_at) h
      ]

  -- Every operation keeps the counts of all groups right.
  step-IsCounted :
      (e : Event Socket) (m : MulticastManager Socket)
      → AllValues IsCounted m.groups
      → AllValues IsCounted (step e m).groups
  unfolding step remove_group send_packet begin_send add_viewer remove_viewer
      update_viewer_last_seen cleanup
  step-IsCounted (creates net id now key) m h = create_group-IsCounted net id now key m h
  step-IsCounted (removes key) m h = elim (Option-cases (get key m.groups)) [
    | inl e ↦ rw (e, remove_group) h
    | inr (g, e) ↦ rw (e, remove_group) (remove-AllValues IsCounted key m.groups h)
  ]
  step-IsCounted (sends net now packet) m h = elim (Option-cases (get packet.stream_key m.groups)) [
    | inl e ↦ rw (e, AllValues) h
    | inr (g, e) ↦
        rw (e, AllValues) (modify-AllValues IsCounted packet.stream_key _ m.groups (λ g c. c) h)
  ]
  step-IsCounted (joins id now key addr profile) m h = elim (Option-cases (get key m.groups)) [
    | inl e ↦ rw (e, AllValues) h
    | inr (g, e) ↦
        rw (e, AllValues)
          (modify-AllValues IsCounted key _ m.groups
            (λ g c. (refl, insert-IsUnique addr _ g.viewers c.1)) h)
  ]
  step-IsCounted (leaves key addr) m h =
      modify-AllValues IsCounted key _ m.groups (λ g c. (refl, remove-IsUnique addr g.viewers c.1))
        h
  step-IsCounted (sees now key addr) m h =
      modify-AllValues IsCounted key _ m.groups
        (λ g c. (
          rw (length-modify addr (see now) g.viewers) c.0,
          modify-IsUnique addr (see now) g.viewers c.1,
        ))
        h
  step-IsCounted (cleans now) m h =
      retain-AllValues IsCounted _ _ (
        map_values-AllValues IsCounted _ m.groups (λ g c. (refl, retain-IsUnique _ g.viewers c.1))
          h)

  run-IsCounted :
      (es : List (Event Socket)) (m : MulticastManager Socket)
      → AllValues IsCounted m.groups
      → AllValues IsCounted (run es m).groups
  unfolding run
  run-IsCounted [] m h = h
  run-IsCounted (e ∷ es) m h = run-IsCounted es (step e m) (step-IsCounted e m h)

  -- After any history of calls and clean-ups on a new manager, the `viewer_count` of each group
  -- that a key finds is the number of entries in its table of viewers, which lists no address
  -- twice.
  pub run-new_counts :
      (config : MulticastConfig) (es : List (Event Socket)) (key : String) (g : MulticastGroup)
      → get key (run es (new config)).groups ≡ some g
      → (g.viewer_count ≡ length g.viewers) × IsUnique g.viewers
  unfolding new
  run-new_counts config es key g =
      get-AllValues IsCounted key g _ (run-IsCounted es (new config) tt)
