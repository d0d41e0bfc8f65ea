-- ===== src/Multicast/Manager/Held.antt =====
-- An address stays taken, with its socket, until the group of a stream that has it is removed.
use oxide_cast.Multicast.Manager.{
  begin_send, MulticastManager, UdpOps, create_multicast_socket, create_group, create_at,
  remove_group, send_packet, add_viewer, remove_viewer, update_viewer_last_seen, cleanup,
}
use oxide_cast.Prelude.{
  ℕ, ◌≡◌, ◌≢◌, refl, some, inl, inr, List, [], ◌∷◌, String, arith, Result-cases, Option-cases, ◌∙◌,
}
use oxide_cast.HashMap.{HashMap, string_eq, nat_eq, get}
use oxide_cast.HashMap.Laws.{get-insert, get-remove, get_of_get-remove}
use oxide_cast.Net.{Ipv4Addr, ipv4_eq, ipv4_beq_iff}
use oxide_cast.Multicast.Group.{MulticastGroup, new_group}
use oxide_cast.Multicast.Allocator.{allocate_address}
use oxide_cast.Multicast.Allocator.Allocate.{
  allocate_address-Allocated, allocate_address-err, get-deallocate_address,
}
use oxide_cast.Multicast.Manager.Ownership.{IsOwned, Within, modify-Within, cleanup-Within}
use oxide_cast.Multicast.Manager.Events.{
  Event, creates, removes, sends, joins, leaves, sees, cleans, step, run,
}
use oxide_cast.Multicast.Manager.History.{step-IsOwned}

-- The streams that may have an address are those of `Holder`.
module _ {Socket : Type 0} (Holder : String → Type 0) where
  -- What leaves the groups of the holders alone.
  abbrev pub Spares : Event Socket → Type 0
  Spares (removes key) = ¬ Holder key
  Spares _ = Unit

  abbrev pub AllSpare : List (Event Socket) → Type 0
  AllSpare [] = Unit
  AllSpare (e ∷ es) = Spares e × AllSpare es

module _ {Socket : Type 0} (addr : Ipv4Addr) (port : ℕ) (Holder : String → Type 0) where
  -- The address is taken and has a socket, and only a holder has a group there.
  abbrev pub Kept : MulticastManager Socket → Type 0
  Kept m =
      (get addr m.address_allocator.allocated_addresses ≡ some port)
      × ((s : Socket) × (get addr m.sockets ≡ some s))
      × ((k : String) (g : MulticastGroup)
          → get k m.groups ≡ some g
          → g.multicast_address ≡ addr
          → Holder k)

  pub record IsHeld (m : MulticastManager Socket) : Type 0 where
    pub owned : IsOwned m
    pub kept : Kept m

  Within-Kept :
      (m : MulticastManager Socket) (groups : HashMap String MulticastGroup)
      → IsHeld m
      → Within m groups
      → Kept (record m { groups = groups })
  Within-Kept m groups l w =
      let (taken, open_socket, only) = l.kept in
      (taken, open_socket, λ k g e s. let (h, p, q, _) = w k g e in only k h p (q ∙ s))

  create_group-Kept :
      (net : UdpOps Socket) (id now : ℕ) (key : String) (m : MulticastManager Socket)
      → IsHeld m
      → Kept (create_group net id now key m).1
  unfolding create_group
  create_group-Kept net id now key m l =
      let (taken, (s, open_socket), only) = l.kept in
      elim (Result-cases (allocate_address m.address_allocator).0) [
        | inl ((address, p), e) ↦
            let d = allocate_address-Allocated m.address_allocator address p e in
            let still : get addr (allocate_address m.address_allocator).1.allocated_addresses
                ≡ some port =
              ground (
                arith,
                d.addresses,
                d.fresh_address,
                taken,
                get-insert address addr p m.address_allocator.allocated_addresses,
                ipv4_beq_iff address addr,
              ) in
            elim (Result-cases (create_multicast_socket net m.config address)) [
              | inl (socket, q) ↦
                  rw (e, create_at, q)
                    (
                      still,
                      (
                        s,
                        ground (
                          arith,
                          taken,
                          d.fresh_address,
                          get-insert address addr socket m.sockets,
                          ipv4_beq_iff address addr,
                        ),
                      ),
                      λ k g r same. elim (Option-cases (get k m.groups)) [
                        | inl missing ↦ absurd (
                            ground (
                              arith,
                              get-insert key k (new_group id now key address p) m.groups,
                              taken,
                              d.fresh_address,
                            ))
                        | inr (h, found) ↦
                            only k g
                              (ground (
                                arith,
                                get-insert key k (new_group id now key address p) m.groups,
                                taken,
                                d.fresh_address,
                              ))
                              same
                      ],
                    )
              | inr (why, q) ↦ rw (e, create_at, q) (still, (s, open_socket), only)
            ]
        | inr (why, e) ↦
            rw (e, create_at)
              (
                rw ((allocate_address-err m.address_allocator why e).0) taken,
                (s, open_socket),
                only,
              )
      ]

  remove_group-Kept :
      (key : String) (m : MulticastManager Socket)
      → ¬ Holder key
      → IsHeld m
      → Kept (remove_group key m)
  unfolding remove_group
  remove_group-Kept key m no_holder l =
      let (taken, (s, open_socket), only) = l.kept in
      elim (Option-cases (get key m.groups)) [
        | inl e ↦ rw (e, remove_group) (taken, (s, open_socket), only)
        | inr (g, e) ↦
            let apart : g.multicast_address ≢ addr = λ same. no_holder (only key g e same) in
            rw (e, remove_group)
              (
                ground (
                  arith,
                  get-deallocate_address m.address_allocator g.multicast_address addr g.port 0,
                  l.owned.owns key g e,
                  ipv4_beq_iff g.multicast_address addr,
                ),
                (
                  s,
                  ground (
                    arith,
                    get-remove g.multicast_address addr m.sockets,
                    ipv4_beq_iff g.multicast_address addr,
                  ),
                ),
                λ k h p. only k h (get_of_get-remove key k h m.groups p).0,
              )
      ]

  step-Kept :
      (e : Event Socket) (m : MulticastManager Socket)
      → Spares Holder e
      → IsHeld m
      → Kept (step e m)
  unfolding step send_packet begin_send add_viewer remove_viewer update_viewer_last_seen
  step-Kept (creates net id now key) m _ l = create_group-Kept net id now key m l
  step-Kept (removes key) m no_holder l = remove_group-Kept key m no_holder l
  step-Kept (sends net now packet) m _ l = elim (Option-cases (get packet.stream_key m.groups)) [
    | inl e ↦ rw (e, step) l.kept
    | inr (g, e) ↦
        rw (e, step) (Within-Kept m _ l (modify-Within m packet.stream_key _ (λ g. (refl, refl))))
  ]
  step-Kept (joins id now key a profile) m _ l = elim (Option-cases (get key m.groups)) [
    | inl e ↦ rw (e, step) l.kept
    | inr (g, e) ↦ rw (e, step) (Within-Kept m _ l (modify-Within m key _ (λ g. (refl, refl))))
  ]
  step-Kept (leaves key a) m _ l = Within-Kept m _ l (modify-Within m key _ (λ g. (refl, refl)))
  step-Kept (sees now key a) m _ l = Within-Kept m _ l (modify-Within m key _ (λ g. (refl, refl)))
  step-Kept (cleans now) m _ l =
      unfold cleanup in Within-Kept m _ l (cleanup-Within m now l.owned.unique_keys)

  pub run-IsHeld :
      (es : List (Event Socket)) (m : MulticastManager Socket)
      → AllSpare Holder es
      → IsHeld m
      → IsHeld (run es m)
  unfolding run
  run-IsHeld [] m _ l = l
  run-IsHeld (e ∷ es) m (spares, rest) l =
      run-IsHeld es (step e m) rest
        (record { owned = step-IsOwned e m l.owned; kept = step-Kept e m spares l })
