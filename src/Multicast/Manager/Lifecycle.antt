-- ===== src/Multicast/Manager/Lifecycle.antt =====
-- Opening and closing groups keeps the ownership of addresses, ports and sockets.
use oxide_cast.Prelude.{
  ℕ, ◌≡◌, some, inl, inr, String, arith, Result-cases, Option-cases, false, if◌then◌else◌,
  Bool-cases,
}
use oxide_cast.HashMap.{string_eq, nat_eq, ◌==◌, get, insert, remove}
use oxide_cast.HashMap.Laws.{get-insert, get-remove, get_of_get-remove}
use oxide_cast.HashMap.Values.{insert-IsUnique, remove-IsUnique}
use oxide_cast.Net.{Ipv4Addr, ipv4_eq, ipv4_beq_iff}
use oxide_cast.Multicast.Group.{MulticastGroup, new_group}
use oxide_cast.Multicast.Allocator.{AddressAllocator, allocate_address, deallocate_address}
use oxide_cast.Multicast.Allocator.Allocate.{
  Allocated, allocate_address-Allocated, allocate_address-err, get-deallocate_address,
}
use oxide_cast.Multicast.Allocator.Consistent.{
  IsConsistent, allocate_address-IsConsistent, deallocate_address-IsConsistent,
}
use oxide_cast.Multicast.Manager.{
  MulticastManager, UdpOps, create_multicast_socket, create_group, create_at, remove_group,
}
use oxide_cast.Multicast.Manager.Ownership.{IsOwned}
use text.Mathlib.TextEquality.{eq_iff}

module _ {Socket : Type 0} where
  removed-IsOwned :
      (key : String) (g : MulticastGroup) (m : MulticastManager Socket)
      → IsOwned m
      → get key m.groups ≡ some g
      → IsOwned (record m {
        groups = remove key m.groups;
        sockets = remove g.multicast_address m.sockets;
        address_allocator = deallocate_address g.multicast_address m.address_allocator;
      })
  removed-IsOwned key g m o e = record {
    consistent = deallocate_address-IsConsistent g.multicast_address _ o.consistent;
    unique_keys = remove-IsUnique key m.groups o.unique_keys;
    owns = λ k h p. ground (
      arith,
      other k h p,
      get-deallocate_address m.address_allocator g.multicast_address h.multicast_address g.port 0,
      o.owns key g e,
      o.owns k h,
    );
    wired = λ k h p.
        let (s, q) = o.wired k h (get_of_get-remove key k h m.groups p).0 in
        (
          s,
          ground (arith, other k h p, get-remove g.multicast_address h.multicast_address m.sockets),
        );
    apart = λ k j h h' p q.
        o.apart k j h h' (get_of_get-remove key k h m.groups p).0
          (get_of_get-remove key j h' m.groups q).0;
  }
    where
      other :
          (k : String) (h : MulticastGroup)
          → get k (remove key m.groups) ≡ some h
          → (get k m.groups ≡ some h) × ((g.multicast_address == h.multicast_address) ≡ false)
      other k h p = ground (
        arith,
        get_of_get-remove key k h m.groups p,
        ipv4_beq_iff g.multicast_address h.multicast_address,
        eq_iff key k,
        o.apart key k g h e,
      )

  pub remove_group-IsOwned :
      (key : String) (m : MulticastManager Socket) → IsOwned m → IsOwned (remove_group key m)
  unfolding remove_group
  remove_group-IsOwned key m o = elim (Option-cases (get key m.groups)) [
    | inl e ↦ rw (e, remove_group) o
    | inr (g, e) ↦ rw (e, remove_group) (removed-IsOwned key g m o e)
  ]

  -- A new pair in the allocator, with no group for it yet.
  Allocated-IsOwned :
      (m : MulticastManager Socket) (b : AddressAllocator) (address : Ipv4Addr) (port : ℕ)
      → IsOwned m
      → IsConsistent b
      → Allocated m.address_allocator b address port
      → IsOwned (record m { address_allocator = b })
  Allocated-IsOwned m b address port o c d = record {
    consistent = c;
    unique_keys = o.unique_keys;
    owns = λ k g e. ground (
      arith,
      d.addresses,
      d.fresh_address,
      o.owns k g,
      get-insert address g.multicast_address port m.address_allocator.allocated_addresses,
      ipv4_beq_iff address g.multicast_address,
    );
    wired = o.wired;
    apart = o.apart;
  }

  refused-IsOwned :
      (m : MulticastManager Socket) (b : AddressAllocator)
      → IsOwned m
      → IsConsistent b
      → b.allocated_addresses ≡ m.address_allocator.allocated_addresses
      → IsOwned (record m { address_allocator = b })
  refused-IsOwned m b o c same = record {
    consistent = c;
    unique_keys = o.unique_keys;
    owns = λ k g e. rw same (o.owns k g e);
    wired = o.wired;
    apart = o.apart;
  }

  -- The pair goes to a new group, whose socket is open.
  opened-IsOwned :
      (m : MulticastManager Socket) (b : AddressAllocator) (key : String) (g : MulticastGroup)
      (socket : Socket)
      → IsOwned m
      → IsConsistent b
      → Allocated m.address_allocator b g.multicast_address g.port
      → IsOwned (record m {
        groups = insert key g m.groups;
        sockets = insert g.multicast_address socket m.sockets;
        address_allocator = b;
      })
  opened-IsOwned m b key g socket o c d = record {
    consistent = c;
    unique_keys = insert-IsUnique key g m.groups o.unique_keys;
    owns = λ k h e. ground (
      arith,
      reads k h,
      d.addresses,
      get-insert g.multicast_address h.multicast_address g.port
          m.address_allocator.allocated_addresses,
      ipv4_beq_iff g.multicast_address h.multicast_address,
      o.owns k h,
      d.fresh_address,
    );
    wired = λ k h e. elim (Bool-cases (g.multicast_address == h.multicast_address)) [
      | inl q ↦ (socket, ground (arith, found h))
      | inr q ↦
          let there : get k m.groups ≡ some h =
            ground (arith, reads k h, ipv4_beq_iff g.multicast_address h.multicast_address) in
          let (s, r) = o.wired k h there in (s, ground (arith, found h))
    ];
    apart = λ k j h h' e e' s. ground (
      arith,
      reads k h,
      reads j h',
      o.apart k j h h',
      o.owns k h,
      o.owns j h',
      d.fresh_address,
      eq_iff key k,
      eq_iff key j,
    );
  }
    where
      reads :
          (k : String) (h : MulticastGroup)
          → get k (insert key g m.groups) ≡ (if key == k then some g else get k m.groups)
      reads k h = get-insert key k g m.groups

      found :
          (h : MulticastGroup)
          → get h.multicast_address (insert g.multicast_address socket m.sockets) ≡ (
              if g.multicast_address == h.multicast_address
              then some socket
              else get h.multicast_address m.sockets)
      found h = get-insert g.multicast_address h.multicast_address socket m.sockets

  pub create_group-IsOwned :
      (net : UdpOps Socket) (id now : ℕ) (key : String) (m : MulticastManager Socket)
      → IsOwned m
      → IsOwned (create_group net id now key m).1
  unfolding create_group
  create_group-IsOwned net id now key m o =
      let c : IsConsistent (allocate_address m.address_allocator).1 =
        allocate_address-IsConsistent m.address_allocator o.consistent in
      elim (Result-cases (allocate_address m.address_allocator).0) [
        | inl ((address, port), e) ↦
            let d = allocate_address-Allocated m.address_allocator address port e in
            elim (Result-cases (create_multicast_socket net m.config address)) [
              | inl (socket, q) ↦
                  rw (e, create_at, q)
                    (opened-IsOwned m _ key (new_group id now key address port) socket o c d)
              | inr (why, q) ↦ rw (e, create_at, q) (Allocated-IsOwned m _ address port o c d)
            ]
        | inr (why, e) ↦
            rw (e, create_at)
              (refused-IsOwned m _ o c (allocate_address-err m.address_allocator why e).0)
      ]
