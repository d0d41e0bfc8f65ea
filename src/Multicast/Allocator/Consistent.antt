-- ===== src/Multicast/Allocator/Consistent.antt =====
-- The two tables of the allocator agree, after any history of allocations and deallocations.
use oxide_cast.Prelude.{
  ℕ, ◌≤◌, ◌≡◌, Bool, true, some, inl, inr, Option-cases, arith, Result-cases, if◌then◌else◌, List,
  [], ◌∷◌,
}
use oxide_cast.HashMap.{nat_eq, ◌==◌, get, insert}
use oxide_cast.HashMap.Laws.{get-insert}
use oxide_cast.Net.{Ipv4Addr, ipv4_eq, ipv4_beq_iff}
use oxide_cast.Multicast.Allocator.{AddressAllocator, new, allocate_address, deallocate_address}
use oxide_cast.Multicast.Allocator.Allocate.{
  Allocated, deallocate_address-none, allocate_address-Allocated, allocate_address-err,
  get-deallocate_address,
}

pub record IsConsistent (a : AddressAllocator) : Type 0 where
  -- the port of a taken address is taken, and lies in the range
  pub marked :
      (x : Ipv4Addr) (p : ℕ)
      → get x a.allocated_addresses ≡ some p
      → get p a.allocated_ports ≡ some true
  pub ranged :
      (x : Ipv4Addr) (p : ℕ)
      → get x a.allocated_addresses ≡ some p
      → (a.port_range.0 ≤ p) × (p ≤ a.port_range.1)
  -- no two addresses share a port
  pub unique :
      (x y : Ipv4Addr) (p : ℕ)
      → get x a.allocated_addresses ≡ some p
      → get y a.allocated_addresses ≡ some p
      → x ≡ y
  -- a taken port belongs to an address
  pub backed :
      (p : ℕ) (b : Bool)
      → get p a.allocated_ports ≡ some b
      → (x : Ipv4Addr) × (get x a.allocated_addresses ≡ some p)

pub new-IsConsistent : (base : Ipv4Addr) (range : ℕ × ℕ) → IsConsistent (new base range)
unfolding new get
new-IsConsistent base range = record {
  marked = λ x p h. cc;
  ranged = λ x p h. absurd (cc);
  unique = λ x y p h. cc;
  backed = λ p b h. absurd (cc);
}

Allocated-IsConsistent :
    (a b : AddressAllocator) (addr : Ipv4Addr) (port : ℕ)
    → IsConsistent a
    → Allocated a b addr port
    → IsConsistent b
Allocated-IsConsistent a b addr port c d = record {
  marked = λ x p h. ground (arith, d.addresses, d.ports, reads x p, c.marked x p, c.marked addr p);
  ranged = λ x p h. ground (arith, d.addresses, d.range, d.low, d.high, reads x p, c.ranged x p);
  unique = λ x y p h k. ground (
    arith,
    d.addresses,
    d.fresh_port,
    reads x p,
    reads y p,
    c.unique x y p,
    c.marked x p,
    c.marked y p,
    ipv4_beq_iff addr x,
    ipv4_beq_iff addr y,
  );
  backed = λ p t h. elim (Option-cases (get p a.allocated_ports)) [
    | inl unused ↦
        (addr, ground (arith, d.addresses, d.ports, reads addr p, ipv4_beq_iff addr addr))
    | inr (s, used) ↦
        let (x, hx) = c.backed p s used in
        (x, ground (arith, d.addresses, d.fresh_address, reads x p, ipv4_beq_iff addr x))
  ];
}
  where
    reads :
        (x : Ipv4Addr) (p : ℕ)
        → (get x (insert addr port a.allocated_addresses)
            ≡ (if addr == x then some port else get x a.allocated_addresses))
          × (get p (insert port true a.allocated_ports)
              ≡ (if port == p then some true else get p a.allocated_ports))
    reads x p =
        (get-insert addr x port a.allocated_addresses, get-insert port p true a.allocated_ports)

same_tables-IsConsistent :
    (a b : AddressAllocator)
    → (b.allocated_addresses ≡ a.allocated_addresses)
      × (b.allocated_ports ≡ a.allocated_ports)
      × (b.port_range ≡ a.port_range)
    → IsConsistent a
    → IsConsistent b
same_tables-IsConsistent a b (s, t, r) c = record {
  marked = λ x p h. rw t (c.marked x p (rw s at h));
  ranged = λ x p h. rw r (c.ranged x p (rw s at h));
  unique = λ x y p h k. c.unique x y p (rw s at h) (rw s at k);
  backed = λ p q h. rw s (c.backed p q (rw t at h));
}

-- `allocate_address` keeps the tables consistent, whether it succeeds or not.
pub allocate_address-IsConsistent :
    (a : AddressAllocator) → IsConsistent a → IsConsistent (allocate_address a).1
allocate_address-IsConsistent a c = elim (Result-cases (allocate_address a).0) [
  | inl ((addr, port), e) ↦
      Allocated-IsConsistent a _ addr port c (allocate_address-Allocated a addr port e)
  | inr (why, e) ↦ same_tables-IsConsistent a _ (allocate_address-err a why e) c
]

-- `deallocate_address` keeps the tables consistent.
pub deallocate_address-IsConsistent :
    (addr : Ipv4Addr) (a : AddressAllocator)
    → IsConsistent a
    → IsConsistent (deallocate_address addr a)
deallocate_address-IsConsistent addr a c = elim (Option-cases (get addr a.allocated_addresses)) [
  | inl e ↦ rw (deallocate_address-none a addr e) c
  | inr (port, e) ↦ freed port e
]
  where
    freed :
        (port : ℕ)
        → get addr a.allocated_addresses ≡ some port
        → IsConsistent (deallocate_address addr a)
    freed port e = record {
      marked = λ x p h. ground (
        arith,
        get-deallocate_address a addr x port p e,
        c.marked x p,
        c.unique addr x port,
        ipv4_beq_iff addr x,
      );
      ranged = λ x p h. ground (arith, get-deallocate_address a addr x port p e, c.ranged x p);
      unique = λ x y p h k. ground (
        arith,
        get-deallocate_address a addr x port p e,
        get-deallocate_address a addr y port p e,
        c.unique x y p,
      );
      backed = λ p t h.
          let (x, hx) =
            c.backed p t (ground (arith, get-deallocate_address a addr addr port p e)) in
          (x, ground (arith, get-deallocate_address a addr x port p e, ipv4_beq_iff addr x));
    }

-- What a client of the allocator asks of it.
pub data Request : Type 0 where
  allocate : Request
  deallocate : Ipv4Addr → Request

pub run : List Request → AddressAllocator → AddressAllocator
run [] a = a
run (allocate ∷ rs) a = run rs (allocate_address a).1
run (deallocate addr ∷ rs) a = run rs (deallocate_address addr a)

-- From any consistent allocator every history of requests leads to a consistent one.
run-IsConsistent :
    (rs : List Request) (a : AddressAllocator) → IsConsistent a → IsConsistent (run rs a)
unfolding run
run-IsConsistent [] a c = c
run-IsConsistent (allocate ∷ rs) a c = run-IsConsistent rs _ (allocate_address-IsConsistent a c)
run-IsConsistent (deallocate addr ∷ rs) a c =
    run-IsConsistent rs _ (deallocate_address-IsConsistent addr a c)

-- After any history of allocations and deallocations on a new allocator, every taken address has
-- a port of its own, which lies in the range and is marked as taken, and every port that is marked
-- belongs to a taken address.
pub run-new-IsConsistent :
    (base : Ipv4Addr) (range : ℕ × ℕ) (rs : List Request) → IsConsistent (run rs (new base range))
run-new-IsConsistent base range rs = run-IsConsistent rs _ (new-IsConsistent base range)
