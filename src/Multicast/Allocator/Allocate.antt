-- ===== src/Multicast/Allocator/Allocate.antt =====
-- What `allocate_address` and `deallocate_address` do to the two tables, on every branch.
use oxide_cast.Prelude.{
  ℕ, zero, suc, ◌+◌, ◌≤◌, ◌<◌, ◌≡◌, refl, Bool, true, false, Option, none, some, inl, inr,
  Option-cases, length, arith, ok, err, if◌then◌else◌,
}
use oxide_cast.HashMap.{nat_eq, ◌==◌, HashMap, get, contains_key, insert}
use oxide_cast.HashMap.Laws.{get-remove, get_of_contains_key, get_of_not_contains_key}
use oxide_cast.Net.{Ipv4Addr, ipv4_eq}
use oxide_cast.Multicast.Allocator.{
  AddressAllocator, find_address, find_port, allocate_address, deallocate_address, with_address,
  with_port, ports_in, max_rounds, bump_offset, AllocError,
}
use oxide_cast.Multicast.Allocator.Distinct.{find_address_total}

-- The loop over addresses moves the offset alone.
pub find_address_keeps :
    (n : ℕ) (a : AddressAllocator)
    → let a' = (find_address n a).1 in
      (a'.allocated_addresses ≡ a.allocated_addresses)
      × (a'.allocated_ports ≡ a.allocated_ports)
      × (a'.port_range ≡ a.port_range)
      × (a'.base_address ≡ a.base_address)
unfolding find_address
find_address_keeps zero a = (refl, refl, refl, refl)
find_address_keeps (suc n) a = ground (arith, find_address_keeps n (bump_offset a))

find_address_fresh :
    (n : ℕ) (a : AddressAllocator) (addr : Ipv4Addr)
    → (find_address n a).0 ≡ some addr
    → contains_key addr a.allocated_addresses ≡ false
unfolding find_address
find_address_fresh zero a addr e = cc
find_address_fresh (suc n) a addr e = ground (arith, find_address_fresh n (bump_offset a) addr)

find_port_fresh :
    (n lo : ℕ) (taken : HashMap ℕ Bool) (p : ℕ)
    → find_port n lo taken ≡ some p
    → (lo ≤ p) × (p < lo + n) × (contains_key p taken ≡ false)
unfolding find_port
find_port_fresh zero lo taken p e = cc
find_port_fresh (suc n) lo taken p e = ground (arith, find_port_fresh n (lo + 1) taken p)

find_port-none :
    (n lo : ℕ) (taken : HashMap ℕ Bool) (p : ℕ)
    → find_port n lo taken ≡ none
    → lo ≤ p
    → p < lo + n
    → contains_key p taken ≡ true
unfolding find_port
find_port-none zero lo taken p e low high = absurd (omega arith)
find_port-none (suc n) lo taken p e low high = ground (arith, find_port-none n (lo + 1) taken p)

-- A pair that was free, and the tables with it.
pub record Allocated (a b : AddressAllocator) (addr : Ipv4Addr) (port : ℕ) : Type 0 where
  pub fresh_address : get addr a.allocated_addresses ≡ none
  pub fresh_port : get port a.allocated_ports ≡ none
  pub low : a.port_range.0 ≤ port
  pub high : port ≤ a.port_range.1
  pub addresses : b.allocated_addresses ≡ insert addr port a.allocated_addresses
  pub ports : b.allocated_ports ≡ insert port true a.allocated_ports
  pub range : b.port_range ≡ a.port_range

with_port-Allocated :
    (a b : AddressAllocator) (addr x : Ipv4Addr) (port : ℕ) (o : Option ℕ)
    → o ≡ find_port (ports_in b.port_range) b.port_range.0 b.allocated_ports
    → contains_key addr a.allocated_addresses ≡ false
    → (b.allocated_addresses ≡ a.allocated_addresses)
      × (b.allocated_ports ≡ a.allocated_ports)
      × (b.port_range ≡ a.port_range)
      × (b.base_address ≡ a.base_address)
    → (with_port addr o b).0 ≡ ok (x, port)
    → Allocated a (with_port addr o b).1 x port
with_port-Allocated a b addr x port none found new same e = cc
with_port-Allocated a b addr x port (some p) found new same e = record {
  fresh_address = ground (arith, get_of_not_contains_key addr a.allocated_addresses);
  fresh_port = ground (
    arith,
    get_of_not_contains_key p b.allocated_ports,
    find_port_fresh (ports_in b.port_range) b.port_range.0 b.allocated_ports p,
  );
  low = ground (arith, find_port_fresh (ports_in b.port_range) b.port_range.0 b.allocated_ports p);
  high = ground (arith, find_port_fresh (ports_in b.port_range) b.port_range.0 b.allocated_ports p);
  addresses = ground arith;
  ports = ground arith;
  range = ground arith;
}

with_address-Allocated :
    (a : AddressAllocator) (r : Option Ipv4Addr × AddressAllocator) (addr : Ipv4Addr) (port : ℕ)
    → ((x : Ipv4Addr) → r.0 ≡ some x → contains_key x a.allocated_addresses ≡ false)
    → (r.1.allocated_addresses ≡ a.allocated_addresses)
      × (r.1.allocated_ports ≡ a.allocated_ports)
      × (r.1.port_range ≡ a.port_range)
      × (r.1.base_address ≡ a.base_address)
    → (with_address r).0 ≡ ok (addr, port)
    → Allocated a (with_address r).1 addr port
with_address-Allocated a (none, b) addr port new same e = cc
with_address-Allocated a (some x, b) addr port new same e =
    with_port-Allocated a b x addr port _ refl (new x refl) same e

-- A successful `allocate_address` hands out an address and a port in the range that were both
-- free, and enters exactly this pair in the two tables.
pub allocate_address-Allocated :
    (a : AddressAllocator) (addr : Ipv4Addr) (port : ℕ)
    → (allocate_address a).0 ≡ ok (addr, port)
    → Allocated a (allocate_address a).1 addr port
unfolding allocate_address
allocate_address-Allocated a addr port e =
    with_address-Allocated a (find_address max_rounds a) addr port (find_address_fresh max_rounds a)
      (find_address_keeps max_rounds a) e

with_address-err :
    (a : AddressAllocator) (r : Option Ipv4Addr × AddressAllocator) {why : AllocError}
    → (r.1.allocated_addresses ≡ a.allocated_addresses)
      × (r.1.allocated_ports ≡ a.allocated_ports)
      × (r.1.port_range ≡ a.port_range)
      × (r.1.base_address ≡ a.base_address)
    → (with_address r).0 ≡ err why
    → ((with_address r).1.allocated_addresses ≡ a.allocated_addresses)
      × ((with_address r).1.allocated_ports ≡ a.allocated_ports)
      × ((with_address r).1.port_range ≡ a.port_range)
with_address-err a (none, b) same e = ground arith
with_address-err a (some x, b) same e = ground arith

with_address_total :
    (a : AddressAllocator) (r : Option Ipv4Addr × AddressAllocator) (free : ℕ)
    → (r.1.allocated_addresses ≡ a.allocated_addresses)
      × (r.1.allocated_ports ≡ a.allocated_ports)
      × (r.1.port_range ≡ a.port_range)
      × (r.1.base_address ≡ a.base_address)
    → (addr : Ipv4Addr) × (r.0 ≡ some addr)
    → a.port_range.0 ≤ free
    → free ≤ a.port_range.1
    → get free a.allocated_ports ≡ none
    → (pair : Ipv4Addr × ℕ) × ((with_address r).0 ≡ ok pair)
with_address_total a (none, b) free same found low high unused = absurd (ground arith)
with_address_total a (some x, b) free same found low high unused =
    elim (Option-cases (find_port (ports_in b.port_range) b.port_range.0 b.allocated_ports)) [
      | inl e ↦ absurd (
          ground (
            arith,
            find_port-none (ports_in b.port_range) b.port_range.0 b.allocated_ports free e,
            get_of_contains_key free b.allocated_ports,
          ))
      | inr (p, e) ↦ ((x, p), ground arith)
    ]

-- A refused `allocate_address` leaves both tables and the range as they were.
pub allocate_address-err :
    (a : AddressAllocator) (why : AllocError)
    → (allocate_address a).0 ≡ err why
    → ((allocate_address a).1.allocated_addresses ≡ a.allocated_addresses)
      × ((allocate_address a).1.allocated_ports ≡ a.allocated_ports)
      × ((allocate_address a).1.port_range ≡ a.port_range)
unfolding allocate_address
allocate_address-err a why e =
    with_address-err a (find_address max_rounds a) (find_address_keeps max_rounds a) e

-- While fewer than 1000 addresses are taken and some port of the range is free,
-- `allocate_address` succeeds.
pub allocate_address_total :
    (a : AddressAllocator) (free : ℕ)
    → length a.allocated_addresses < max_rounds
    → a.port_range.0 ≤ free
    → free ≤ a.port_range.1
    → get free a.allocated_ports ≡ none
    → (pair : Ipv4Addr × ℕ) × ((allocate_address a).0 ≡ ok pair)
unfolding allocate_address
allocate_address_total a free room low high unused =
    with_address_total a (find_address max_rounds a) free (find_address_keeps max_rounds a)
      (find_address_total max_rounds a (omega arith) room) low high unused

pub deallocate_address-none :
    (a : AddressAllocator) (addr : Ipv4Addr)
    → get addr a.allocated_addresses ≡ none
    → deallocate_address addr a ≡ a
unfolding deallocate_address
deallocate_address-none a addr e = ground arith

-- Giving an address back frees it and its port, and touches no other entry.
pub get-deallocate_address :
    (a : AddressAllocator) (addr x : Ipv4Addr) (port q : ℕ)
    → get addr a.allocated_addresses ≡ some port
    → let b = deallocate_address addr a in
      (get x b.allocated_addresses ≡ (if addr == x then none else get x a.allocated_addresses))
      × (get q b.allocated_ports ≡ (if port == q then none else get q a.allocated_ports))
      × (b.port_range ≡ a.port_range)
unfolding deallocate_address
get-deallocate_address a addr x port q e =
    ground (arith, get-remove addr x a.allocated_addresses, get-remove port q a.allocated_ports)
