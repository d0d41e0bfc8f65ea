-- ===== src/Multicast/Allocator.antt =====
-- `AddressAllocator` of src/multicast.rs: which multicast addresses and ports are taken.
pub mod Distinct
pub mod Allocate
pub mod Consistent
use oxide_cast.Prelude.{
  ℕ, zero, suc, ◌+◌, ◌-◌, ◌/◌, ◌%◌, ◌^◌, ◌≡◌, Bool, true, Option, none, some, [], if◌then◌else◌,
  Result, ok, err,
}
use oxide_cast.HashMap.{nat_eq, HashMap, get, contains_key, insert, remove}
use oxide_cast.Net.{Ipv4Addr, octets, ipv4_eq}

pub record AddressAllocator : Type 0 where
  pub base_address : Ipv4Addr
  pub port_range : ℕ × ℕ
  pub allocated_addresses : HashMap Ipv4Addr ℕ
  pub allocated_ports : HashMap ℕ Bool
  pub next_address_offset : ℕ
  pub next_port : ℕ

pub data AllocError : Type 0 where
  no_addresses no_ports : AllocError

unfoldable pub new : Ipv4Addr → ℕ × ℕ → AddressAllocator
new base_address port_range = record {
  base_address = base_address;
  port_range = port_range;
  allocated_addresses = [];
  allocated_ports = [];
  next_address_offset = 1;
  next_port = port_range.0;
}

-- `offset >> 8` and `offset & 0xFF`, each added to an octet modulo 256 on its own.
unfoldable pub address_at : Ipv4Addr → ℕ → Ipv4Addr
address_at (octets a b c d) offset =
    octets a b ((c + offset / 256) % 256) ((d + offset % 256) % 256)

-- The u32 offset wraps, as in a release build.
abbrev pub bump_offset : AddressAllocator → AddressAllocator
bump_offset a = record a { next_address_offset = (a.next_address_offset + 1) % 2 ^ 32 }

-- The loop over addresses, with the rounds left.
unfoldable pub find_address : ℕ → AddressAllocator → Option Ipv4Addr × AddressAllocator
find_address zero a = (none, a)
find_address (suc rounds) a =
    let addr = address_at a.base_address a.next_address_offset in
    let rest = find_address rounds (bump_offset a) in
    if contains_key addr a.allocated_addresses then rest else (some addr, bump_offset a)

-- The loop over ports from `p` on, with the rounds left.
unfoldable pub find_port : ℕ → ℕ → HashMap ℕ Bool → Option ℕ
find_port zero p taken = none
find_port (suc rounds) p taken =
    let rest = find_port rounds (p + 1) taken in if contains_key p taken then rest else some p

abbrev pub ports_in : ℕ × ℕ → ℕ
ports_in (lo, hi) = hi + 1 - lo

abbrev pub take_pair : Ipv4Addr → ℕ → AddressAllocator → AddressAllocator
take_pair address port a = record a {
  allocated_addresses = insert address port a.allocated_addresses;
  allocated_ports = insert port true a.allocated_ports;
}

abbrev pub with_port :
    Ipv4Addr → Option ℕ → AddressAllocator → Result AllocError (Ipv4Addr × ℕ) × AddressAllocator
with_port address none a = (err no_ports, a)
with_port address (some port) a = (ok (address, port), take_pair address port a)

abbrev pub with_address :
    Option Ipv4Addr × AddressAllocator → Result AllocError (Ipv4Addr × ℕ) × AddressAllocator
with_address (none, a) = (err no_addresses, a)
with_address (some address, a) =
    with_port address (find_port (ports_in a.port_range) a.port_range.0 a.allocated_ports) a

-- The bound of the loop over addresses.
abbrev pub max_rounds : ℕ
max_rounds = 1000

unfoldable pub allocate_address :
    AddressAllocator → Result AllocError (Ipv4Addr × ℕ) × AddressAllocator
allocate_address a = with_address (find_address max_rounds a)

unfoldable pub deallocate_address : Ipv4Addr → AddressAllocator → AddressAllocator
deallocate_address address a = elim (get address a.allocated_addresses) [
  | none ↦ a
  | some port ↦ record a {
    allocated_addresses = remove address a.allocated_addresses;
    allocated_ports = remove port a.allocated_ports;
  }
]
