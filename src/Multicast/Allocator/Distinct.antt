-- ===== src/Multicast/Allocator/Distinct.antt =====
-- The addresses that `allocate_address` tries, and why a thousand tries find a free one.
use oxide_cast.Prelude.{
  ℕ, zero, suc, ◌+◌, ◌%◌, ◌^◌, ◌≤◌, ◌<◌, ◌≡◌, ◌↔◌, true, false, none, some, inl, inr, Option-cases,
  length, arith,
}
use native.Mathlib.Nat.{add-zero}
use oxide_cast.HashMap.{nat_eq, ◌==◌, HashMap, contains_key, remove}
use oxide_cast.HashMap.Laws.{length-remove-lt, contains_key-remove_ne}
use oxide_cast.Net.{Ipv4Addr, octets, ipv4_eq, ipv4_beq_iff}
use oxide_cast.Multicast.Allocator.{AddressAllocator, address_at, find_address, bump_offset}

-- Two offsets lead to one address exactly when they agree modulo 65536.
pub address_at-eq_iff :
    (base : Ipv4Addr) (x y : ℕ) → (address_at base x ≡ address_at base y) ↔ (x % 65536 ≡ y % 65536)
unfolding address_at
address_at-eq_iff (octets a b c d) x y = (ground arith, ground arith)

-- The first `n` tries from the offset on are all taken.
abbrev AllTaken : ℕ → Ipv4Addr → ℕ → HashMap Ipv4Addr ℕ → Type 0
AllTaken n base offset m = (i : ℕ) → i < n → contains_key (address_at base (offset + i)) m ≡ true

address_ne :
    (base : Ipv4Addr) (x i : ℕ)
    → suc i < 65536
    → (address_at base x == address_at base (x + suc i)) ≡ false
address_ne base x i h = ground (
  arith,
  address_at-eq_iff base x (x + suc i),
  ipv4_beq_iff (address_at base x) (address_at base (x + suc i)),
)

step_offset : (x i : ℕ) → x + 1 + i ≡ x + suc i
step_offset x i = omega arith

-- Distinct taken addresses fill the table.
AllTaken-le :
    (n : ℕ) (base : Ipv4Addr) (offset : ℕ) (m : HashMap Ipv4Addr ℕ)
    → n ≤ 65536
    → AllTaken n base offset m
    → n ≤ length m
AllTaken-le zero base offset m small h = omega arith
AllTaken-le (suc n) base offset m small h = omega (
  arith,
  length-remove-lt (address_at base offset) m (rw add-zero at (h 0 (omega arith))),
  AllTaken-le n base (offset + 1) (remove (address_at base offset) m) (omega arith) later,
)
  where
    later : AllTaken n base (offset + 1) (remove (address_at base offset) m)
    later i hi = rw (step_offset offset i) (
        contains_key-remove_ne (address_at base offset) (address_at base (offset + suc i)) m
          (address_ne base offset i (omega arith)) (h (suc i) (omega arith)))

-- The next offset wraps at 2 ^ 32, which the addresses do not see.
wrapped_address :
    (base : Ipv4Addr) (offset i : ℕ)
    → address_at base ((offset + 1) % 2 ^ 32 + i) ≡ address_at base (offset + suc i)
wrapped_address base offset i = (address_at-eq_iff base _ _).1 (omega arith)

find_address-none :
    (n : ℕ) (a : AddressAllocator)
    → (find_address n a).0 ≡ none
    → AllTaken n a.base_address a.next_address_offset a.allocated_addresses
unfolding find_address
find_address-none zero a e i hi = elim hi [ ]
find_address-none (suc n) a e zero hi = rw add-zero (ground arith)
find_address-none (suc n) a e (suc i) hi =
    rw (← wrapped_address a.base_address a.next_address_offset i)
      (find_address-none n (bump_offset a) (ground arith) i (omega arith))

-- A loop of at most 65536 rounds finds an address unless the table holds as many as it tries.
pub find_address_total :
    (n : ℕ) (a : AddressAllocator)
    → n ≤ 65536
    → length a.allocated_addresses < n
    → (addr : Ipv4Addr) × ((find_address n a).0 ≡ some addr)
find_address_total n a small room = elim (Option-cases (find_address n a).0) [
  | inl e ↦ absurd (
      omega (
        arith,
        AllTaken-le n a.base_address a.next_address_offset a.allocated_addresses small
            (find_address-none n a e),
      ))
  | inr found ↦ found
]
