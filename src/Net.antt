-- ===== src/Net.antt =====
-- The addresses of `std::net`, with `==`.
use oxide_cast.Prelude.{ℕ, ◌≡◌, ◌↔◌, Bool, true, false, ◌&&◌, arith, ◌==◌ as nat_beq}
use oxide_cast.HashMap.{KeyEq}

-- The four octets, in the order of `Ipv4Addr::octets`.
pub data Ipv4Addr : Type 0 where
  octets : ℕ → ℕ → ℕ → ℕ → Ipv4Addr

-- An IPv6 address is its 128-bit number.
pub data IpAddr : Type 0 where
  v4 : Ipv4Addr → IpAddr
  v6 : ℕ → IpAddr

pub data SocketAddr : Type 0 where
  socket_addr : IpAddr → ℕ → SocketAddr

abbrev pub ipv4_beq : Ipv4Addr → Ipv4Addr → Bool
ipv4_beq (octets a b c d) (octets a' b' c' d') =
    nat_beq a a' && nat_beq b b' && nat_beq c c' && nat_beq d d'

pub ipv4_beq_iff : (x y : Ipv4Addr) → (ipv4_beq x y ≡ true) ↔ (x ≡ y)
ipv4_beq_iff (octets a b c d) (octets a' b' c' d') = (ground arith, ground arith)

instance abbrev pub ipv4_eq : KeyEq Ipv4Addr
ipv4_eq = record { same = ipv4_beq; same_iff = ipv4_beq_iff }

abbrev pub ip_beq : IpAddr → IpAddr → Bool
ip_beq (v4 x) (v4 y) = ipv4_beq x y
ip_beq (v6 m) (v6 n) = nat_beq m n
ip_beq _ _ = false

pub ip_beq_iff : (x y : IpAddr) → (ip_beq x y ≡ true) ↔ (x ≡ y)
ip_beq_iff (v4 x) (v4 y) = (ground (arith, ipv4_beq_iff x y), ground (arith, ipv4_beq_iff x y))
ip_beq_iff (v6 m) (v6 n) = (ground arith, ground arith)
ip_beq_iff (v4 x) (v6 n) = (ground arith, ground arith)
ip_beq_iff (v6 m) (v4 y) = (ground arith, ground arith)

abbrev pub socket_addr_beq : SocketAddr → SocketAddr → Bool
socket_addr_beq (socket_addr i p) (socket_addr j q) = ip_beq i j && nat_beq p q

pub socket_addr_beq_iff : (x y : SocketAddr) → (socket_addr_beq x y ≡ true) ↔ (x ≡ y)
socket_addr_beq_iff (socket_addr i p) (socket_addr j q) =
    (ground (arith, ip_beq_iff i j), ground (arith, ip_beq_iff i j))

instance abbrev pub socket_addr_eq : KeyEq SocketAddr
socket_addr_eq = record { same = socket_addr_beq; same_iff = socket_addr_beq_iff }
