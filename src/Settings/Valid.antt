-- ===== src/Settings/Valid.antt =====
-- What the components can rely on with settings that are valid.
use oxide_cast.Prelude.{ℕ, ◌≤◌, ◌≡◌, refl, true, not, ltb, ◌==◌, ok, arith}
use oxide_cast.HashMap.{nat_eq, get}
use oxide_cast.Net.{Ipv4Addr}
use oxide_cast.Hls.Stream.{Types}
use oxide_cast.Multicast.Allocator.{allocate_address}
use oxide_cast.Multicast.Allocator as Allocator
use oxide_cast.Multicast.Allocator.Allocate.{allocate_address_total}
use oxide_cast.Settings.{ConfigOps, AppConfig, validate}

-- With settings that validate, the multicast layer gets an address and a port from a new allocator
-- with them, and the transcoder has a permit.
pub validate-allocate_address :
    {T : Types} (ops : ConfigOps T) (config : AppConfig T)
    → validate ops config ≡ ok tt
    → ((pair : Ipv4Addr × ℕ) × ((allocate_address
            (Allocator.new config.multicast.base_address config.multicast.port_range)).0
          ≡ ok pair))
      × (1 ≤ config.transcoding.max_concurrent)
unfolding validate Allocator.new get
validate-allocate_address ops config h =
    let low = config.multicast.port_range.0 in
    let ports : ltb low config.multicast.port_range.1 ≡ true = ground (arith, h) in
    let jobs : not (config.transcoding.max_concurrent == 0) ≡ true = ground (arith, h) in
    (
      allocate_address_total
          (Allocator.new config.multicast.base_address config.multicast.port_range) low
          (omega arith) (omega arith) (ground (arith, ports)) refl,
      ground (arith, jobs),
    )
