-- ===== src/Multicast/Manager/Ownership.antt =====
-- Each group has an address, a port and a socket of its own.
use oxide_cast.Prelude.{ℕ, ◌≡◌, some, inl, inr, String, arith, Option-cases, ap}
use oxide_cast.HashMap.{HashMap, string_eq, get, modify}
use oxide_cast.HashMap.Laws.{get-modify}
use oxide_cast.HashMap.Values.{IsUnique, map_values-IsUnique, retain-IsUnique}
use oxide_cast.Config.{MulticastConfig}
use oxide_cast.Net.{ipv4_eq}
use oxide_cast.Multicast.Group.{MulticastGroup, prune, is_kept}
use oxide_cast.Multicast.Allocator.Consistent.{IsConsistent, new-IsConsistent}
use oxide_cast.Multicast.Manager.{MulticastManager, new, cleanup}
use oxide_cast.Multicast.Manager.Cleanup.{get-cleanup, keep_if-some}

module _ {Socket : Type 0} where
  pub record IsOwned (m : MulticastManager Socket) : Type 0 where
    pub consistent : IsConsistent m.address_allocator
    pub unique_keys : IsUnique m.groups
    -- the allocator holds the address of each group, with the port of the group
    pub owns :
        (k : String) (g : MulticastGroup)
        → get k m.groups ≡ some g
        → get g.multicast_address m.address_allocator.allocated_addresses ≡ some g.port
    -- each address in use has a socket
    pub wired :
        (k : String) (g : MulticastGroup)
        → get k m.groups ≡ some g
        → (s : Socket) × (get g.multicast_address m.sockets ≡ some s)
    -- no two keys share an address
    pub apart :
        (k j : String) (g h : MulticastGroup)
        → get k m.groups ≡ some g
        → get j m.groups ≡ some h
        → g.multicast_address ≡ h.multicast_address
        → k ≡ j

  pub new-IsOwned : (config : MulticastConfig) → IsOwned (new config)
  unfolding new get
  new-IsOwned config = record {
    consistent = new-IsConsistent config.base_address config.port_range;
    unique_keys = tt;
    owns = λ k g h. cc;
    wired = λ k g h. absurd (cc);
    apart = λ k j g h p q r. cc;
  }

  -- The groups of `n` are groups of `m`, at the address and the port that they had there.
  abbrev pub Within : MulticastManager Socket → HashMap String MulticastGroup → Type 0
  Within m groups =
      (k : String) (g : MulticastGroup)
      → get k groups ≡ some g
      → (h : MulticastGroup) × (get k m.groups ≡ some h)
        × (h.multicast_address ≡ g.multicast_address)
        × (h.port ≡ g.port)

  pub Within-IsOwned :
      (m : MulticastManager Socket) (groups : HashMap String MulticastGroup)
      → IsOwned m
      → IsUnique groups
      → Within m groups
      → IsOwned (record m { groups = groups })
  Within-IsOwned m groups o u w = record {
    consistent = o.consistent;
    unique_keys = u;
    owns = λ k g e. let (h, p, q, r) = w k g e in cc (o.owns k h p);
    wired = λ k g e. let (h, p, q, r) = w k g e in rw (← q) (o.wired k h p);
    apart = λ k j g g' e e' s.
        let (h, p, q, _) = w k g e in let (h', p', q', _) = w j g' e' in o.apart k j h h' p p' (cc);
  }

  -- An update of one group that leaves its address and its port alone.
  pub modify-Within :
      (m : MulticastManager Socket) (key : String) (f : MulticastGroup → MulticastGroup)
      → ((g : MulticastGroup)
          → ((f g).multicast_address ≡ g.multicast_address) × ((f g).port ≡ g.port))
      → Within m (modify key f m.groups)
  modify-Within m key f same k g e = elim (Option-cases (get k m.groups)) [
    | inl missing ↦ absurd (ground (arith, get-modify key k f m.groups))
    | inr (h, found) ↦ (
      h,
      found,
      ground (arith, get-modify key k f m.groups, same h),
      ground (arith, get-modify key k f m.groups, same h),
    )
  ]

  pub cleanup-Within :
      (m : MulticastManager Socket) (now : ℕ) → IsUnique m.groups → Within m (cleanup now m).groups
  cleanup-Within m now u k g e = elim (Option-cases (get k m.groups)) [
    | inl missing ↦ absurd (cc (get-cleanup now m k u))
    | inr (h, found) ↦
        let timeout : ℕ = m.config.group_timeout in
        let same : prune now timeout h ≡ g =
          keep_if-some (is_kept now timeout) (prune now timeout h) g
            (rw (get-cleanup now m k u, found) at e) in
        (h, found, ap (λ x. x.multicast_address) same, ap (λ x. x.port) same)
  ]

  pub cleanup-IsOwned :
      (m : MulticastManager Socket) (now : ℕ) → IsOwned m → IsOwned (cleanup now m)
  unfolding cleanup
  cleanup-IsOwned m now o =
      Within-IsOwned m (cleanup now m).groups o
        (retain-IsUnique _ _ (map_values-IsUnique _ m.groups o.unique_keys))
        (cleanup-Within m now o.unique_keys)
