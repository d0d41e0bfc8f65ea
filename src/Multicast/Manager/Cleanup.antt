-- ===== src/Multicast/Manager/Cleanup.antt =====
-- One tick of `cleanup_task`: which groups and which viewers it leaves.
use oxide_cast.Prelude.{
  length, ℕ, ◌-◌, ◌<◌, ◌≡◌, ◌↔◌, refl, ◌∙◌, none, some, [], ◌∷◌, String, arith, Bool, true, ap,
}
use mathlib.Core.Option
use oxide_cast.HashMap.{string_eq, HashMap, get, map_values, retain}
use oxide_cast.HashMap.Laws.{get-map_values, beq_refl, get_of_not_contains_key}
use oxide_cast.HashMap.Values.{IsUnique, map_values-IsUnique, get-retain, keep_if}
use oxide_cast.Net.{SocketAddr, socket_addr_eq, socket_addr_beq_iff}
use oxide_cast.Multicast.Group.{
  MulticastGroup, ViewerInfo, prune, is_kept, is_present, nanos, is_empty,
}
use oxide_cast.Multicast.Manager.{MulticastManager, cleanup}

pub keep_if-some {κ} : {V : Type κ} (p : V → Bool) (v w : V) → keep_if p (some v) ≡ some w → v ≡ w
keep_if-some p v w e = ground arith

module _ {Socket : Type 0} where
  -- A group is pruned, and then kept if it still has a viewer or was active within the timeout.
  pub get-cleanup :
      (now : ℕ) (m : MulticastManager Socket) (key : String)
      → IsUnique m.groups
      → get key (cleanup now m).groups
        ≡ keep_if
            (is_kept now m.config.group_timeout)
            (Option.map (prune now m.config.group_timeout) (get key m.groups))
  unfolding cleanup
  get-cleanup now m key u =
      let timeout : ℕ = m.config.group_timeout in
      get-retain key (is_kept now timeout) (map_values (prune now timeout) m.groups)
        (map_values-IsUnique (prune now timeout) m.groups u)
      ∙ ap (keep_if (is_kept now timeout)) (get-map_values key (prune now timeout) m.groups)

is_empty-none :
    (a : SocketAddr) (vs : HashMap SocketAddr ViewerInfo) → is_empty vs ≡ true → get a vs ≡ none
unfolding get
is_empty-none a [] e = refl
is_empty-none a (x ∷ vs) e = cc

all_stale_of_is_empty :
    (now timeout : ℕ) (vs : HashMap SocketAddr ViewerInfo)
    → IsUnique vs
    → is_empty (retain (is_present now timeout) vs) ≡ true
    → (a : SocketAddr) (v : ViewerInfo) → get a vs ≡ some v
    → nanos timeout < now - v.last_seen
all_stale_of_is_empty now timeout vs u e a v q = ground (
  arith,
  get-retain a (is_present now timeout) vs u,
  is_empty-none a (retain (is_present now timeout) vs) e,
)

is_empty_of_all_stale :
    (now timeout : ℕ) (vs : HashMap SocketAddr ViewerInfo)
    → IsUnique vs
    → ((a : SocketAddr) (v : ViewerInfo) → get a vs ≡ some v → nanos timeout < now - v.last_seen)
    → is_empty (retain (is_present now timeout) vs) ≡ true
unfolding retain get
is_empty_of_all_stale now timeout [] u h = refl
is_empty_of_all_stale now timeout ((k, w) ∷ vs) u h =
    ground (arith, h k w (rw (beq_refl k) refl), is_empty_of_all_stale now timeout vs u.1 below)
  where
    below :
        (a : SocketAddr) (v : ViewerInfo) → get a vs ≡ some v → nanos timeout < now - v.last_seen
    below a v q = h a v (ground (arith, socket_addr_beq_iff k a, get_of_not_contains_key k vs u.0))

module _ {Socket : Type 0} where
  -- The tick drops a group exactly when every viewer of it was last seen, and the group last
  -- active, longer than the timeout ago.
  pub cleanup_drops_iff :
      (now : ℕ) (m : MulticastManager Socket) (key : String) (g : MulticastGroup)
      → IsUnique m.groups
      → get key m.groups ≡ some g
      → IsUnique g.viewers
      → (get key (cleanup now m).groups ≡ none) ↔ (
          ((a : SocketAddr) (v : ViewerInfo)
            → get a g.viewers ≡ some v
            → nanos m.config.group_timeout < now - v.last_seen)
          × (nanos m.config.group_timeout < now - g.last_activity))
  cleanup_drops_iff now m key g u e v =
      let timeout : ℕ = m.config.group_timeout in
      let reads = get-cleanup now m key u in
      (
        λ dropped.
            let empty : is_empty (retain (is_present now timeout) g.viewers) ≡ true =
              ground (arith, reads, e, dropped) in
            (
              all_stale_of_is_empty now timeout g.viewers v empty,
              ground (arith, reads, e, dropped),
            ),
        λ (stale, idle).
            ground (arith, reads, e, is_empty_of_all_stale now timeout g.viewers v stale, idle),
      )

  -- A group that the tick keeps has exactly the viewers that were seen within the timeout, and
  -- their number as its count.
  pub cleanup_viewers :
      (now : ℕ) (m : MulticastManager Socket) (key : String) (g g' : MulticastGroup)
      (a : SocketAddr)
      → IsUnique m.groups
      → get key m.groups ≡ some g
      → IsUnique g.viewers
      → get key (cleanup now m).groups ≡ some g'
      → (get a g'.viewers ≡ keep_if (is_present now m.config.group_timeout) (get a g.viewers))
        × (g'.viewer_count ≡ length g'.viewers)
  cleanup_viewers now m key g g' a u e v kept =
      let timeout : ℕ = m.config.group_timeout in
      let same : prune now timeout g ≡ g' =
        keep_if-some (is_kept now timeout) (prune now timeout g) g'
          (rw (get-cleanup now m key u, e) at kept) in
      (rw (← same) (get-retain a (is_present now timeout) g.viewers v), rw (← same) refl)
