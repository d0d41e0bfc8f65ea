-- ===== src/Multicast/Manager/Leak.antt =====
-- What `cleanup_task` forgets: it drops a group and leaves its address, port and socket taken.
use oxide_cast.Prelude.{ℕ, ◌≡◌, ◌≢◌, none, some, List, [], ◌∷◌, String, ◌∙◌}
use oxide_cast.HashMap.{string_eq, nat_eq, get}
use oxide_cast.Net.{ipv4_eq}
use oxide_cast.Multicast.Group.{MulticastGroup}
use oxide_cast.Multicast.Manager.{MulticastManager, cleanup}
use oxide_cast.Multicast.Manager.Ownership.{IsOwned, cleanup-Within, cleanup-IsOwned}
use oxide_cast.Multicast.Manager.Events.{
  Event, creates, removes, sends, joins, leaves, sees, cleans, run,
}
use oxide_cast.Multicast.Manager.Held.{IsHeld, AllSpare, run-IsHeld}

abbrev Nobody : String → Type 0
Nobody _ = ⊥

module _ {Socket : Type 0} where
  -- Once a tick of the clean-up task has dropped a group, no history of the manager ever frees the
  -- group's address: it stays taken in the allocator, and no group has it.
  pub cleanup_leaks :
      (now : ℕ) (m : MulticastManager Socket) (key : String) (g : MulticastGroup)
      (es : List (Event Socket))
      → IsOwned m
      → get key m.groups ≡ some g
      → get key (cleanup now m).groups ≡ none
      → let m' = run es (cleanup now m) in
        (get g.multicast_address m'.address_allocator.allocated_addresses ≡ some g.port)
        × ((k : String) (h : MulticastGroup)
            → get k m'.groups ≡ some h
            → h.multicast_address ≢ g.multicast_address)
  cleanup_leaks now m key g es o e dropped =
      let (taken, _, unused) =
        (run-IsHeld g.multicast_address g.port Nobody es (cleanup now m) (all_spare es)
          leaked).kept in
      (taken, unused)
    where
      gone :
          (k : String) (h : MulticastGroup)
          → get k (cleanup now m).groups ≡ some h
          → h.multicast_address ≢ g.multicast_address
      gone k h p s =
          let (h', p', q, _) = cleanup-Within m now o.unique_keys k h p in
          let same : k ≡ key = o.apart k key h' g p' e (q ∙ s) in cc

      leaked : IsHeld g.multicast_address g.port Nobody (cleanup now m)
      leaked = record {
        owned = cleanup-IsOwned m now o;
        kept = unfold cleanup in (o.owns key g e, o.wired key g e, gone);
      }

      all_spare : (es : List (Event Socket)) → AllSpare Nobody es
      all_spare [] = tt
      all_spare (creates _ _ _ _ ∷ es) = (tt, all_spare es)
      all_spare (removes _ ∷ es) = (λ p. p, all_spare es)
      all_spare (sends _ _ _ ∷ es) = (tt, all_spare es)
      all_spare (joins _ _ _ _ _ ∷ es) = (tt, all_spare es)
      all_spare (leaves _ _ ∷ es) = (tt, all_spare es)
      all_spare (sees _ _ _ ∷ es) = (tt, all_spare es)
      all_spare (cleans _ ∷ es) = (tt, all_spare es)
