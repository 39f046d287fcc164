-- ===== src/Watches/Count/Left.antt =====
-- The counters after `leave` of crates/chudbot-web/src/vibe_collections.rs.
use chudbot.Common.{
  ℕ, ◌≤◌, ◌≡◌, refl, inl, inr, some, List, Text, text_key, nat_key, lookup, insert, remove,
  lookup-insert, same_refl, Option-cases, arith,
}
use chudbot.Watches.{WatchClient}
use chudbot.Watches.Hub
use chudbot.Watches.Hub.{
  SiteWatches, WatchLimits, WatchHub, clients_in, remove_empty_collection, remove_empty_site,
  release_capacity, reserve_capacity, reserve_site, join_site, left_site, no_watches, in_collection,
  receive_in, receive_at, offer_all,
}
use chudbot.Watches.Count.{weight_at, total-remove, weight_le-total, remove-IsUnique}
use chudbot.Watches.Count.Hub.{
  size, connections_of, IsCountedHub, insert-IsCountedSite, insert-IsCountedHub,
  remove_empty_collection-IsCountedSite, remove_empty_site-IsCountedHub,
}
use chudbot.Watches.Count.Places.{release_capacity-pred, connections-remove_empty_collection}

module _ {V : Type 0} (limits : WatchLimits) where
  left-IsCountedHub :
      (n : ℕ) (c : Text) (id : ℕ) (clients : List (ℕ × WatchClient V)) (site : SiteWatches V)
      (client : WatchClient V) (hub : WatchHub V)
      → IsCountedHub limits hub
      → lookup n hub.sites ≡ some site
      → lookup c site.collections ≡ some clients
      → lookup id clients ≡ some client
      → IsCountedHub limits (
          remove_empty_site n (left_site c id clients site) (record {
            sites = insert n (left_site c id clients site) hub.sites;
            connections = release_capacity hub.connections;
          }))
  unfolding left_site IsCountedHub release_capacity
  left-IsCountedHub n c id clients site client hub (unique, each, counted, fits) found there
        present =
      let (su, se, sc, sf) = each n site found in
      let left = left_site c id clients site in
      let fewer = total-remove (λ c. 1) id client clients (se c clients there) present in
      let there_weight : weight_at size c site.collections ≡ size clients =
        rw (weight_at, there) refl in
      let here_weight : weight_at connections_of n hub.sites ≡ site.connections =
        rw (weight_at, found) refl in
      let some_site : 1 ≤ site.connections =
        omega (arith, sc, fewer, weight_le-total size c clients site.collections there) in
      let some_hub : 1 ≤ hub.connections =
        omega (arith, counted, some_site, weight_le-total connections_of n site hub.sites found) in
      let one_less = release_capacity-pred site.connections some_site in
      let hub_less = release_capacity-pred hub.connections some_hub in
      let left_count : left.connections ≡ release_capacity site.connections =
        connections-remove_empty_collection c _ in
      remove_empty_site-IsCountedHub limits n left _
        (rw (lookup-insert n n left hub.sites, same_refl n) refl)
        (insert-IsCountedHub limits n left hub (release_capacity hub.connections)
          (unique, each, counted, fits)
          (remove_empty_collection-IsCountedSite limits c _ (
            insert-IsCountedSite limits c (remove id clients) site
              (release_capacity site.connections) su se
              (remove-IsUnique id clients (se c clients there))
              (omega (arith, sc, fewer, there_weight, one_less)) (omega (arith, sf, one_less))))
          (omega (arith, here_weight, left_count, one_less, hub_less, some_site, some_hub))
          (omega (arith, fits, hub_less)))

  pub leave-IsCountedHub :
      (n : ℕ) (c : Text) (id : ℕ) (hub : WatchHub V)
      → IsCountedHub limits hub
      → IsCountedHub limits (Hub.leave n c id hub)
  unfolding Hub.leave left_site IsCountedHub
  leave-IsCountedHub n c id hub (unique, each, counted, fits) =
      elim (Option-cases (lookup n hub.sites)) [
        | inl gone ↦ rw (Hub.leave, gone) (unique, each, counted, fits)
        | inr (site, found) ↦ elim (Option-cases (lookup c site.collections)) [
          | inl gone ↦ rw (Hub.leave, found, gone) (unique, each, counted, fits)
          | inr (clients, there) ↦ elim (Option-cases (lookup id clients)) [
            | inl gone ↦ rw (Hub.leave, found, there, gone) (unique, each, counted, fits)
            | inr (client, present) ↦
                rw (Hub.leave, found, there, present)
                  (left-IsCountedHub n c id clients site client hub (unique, each, counted, fits)
                    found there present)
          ]
        ]
      ]
