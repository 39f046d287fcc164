-- ===== src/Watches/Count/Joined.antt =====
-- The counters after `join` of crates/chudbot-web/src/vibe_collections.rs.
use chudbot.Common.{
  ℕ, ◌+◌, ◌≤◌, true, ◌≡◌, refl, sym, ap, ◌∙◌, inl, inr, Option, none, some, List, ltb, Text,
  text_key, nat_key, lookup, insert, Option-cases, eq_of_some, arith,
}
use chudbot.Watches.Hub
use chudbot.Watches.Hub.{
  SiteWatches, WatchLimits, WatchHub, clients_in, remove_empty_collection, remove_empty_site,
  release_capacity, reserve_capacity, reserve_site, join_site, left_site, no_watches, in_collection,
  receive_in, receive_at, offer_all,
}
use chudbot.Watches.Views.{client_at, clients_at, fresh_watch}
use chudbot.Watches.Count.{total, IsUnique, weight_at, Each, insert-IsUnique}
use chudbot.Watches.Count.Hub.{
  size, connections_of, IsCountedSite, IsCountedHub, insert-IsCountedSite, insert-IsCountedHub,
}
use chudbot.Watches.Count.Places.{
  add_sub_one, release_capacity-pred, reserved_count, size-insert, clients_in-weight,
  clients_in-IsUnique,
}

module _ {V : Type 0} (limits : WatchLimits) where
  -- A join adds a watch where its identifier is new.
  join_site-IsCountedSite :
      (c : Text) (id : ℕ) (filters : List (Text × V)) (old : SiteWatches V)
      → IsUnique old.collections
      → Each (λ clients. IsUnique clients) old.collections
      → (old.connections ≡ total size old.collections)
      → old.connections + 1 ≤ limits.max_connections_per_site
      → lookup id (clients_in c old) ≡ none
      → IsCountedSite limits
          (join_site c id filters (record old { connections = old.connections + 1 }))
  unfolding join_site
  join_site-IsCountedSite c id filters old unique each counted fits fresh =
      insert-IsCountedSite limits c (insert id (fresh_watch filters) (clients_in c old)) old
        (old.connections + 1) unique each
        (insert-IsUnique id (fresh_watch filters) (clients_in c old)
          (clients_in-IsUnique limits c old each))
        (omega (
          arith,
          counted,
          clients_in-weight limits c old,
          size-insert limits id (fresh_watch filters) (clients_in c old) fresh,
        ))
        fits

  abbrev site_or_none : Option (SiteWatches V) → SiteWatches V
  site_or_none found = elim found [ none ↦ no_watches | some site ↦ site ]

  reserve_site_lem :
      (found : Option (SiteWatches V)) (site : SiteWatches V)
      → 1 ≤ limits.max_connections_per_site
      → reserve_site limits found ≡ some site
      → (record (site_or_none found) { connections = (site_or_none found).connections + 1 } ≡ site)
        × (site_or_none found).connections + 1 ≤ limits.max_connections_per_site
  unfolding reserve_site reserve_capacity
  reserve_site_lem none site positive reserved =
      let room : ltb 0 limits.max_connections_per_site ≡ true = ground (arith, positive) in
      (eq_of_some (rw (reserve_site, reserve_capacity, room) at reserved), positive)
  reserve_site_lem (some old) site positive reserved =
      elim (Option-cases (reserve_capacity old.connections limits.max_connections_per_site)) [
        | inl full ↦ cc (rw (reserve_site, full) at reserved)
        | inr (n, counted) ↦
            (let (same, fits) =
                reserved_count old.connections limits.max_connections_per_site n counted in
              (rw (sym same) (eq_of_some (rw (reserve_site, counted) at reserved)), fits))
      ]

  site_or_none-IsCountedSite :
      (n : ℕ) (hub : WatchHub V)
      → IsCountedHub limits hub
      → IsCountedSite limits (site_or_none (lookup n hub.sites))
  unfolding IsCountedHub total IsUnique lookup
  site_or_none-IsCountedSite n hub (unique, each, counted, fits) =
      elim (Option-cases (lookup n hub.sites)) [
        | inl gone ↦ rw (site_or_none, gone) (tt, (λ k v h. cc), refl, omega arith)
        | inr (site, found) ↦ rw (site_or_none, found) (each n site found)
      ]

  site_or_none-weight :
      (n : ℕ) (hub : WatchHub V)
      → weight_at connections_of n hub.sites ≡ (site_or_none (lookup n hub.sites)).connections
  site_or_none-weight n hub = elim (Option-cases (lookup n hub.sites)) [
    | inl gone ↦ rw (weight_at, gone) refl
    | inr (site, found) ↦ rw (weight_at, found) refl
  ]

  site_or_none-clients_in :
      (n : ℕ) (c : Text) (hub : WatchHub V)
      → clients_in c (site_or_none (lookup n hub.sites)) ≡ clients_at n c hub
  unfolding lookup
  site_or_none-clients_in n c hub = elim (Option-cases (lookup n hub.sites)) [
    | inl gone ↦ rw (clients_at, gone) refl
    | inr (site, found) ↦ rw (clients_at, found) refl
  ]

  pub join-IsCountedHub :
      (n : ℕ) (c : Text) (id : ℕ) (filters : List (Text × V)) (hub : WatchHub V)
      → 1 ≤ limits.max_connections_per_site
      → client_at n c id hub ≡ none
      → IsCountedHub limits hub
      → IsCountedHub limits (Hub.join limits n c id filters hub).0
  unfolding Hub.join
  join-IsCountedHub n c id filters hub positive fresh counted_hub =
      elim (Option-cases (reserve_capacity hub.connections limits.max_connections)) [
        | inl full ↦ rw (Hub.join, full) counted_hub
        | inr (count, reserved) ↦
            (let (same_count, count_fits) =
                reserved_count hub.connections limits.max_connections count reserved in
              elim (Option-cases (reserve_site limits (lookup n hub.sites))) [
                | inl full ↦
                    rw
                      (
                        Hub.join,
                        reserved,
                        full,
                        same_count,
                        release_capacity-pred (hub.connections + 1) (omega arith),
                        add_sub_one hub.connections,
                      )
                      counted_hub
                | inr (site, known) ↦
                    (let (same, fits) = reserve_site_lem (lookup n hub.sites) site positive known in
                      let (su, se, sc, sf) = site_or_none-IsCountedSite n hub counted_hub in
                      rw (Hub.join, reserved, known, sym same)
                        (insert-IsCountedHub limits n _ hub count counted_hub
                          (join_site-IsCountedSite c id filters (site_or_none (lookup n hub.sites))
                            su se sc fits
                            (ap (λ clients. lookup id clients) (site_or_none-clients_in n c hub)
                              ∙ fresh))
                          (omega (arith, same_count, site_or_none-weight n hub))
                          (omega (arith, same_count, count_fits))))
              ])
      ]
