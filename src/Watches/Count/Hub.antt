-- ===== src/Watches/Count/Hub.antt =====
-- The counters of `CollectionWatchHub` in crates/chudbot-web/src/vibe_collections.rs: what they count, and how one
-- place changes.
use chudbot.Common.{
  ℕ, ◌+◌, ◌≤◌, true, ◌≡◌, refl, inl, inr, some, List, [], ◌∷◌, is_empty, ◌==◌, ◌&&◌, Text, text_key,
  nat_key, lookup, insert, Bool-cases, Option-cases, arith,
}
use chudbot.Watches.{WatchClient}
use chudbot.Watches.Hub.{
  SiteWatches, WatchLimits, WatchHub, remove_empty_collection, remove_empty_site,
}
use chudbot.Watches.Count.{
  total, IsUnique, weight_at, total-insert, total-remove, Each, insert-Each, remove-Each,
  insert-IsUnique, remove-IsUnique,
}

abbrev pub size : {V : Type 0} → List (ℕ × WatchClient V) → ℕ
size clients = total (λ c. 1) clients

size_empty :
    {V : Type 0} (clients : List (ℕ × WatchClient V)) → is_empty clients ≡ true → size clients ≡ 0
unfolding total
size_empty [] e = refl
size_empty (c ∷ clients) e = cc

abbrev pub connections_of : {V : Type 0} → SiteWatches V → ℕ
connections_of site = site.connections

module _ {V : Type 0} (limits : WatchLimits) where
  -- A site's counter is the number of its watches, within the limit; an identifier has one watch in a
  -- collection.
  abbrev pub IsCountedSite : SiteWatches V → Type 0
  IsCountedSite site =
      IsUnique site.collections
      × Each (λ clients. IsUnique clients) site.collections
      × (site.connections ≡ total size site.collections)
      × site.connections ≤ limits.max_connections_per_site

  -- The hub's counter is the sum of its sites', within the limit.
  unfoldable pub IsCountedHub : WatchHub V → Type 0
  unfolding total IsUnique lookup
  IsCountedHub hub =
      IsUnique hub.sites
      × Each IsCountedSite hub.sites
      × (hub.connections ≡ total connections_of hub.sites)
      × hub.connections ≤ limits.max_connections

  -- A site with other clients in one collection.
  pub insert-IsCountedSite :
      (c : Text) (clients : List (ℕ × WatchClient V)) (site : SiteWatches V) (count : ℕ)
      → IsUnique site.collections
      → Each (λ clients. IsUnique clients) site.collections
      → IsUnique clients
      → count + weight_at size c site.collections ≡ total size site.collections + size clients
      → count ≤ limits.max_connections_per_site
      → IsCountedSite
          (record { collections = insert c clients site.collections; connections = count })
  insert-IsCountedSite c clients site count unique each here counted fits = (
    insert-IsUnique c clients site.collections unique,
    insert-Each (λ clients. IsUnique clients) c clients site.collections here each,
    omega (arith, counted, total-insert size c clients site.collections),
    fits,
  )

  -- A hub with another site in one place.
  pub insert-IsCountedHub :
      (n : ℕ) (site : SiteWatches V) (hub : WatchHub V) (count : ℕ)
      → IsCountedHub hub
      → IsCountedSite site
      → count + weight_at connections_of n hub.sites ≡ hub.connections + site.connections
      → count ≤ limits.max_connections
      → IsCountedHub (record { sites = insert n site hub.sites; connections = count })
  unfolding IsCountedHub
  insert-IsCountedHub n site hub count (unique, each, counted, _) here sum fits = (
    insert-IsUnique n site hub.sites unique,
    insert-Each IsCountedSite n site hub.sites here each,
    omega (arith, sum, counted, total-insert connections_of n site hub.sites),
    fits,
  )

  pub remove_empty_collection-IsCountedSite :
      (c : Text) (site : SiteWatches V)
      → IsCountedSite site
      → IsCountedSite (remove_empty_collection c site)
  unfolding remove_empty_collection
  remove_empty_collection-IsCountedSite c site (unique, each, counted, fits) =
      elim (Option-cases (lookup c site.collections)) [
        | inl h ↦ rw (remove_empty_collection, h) (unique, each, counted, fits)
        | inr (clients, h) ↦ elim (Bool-cases (is_empty clients)) [
          | inr full ↦ rw (remove_empty_collection, h, full) (unique, each, counted, fits)
          | inl bare ↦
              (let zero_size : size clients ≡ 0 = size_empty clients bare in
                rw (remove_empty_collection, h, bare)
                  (
                    remove-IsUnique c site.collections unique,
                    remove-Each (λ clients. IsUnique clients) c site.collections each,
                    omega (
                      arith,
                      counted,
                      zero_size,
                      total-remove size c clients site.collections unique h,
                    ),
                    fits,
                  ))
        ]
      ]

  pub remove_empty_site-IsCountedHub :
      (n : ℕ) (site : SiteWatches V) (hub : WatchHub V)
      → lookup n hub.sites ≡ some site
      → IsCountedHub hub
      → IsCountedHub (remove_empty_site n site hub)
  unfolding remove_empty_site IsCountedHub
  remove_empty_site-IsCountedHub n site hub found (unique, each, counted, fits) =
      elim (Bool-cases (site.connections == 0 && is_empty site.collections)) [
        | inr e ↦ rw (e) (unique, each, counted, fits)
        | inl e ↦
            (let none_left : site.connections ≡ 0 = ground (arith, e) in
              rw (e) (
                remove-IsUnique n hub.sites unique,
                remove-Each IsCountedSite n hub.sites each,
                omega (
                  arith,
                  counted,
                  none_left,
                  total-remove connections_of n site hub.sites unique found,
                ),
                fits,
              ))
      ]
