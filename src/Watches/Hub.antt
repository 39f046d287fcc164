-- ===== src/Watches/Hub.antt =====
-- `CollectionWatchHub` of crates/chudbot-web/src/vibe_collections.rs: the sites, their collections with their
-- watches, and the counters of connections. An operation is taken as one step, so a collection is never seen
-- closed and the pointers that the source compares are the same. `outbound_queue` is at least one, as
-- crates/chudbot-bin/src/diagnostics.rs demands of a configuration, so that `mpsc::channel` does not panic.
use mathlib.Core.Option
use chudbot.Common.{
  ℕ, ◌+◌, ◌-◌, false, ◌&&◌, Option, none, some, List, [], ◌∷◌, if◌then◌else◌, ltb, ◌==◌, is_empty,
  Text, codes, text_key, nat_key, lookup, insert, remove, Result, ok, err,
}
use chudbot.Watches.{Documents, CollectionChange, WatchError, WatchClient, offer_changes, receive}

-- A collection is its clients.
pub record SiteWatches (V : Type 0) : Type 0 where
  pub collections : List (Text × List (ℕ × WatchClient V))
  pub connections : ℕ

pub record WatchLimits : Type 0 where
  pub max_connections : ℕ
  pub max_connections_per_site : ℕ
  pub outbound_queue : ℕ

pub record WatchHub (V : Type 0) : Type 0 where
  pub sites : List (ℕ × SiteWatches V)
  pub connections : ℕ

abbrev pub watches_busy : WatchError
watches_busy = record {
  code = codes "watches_busy";
  message = codes "Vibe collection watches are at their deployment-wide connection limit.";
}

abbrev pub site_watches_busy : WatchError
site_watches_busy = record {
  code = codes "site_watches_busy";
  message = codes "This site has reached its Vibe collection watch limit.";
}

unfoldable pub reserve_capacity : ℕ → ℕ → Option ℕ
reserve_capacity counter maximum = if ltb counter maximum then some (counter + 1) else none

-- `fetch_sub(1)` wraps around.
unfoldable pub release_capacity : ℕ → ℕ
release_capacity counter = if counter == 0 then 18446744073709551615 else counter - 1

abbrev pub no_watches : {V : Type 0} → SiteWatches V
no_watches = record { collections = []; connections = 0 }

-- The clients of a collection, none where the site has no such collection.
abbrev pub clients_in : {V : Type 0} → Text → SiteWatches V → List (ℕ × WatchClient V)
clients_in collection site = elim (lookup collection site.collections) [
  | none ↦ []
  | some clients ↦ clients
]

module _ {V : Type 0} where
  -- The site with another watch of the collection, which is made where there is none.
  unfoldable pub join_site : Text → ℕ → List (Text × V) → SiteWatches V → SiteWatches V
  unfolding lookup insert
  join_site collection id filters site =
      let client : WatchClient V = record {
        filters = filters;
        queued = [];
        received = [];
        cancelled = false;
      } in
      record site {
        collections =
            insert collection (insert id client (clients_in collection site)) site.collections;
      }

module _ {V : Type 0} (limits : WatchLimits) where
  -- The site with the connection reserved. A new site is entered even where nothing can be reserved.
  unfoldable pub reserve_site : Option (SiteWatches V) → Option (SiteWatches V)
  unfolding reserve_capacity
  reserve_site none = some (record no_watches {
    connections = elim (reserve_capacity 0 limits.max_connections_per_site) [
      | none ↦ 0
      | some n ↦ n
    ];
  })
  reserve_site (some site) =
      Option.map (λ n. record site { connections = n })
        (reserve_capacity site.connections limits.max_connections_per_site)

  -- `id` is the identifier that the source draws.
  unfoldable pub join :
      ℕ → Text → ℕ → List (Text × V) → WatchHub V → WatchHub V × Result WatchError ℕ
  unfolding reserve_capacity release_capacity reserve_site join_site lookup insert
  join name collection id filters hub =
      elim (reserve_capacity hub.connections limits.max_connections) [
        | none ↦ (hub, err watches_busy)
        | some total ↦ elim (reserve_site (lookup name hub.sites)) [
          | none ↦ (record hub { connections = release_capacity total }, err site_watches_busy)
          | some site ↦ (
            record {
              sites = insert name (join_site collection id filters site) hub.sites;
              connections = total;
            },
            ok id,
          )
        ]
      ]

module _ {V : Type 0} where
  unfoldable pub remove_empty_collection : Text → SiteWatches V → SiteWatches V
  unfolding lookup remove
  remove_empty_collection collection site = elim (lookup collection site.collections) [
    | none ↦ site
    | some clients ↦
        if is_empty clients
        then record site { collections = remove collection site.collections }
        else site
  ]

  unfoldable pub remove_empty_site : ℕ → SiteWatches V → WatchHub V → WatchHub V
  unfolding remove
  remove_empty_site name site hub =
      if site.connections == 0 && is_empty site.collections
      then record hub { sites = remove name hub.sites }
      else hub

  -- The site after the watch has left its collection.
  unfoldable pub left_site : Text → ℕ → List (ℕ × WatchClient V) → SiteWatches V → SiteWatches V
  unfolding remove_empty_collection release_capacity insert remove
  left_site collection id clients site = remove_empty_collection collection (record {
    collections = insert collection (remove id clients) site.collections;
    connections = release_capacity site.connections;
  })

  unfoldable pub leave : ℕ → Text → ℕ → WatchHub V → WatchHub V
  unfolding left_site remove_empty_site release_capacity lookup insert
  leave name collection id hub = elim (lookup name hub.sites) [
    | none ↦ hub
    | some site ↦ elim (lookup collection site.collections) [
      | none ↦ hub
      | some clients ↦ elim (lookup id clients) [
        | none ↦ hub
        | some client ↦ remove_empty_site name (left_site collection id clients site) (record {
          sites = insert name (left_site collection id clients site) hub.sites;
          connections = release_capacity hub.connections;
        })
      ]
    ]
  ]

  -- The clients of one collection, in place.
  abbrev pub in_collection :
      ℕ → Text → (List (ℕ × WatchClient V) → List (ℕ × WatchClient V)) → WatchHub V → WatchHub V
  in_collection name collection f hub = elim (lookup name hub.sites) [
    | none ↦ hub
    | some site ↦ elim (lookup collection site.collections) [
      | none ↦ hub
      | some clients ↦ record hub {
        sites =
            insert name
              (record site { collections = insert collection (f clients) site.collections })
              hub.sites;
      }
    ]
  ]

  -- The task of one of the clients takes a message.
  unfoldable pub receive_in : ℕ → List (ℕ × WatchClient V) → List (ℕ × WatchClient V)
  unfolding receive lookup insert
  receive_in id clients = elim (lookup id clients) [
    | none ↦ clients
    | some client ↦ insert id (receive client) clients
  ]

  unfoldable pub receive_at : ℕ → Text → ℕ → WatchHub V → WatchHub V
  unfolding receive_in lookup insert
  receive_at name collection id hub = in_collection name collection (receive_in id) hub

module _ {V : Type 0} (documents : Documents V) (outbound_queue : ℕ) where
  abbrev pub offer_all :
      List (CollectionChange V) → List (ℕ × WatchClient V) → List (ℕ × WatchClient V)
  offer_all changes [] = []
  offer_all changes ((id, client) ∷ clients) =
      (id, offer_changes documents outbound_queue changes client) ∷ offer_all changes clients

  unfoldable pub publish : ℕ → Text → List (CollectionChange V) → WatchHub V → WatchHub V
  unfolding offer_changes lookup insert
  publish name collection changes hub =
      if is_empty changes then hub else in_collection name collection (offer_all changes) hub
