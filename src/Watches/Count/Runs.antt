-- ===== src/Watches/Count/Runs.antt =====
-- The counters of connections over any sequence of operations of the hub in
-- crates/chudbot-web/src/vibe_collections.rs.
use chudbot.Common.{
  ℕ, ◌+◌, ◌≤◌, ◌≡◌, refl, ap, ◌∙◌, inl, inr, none, List, [], ◌∷◌, is_empty, text_key, nat_key,
  lookup, Bool-cases,
}
use chudbot.Watches.{Documents, CollectionChange, WatchClient}
use chudbot.Watches.Hub
use chudbot.Watches.Hub.{
  SiteWatches, WatchLimits, WatchHub, clients_in, remove_empty_collection, remove_empty_site,
  release_capacity, reserve_capacity, reserve_site, join_site, left_site, no_watches, in_collection,
  receive_in, receive_at, offer_all,
}
use chudbot.Watches.Views.{client_at}
use chudbot.Watches.Views.Changed.{lookup-offer_all}
use chudbot.Watches.Runs.{WatchOp, step, run}
use chudbot.Watches.Count.{total, IsUnique}
use chudbot.Watches.Count.Hub.{size, IsCountedHub}
use chudbot.Watches.Count.Places.{in_collection-IsCountedHub, receive_in-IsUnique, size-receive_in}
use chudbot.Watches.Count.Left.{leave-IsCountedHub}
use chudbot.Watches.Count.Joined.{join-IsCountedHub}

module _ {V : Type 0} (documents : Documents V) (limits : WatchLimits) where
  lookup-offer_all-none :
      (changes : List (CollectionChange V)) (clients : List (ℕ × WatchClient V)) (i : ℕ)
      → lookup i clients ≡ none
      → lookup i (offer_all documents limits.outbound_queue changes clients) ≡ none
  lookup-offer_all-none changes clients i gone =
      lookup-offer_all documents limits.outbound_queue changes clients i ∙ rw (gone) refl

  offer_all-IsUnique :
      (changes : List (CollectionChange V)) (clients : List (ℕ × WatchClient V))
      → IsUnique clients
      → IsUnique (offer_all documents limits.outbound_queue changes clients)
  unfolding IsUnique
  offer_all-IsUnique changes [] unique = tt
  offer_all-IsUnique changes ((i, client) ∷ clients) (fresh, unique) =
      (lookup-offer_all-none changes clients i fresh, offer_all-IsUnique changes clients unique)

  size-offer_all :
      (changes : List (CollectionChange V)) (clients : List (ℕ × WatchClient V))
      → size (offer_all documents limits.outbound_queue changes clients) ≡ size clients
  unfolding total
  size-offer_all changes [] = refl
  size-offer_all changes ((i, client) ∷ clients) = ap (λ n. 1 + n) (size-offer_all changes clients)

  -- Each join is under an identifier that the collection does not have: the source draws it at random.
  unfoldable pub IsFreshRun : List (WatchOp V) → WatchHub V → Type 0
  unfolding step lookup
  IsFreshRun [] hub = Unit
  IsFreshRun (WatchOp.join n c id filters ∷ ops) hub =
      (client_at n c id hub ≡ none)
      × IsFreshRun ops (step documents limits (WatchOp.join n c id filters) hub)
  IsFreshRun (op ∷ ops) hub = IsFreshRun ops (step documents limits op hub)

  -- Through any operations on a hub whose counters are right, each join under a new identifier,
  -- they stay right: the hub's counter is the sum of its sites', each site's is the number of
  -- its watches, neither is over its limit, and no identifier is twice in a collection, if the
  -- limit of a site allows at least one watch.
  pub run-IsCountedHub :
      (ops : List (WatchOp V)) (hub : WatchHub V)
      → 1 ≤ limits.max_connections_per_site
      → IsFreshRun ops hub
      → IsCountedHub limits hub
      → IsCountedHub limits (run documents limits ops hub)
  unfolding run step IsFreshRun Hub.publish receive_at
  run-IsCountedHub [] hub positive fresh counted = counted
  run-IsCountedHub (WatchOp.join n c id filters ∷ ops) hub positive (fresh, later) counted =
      run-IsCountedHub ops _ positive later
        (join-IsCountedHub limits n c id filters hub positive fresh counted)
  run-IsCountedHub (WatchOp.leave n c id ∷ ops) hub positive fresh counted =
      run-IsCountedHub ops _ positive fresh (leave-IsCountedHub limits n c id hub counted)
  run-IsCountedHub (WatchOp.publish n c changes ∷ ops) hub positive fresh counted =
      run-IsCountedHub ops _ positive fresh (elim (Bool-cases (is_empty changes)) [
        | inl e ↦ rw (e) counted
        | inr e ↦ rw (e) (
            in_collection-IsCountedHub limits n c
              (offer_all documents limits.outbound_queue changes) hub (offer_all-IsUnique changes)
              (size-offer_all changes) counted)
      ])
  run-IsCountedHub (WatchOp.receive n c id ∷ ops) hub positive fresh counted =
      run-IsCountedHub ops _ positive fresh (
        in_collection-IsCountedHub limits n c (receive_in id) hub (receive_in-IsUnique limits id)
          (size-receive_in limits id) counted)
