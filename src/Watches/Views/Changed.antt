-- ===== src/Watches/Views/Changed.antt =====
-- What `publish` and the tasks of the watches in crates/chudbot-web/src/vibe_collections.rs change.
use mathlib.Core.Option
use chudbot.Common.{
  ℕ, ◌&&◌, ◌≡◌, refl, sym, ap, ◌∙◌, inl, inr, List, [], ◌∷◌, if◌then◌else◌, ◌==◌, Text, text_eq,
  text_key, nat_key, nat_same_iff, lookup, insert, lookup-insert, Bool-cases, Option-cases,
}
use chudbot.Watches.{Documents, CollectionChange, WatchClient, offer_changes, receive}
use chudbot.Watches.Hub.{
  WatchHub, clients_in, in_collection, offer_all, publish, receive_in, receive_at,
}
use chudbot.Watches.Views.{
  clients_at, clients_in-insert, placed-clients_at, clients_in-lookup, clients_at-lookup,
  fixed_place, bare_place,
}

module _ {V : Type 0} where
  in_collection-clients_at :
      (n m : ℕ) (c d : Text) (f : List (ℕ × WatchClient V) → List (ℕ × WatchClient V))
      (hub : WatchHub V)
      → f [] ≡ []
      → clients_at m d (in_collection n c f hub)
        ≡ (if n == m && text_eq c d then f (clients_at n c hub) else clients_at m d hub)
  in_collection-clients_at n m c d f hub bare = elim (Option-cases (lookup n hub.sites)) [
    | inl gone ↦
        rw (in_collection, gone) (bare_place n m c d f hub bare (rw (clients_at, gone) refl))
    | inr (site, found) ↦ elim (Option-cases (lookup c site.collections)) [
      | inl gone ↦
          rw (in_collection, found, gone)
            (bare_place n m c d f hub bare
              (clients_at-lookup n c site hub found ∙ rw (clients_in, gone) refl))
      | inr (clients, there) ↦
          rw
            (
              in_collection,
              found,
              there,
              clients_at-lookup n c site hub found,
              clients_in-lookup c site clients there,
            )
            (placed-clients_at n m c d
              (record site { collections = insert c (f clients) site.collections }) (f clients) hub
              hub.connections
              (λ e.
                rw (clients_at-lookup n e site hub found) (clients_in-insert c e (f clients) site)))
    ]
  ]

module _ {V : Type 0} where
  pub lookup-receive_in :
      (i id : ℕ) (clients : List (ℕ × WatchClient V))
      → lookup id (receive_in i clients)
        ≡ (if i == id then Option.map receive (lookup id clients) else lookup id clients)
  unfolding receive_in
  lookup-receive_in i id clients = elim (Option-cases (lookup i clients)) [
    | inl gone ↦
        rw (receive_in, gone)
          (elim (Bool-cases (i == id)) [
            | inl e ↦ rw (e, sym ((nat_same_iff i id).0 e), gone) refl
            | inr e ↦ rw (e) refl
          ])
    | inr (client, found) ↦
        rw (receive_in, found, lookup-insert i id (receive client) clients)
          (elim (Bool-cases (i == id)) [
            | inl e ↦ rw (e, sym ((nat_same_iff i id).0 e), found) refl
            | inr e ↦ rw (e) refl
          ])
  ]

  pub receive_at-clients_at :
      (n m : ℕ) (c d : Text) (id : ℕ) (hub : WatchHub V)
      → clients_at m d (receive_at n c id hub)
        ≡ (if n == m && text_eq c d then receive_in id (clients_at n c hub) else clients_at m d hub)
  unfolding receive_at receive_in lookup
  receive_at-clients_at n m c d id hub = in_collection-clients_at n m c d (receive_in id) hub refl

module _ {V : Type 0} (documents : Documents V) (outbound_queue : ℕ) where
  pub lookup-offer_all :
      (changes : List (CollectionChange V)) (clients : List (ℕ × WatchClient V)) (i : ℕ)
      → lookup i (offer_all documents outbound_queue changes clients)
        ≡ Option.map (offer_changes documents outbound_queue changes) (lookup i clients)
  unfolding lookup
  lookup-offer_all changes [] i = refl
  lookup-offer_all changes ((j, client) ∷ clients) i = elim (Bool-cases (j == i)) [
    | inl e ↦ rw (e) refl
    | inr e ↦ rw (e) (lookup-offer_all changes clients i)
  ]

  offer_all-nil :
      (clients : List (ℕ × WatchClient V)) → offer_all documents outbound_queue [] clients ≡ clients
  unfolding offer_changes
  offer_all-nil [] = refl
  offer_all-nil ((i, client) ∷ clients) = ap (λ r. (i, client) ∷ r) (offer_all-nil clients)

  pub publish-clients_at :
      (n m : ℕ) (c d : Text) (changes : List (CollectionChange V)) (hub : WatchHub V)
      → clients_at m d (publish documents outbound_queue n c changes hub) ≡ (
          if n == m && text_eq c d
          then offer_all documents outbound_queue changes (clients_at n c hub)
          else clients_at m d hub)
  unfolding publish
  publish-clients_at n m c d [] hub =
      fixed_place n m c d (offer_all documents outbound_queue []) hub
        (offer_all-nil (clients_at n c hub))
  publish-clients_at n m c d (change ∷ changes) hub =
      in_collection-clients_at n m c d (offer_all documents outbound_queue (change ∷ changes)) hub
        refl
