-- ===== src/Watches/Views.antt =====
-- The clients that the operations in crates/chudbot-web/src/vibe_collections.rs leave in each collection.
pub mod Changed
pub mod Left
pub mod Joined
use mathlib.Core.Option
use chudbot.Common.{
  ℕ, false, ◌&&◌, ◌≡◌, refl, sym, ap, ◌∙◌, inl, inr, Option, none, some, List, [], ◌∷◌,
  if◌then◌else◌, is_empty, is_empty-eq_nil, ◌==◌, Text, text_eq, text_key, nat_key, nat_same_iff,
  text_eq_iff, lookup, insert, remove, lookup-insert, lookup-remove, remove-absent, same_refl,
  Bool-cases, Option-cases, eq_of_some, ok, err, arith,
}
use chudbot.Watches.{Documents, CollectionChange, WatchClient, offer_changes, receive}
use chudbot.Watches.Hub.{
  SiteWatches, WatchLimits, WatchHub, clients_in, reserve_capacity, release_capacity, reserve_site,
  join_site, join, remove_empty_collection, remove_empty_site, left_site, leave, in_collection,
  offer_all, publish, receive_in, receive_at,
}

abbrev pub clients_at : {V : Type 0} → ℕ → Text → WatchHub V → List (ℕ × WatchClient V)
clients_at name collection hub = elim (lookup name hub.sites) [
  | none ↦ []
  | some site ↦ clients_in collection site
]

-- The watch with the identifier.
abbrev pub client_at : {V : Type 0} → ℕ → Text → ℕ → WatchHub V → Option (WatchClient V)
client_at name collection id hub = lookup id (clients_at name collection hub)

abbrev pub fresh_watch : {V : Type 0} → List (Text × V) → WatchClient V
fresh_watch filters = record { filters = filters; queued = []; received = []; cancelled = false }

module _ {V : Type 0} where
  clients_in-insert :
      (c d : Text) (clients : List (ℕ × WatchClient V)) (site : SiteWatches V)
      → clients_in d (record site { collections = insert c clients site.collections })
        ≡ (if text_eq c d then clients else clients_in d site)
  clients_in-insert c d clients site =
      rw (clients_in, lookup-insert c d clients site.collections)
        (elim (Bool-cases (text_eq c d)) [ inl e ↦ rw (e) refl | inr e ↦ rw (e) refl ])

  clients_at-insert :
      (n m : ℕ) (d : Text) (site : SiteWatches V) (hub : WatchHub V) (total : ℕ)
      → clients_at m d (record { sites = insert n site hub.sites; connections = total })
        ≡ (if n == m then clients_in d site else clients_at m d hub)
  clients_at-insert n m d site hub total =
      rw (clients_at, lookup-insert n m site hub.sites)
        (elim (Bool-cases (n == m)) [ inl e ↦ rw (e) refl | inr e ↦ rw (e) refl ])

  -- An operation on one collection of one site.
  placed-clients_at :
      (n m : ℕ) (c d : Text) (next : SiteWatches V) (clients : List (ℕ × WatchClient V))
      (hub : WatchHub V) (total : ℕ)
      → ((e : Text) → clients_in e next ≡ (if text_eq c e then clients else clients_at n e hub))
      → clients_at m d (record { sites = insert n next hub.sites; connections = total })
        ≡ (if n == m && text_eq c d then clients else clients_at m d hub)
  placed-clients_at n m c d next clients hub total here =
      rw (clients_at-insert n m d next hub total) (elim (Bool-cases (n == m)) [
        | inr k ↦ rw (k) refl
        | inl k ↦ rw (k, here d, (nat_same_iff n m).0 k) refl
      ])

  clients_in-remove :
      (c d : Text) (site : SiteWatches V)
      → clients_in d (record site { collections = remove c site.collections })
        ≡ (if text_eq c d then [] else clients_in d site)
  clients_in-remove c d site =
      rw (clients_in, lookup-remove c d site.collections)
        (elim (Bool-cases (text_eq c d)) [ inl e ↦ rw (e) refl | inr e ↦ rw (e) refl ])

  clients_at-remove :
      (n m : ℕ) (d : Text) (hub : WatchHub V)
      → clients_at m d (record hub { sites = remove n hub.sites })
        ≡ (if n == m then [] else clients_at m d hub)
  clients_at-remove n m d hub =
      rw (clients_at, lookup-remove n m hub.sites)
        (elim (Bool-cases (n == m)) [ inl e ↦ rw (e) refl | inr e ↦ rw (e) refl ])

  clients_in-lookup :
      (c : Text) (site : SiteWatches V) (clients : List (ℕ × WatchClient V))
      → lookup c site.collections ≡ some clients
      → clients_in c site ≡ clients
  clients_in-lookup c site clients found = rw (clients_in, found) refl

  clients_at-lookup :
      (n : ℕ) (d : Text) (site : SiteWatches V) (hub : WatchHub V)
      → lookup n hub.sites ≡ some site
      → clients_at n d hub ≡ clients_in d site
  clients_at-lookup n d site hub found = rw (clients_at, found) refl

  remove_empty_collection-clients_in :
      (c d : Text) (site : SiteWatches V)
      → clients_in d (remove_empty_collection c site) ≡ clients_in d site
  unfolding remove_empty_collection
  remove_empty_collection-clients_in c d site = elim (Option-cases (lookup c site.collections)) [
    | inl e ↦ rw (remove_empty_collection, e) refl
    | inr (clients, e) ↦ elim (Bool-cases (is_empty clients)) [
      | inr full ↦ rw (remove_empty_collection, e, full) refl
      | inl bare ↦
          rw (remove_empty_collection, e, bare, clients_in-remove c d site)
            (elim (Bool-cases (text_eq c d)) [
              | inr k ↦ rw (k) refl
              | inl k ↦
                  rw (k, sym ((text_eq_iff c d).0 k), clients_in-lookup c site clients e)
                    (sym (is_empty-eq_nil clients bare))
            ])
    ]
  ]

  remove_empty_site-clients_at :
      (n m : ℕ) (d : Text) (site : SiteWatches V) (hub : WatchHub V)
      → lookup n hub.sites ≡ some site
      → clients_at m d (remove_empty_site n site hub) ≡ clients_at m d hub
  unfolding remove_empty_site lookup
  remove_empty_site-clients_at n m d site hub found =
      elim (Bool-cases (site.connections == 0 && is_empty site.collections)) [
        | inr e ↦ rw (e) refl
        | inl e ↦
            rw (e, clients_at-remove n m d hub)
              (elim (Bool-cases (n == m)) [
                | inr k ↦ rw (k) refl
                | inl k ↦
                    (let none_left : site.collections ≡ [] =
                        is_empty-eq_nil site.collections (ground (arith, e)) in
                      rw
                        (
                          k,
                          sym ((nat_same_iff n m).0 k),
                          clients_at-lookup n d site hub found,
                          clients_in,
                          none_left,
                        )
                        refl)
              ])
      ]

  fixed_place :
      (n m : ℕ) (c d : Text) (f : List (ℕ × WatchClient V) → List (ℕ × WatchClient V))
      (hub : WatchHub V)
      → f (clients_at n c hub) ≡ clients_at n c hub
      → clients_at m d hub
        ≡ (if n == m && text_eq c d then f (clients_at n c hub) else clients_at m d hub)
  fixed_place n m c d f hub fixed = elim (Bool-cases (n == m && text_eq c d)) [
    | inr e ↦ rw (e) refl
    | inl e ↦
        (let name_eq = (nat_same_iff n m).0 (ground (arith, e)) in
          let collection_eq = (text_eq_iff c d).0 (ground (arith, e)) in
          rw (e, sym name_eq, sym collection_eq) (sym fixed))
  ]

  bare_place :
      (n m : ℕ) (c d : Text) (f : List (ℕ × WatchClient V) → List (ℕ × WatchClient V))
      (hub : WatchHub V)
      → f [] ≡ []
      → clients_at n c hub ≡ []
      → clients_at m d hub
        ≡ (if n == m && text_eq c d then f (clients_at n c hub) else clients_at m d hub)
  bare_place n m c d f hub bare none_here =
      fixed_place n m c d f hub (ap f none_here ∙ bare ∙ sym none_here)
