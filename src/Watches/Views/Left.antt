-- ===== src/Watches/Views/Left.antt =====
-- The clients after `leave` of crates/chudbot-web/src/vibe_collections.rs.
use chudbot.Common.{
  ℕ, ◌&&◌, ◌≡◌, refl, ◌∙◌, inl, inr, some, List, if◌then◌else◌, ◌==◌, Text, text_eq, text_key,
  nat_key, lookup, insert, remove, lookup-insert, remove-absent, same_refl, Option-cases,
}
use chudbot.Watches.{WatchClient}
use chudbot.Watches.Hub.{
  SiteWatches, WatchHub, clients_in, release_capacity, remove_empty_site, left_site, leave,
}
use chudbot.Watches.Views.{
  clients_at, clients_in-insert, placed-clients_at, clients_in-lookup, clients_at-lookup,
  remove_empty_collection-clients_in, remove_empty_site-clients_at, fixed_place, bare_place,
}

module _ {V : Type 0} where
  -- Where the watch was there.
  left-clients_at :
      (n m : ℕ) (c d : Text) (id : ℕ) (clients : List (ℕ × WatchClient V)) (site : SiteWatches V)
      (hub : WatchHub V)
      → lookup n hub.sites ≡ some site
      → clients_at m d (
          remove_empty_site n (left_site c id clients site) (record {
            sites = insert n (left_site c id clients site) hub.sites;
            connections = release_capacity hub.connections;
          }))
        ≡ (if n == m && text_eq c d then remove id clients else clients_at m d hub)
  unfolding left_site release_capacity
  left-clients_at n m c d id clients site hub found =
      let left = left_site c id clients site in
      let total = release_capacity hub.connections in
      let next : WatchHub V = record { sites = insert n left hub.sites; connections = total } in
      remove_empty_site-clients_at n m d left next
        (rw (lookup-insert n n left hub.sites, same_refl n) refl)
      ∙ placed-clients_at n m c d left (remove id clients) hub total (λ e.
        remove_empty_collection-clients_in c e (record {
          collections = insert c (remove id clients) site.collections;
          connections = release_capacity site.connections;
        })
        ∙ clients_in-insert c e (remove id clients) site
        ∙ rw (clients_at-lookup n e site hub found) refl)

  pub leave-clients_at :
      (n m : ℕ) (c d : Text) (id : ℕ) (hub : WatchHub V)
      → clients_at m d (leave n c id hub)
        ≡ (if n == m && text_eq c d then remove id (clients_at n c hub) else clients_at m d hub)
  unfolding leave left_site
  leave-clients_at n m c d id hub = elim (Option-cases (lookup n hub.sites)) [
    | inl gone ↦
        rw (leave, gone) (bare_place n m c d (remove id) hub refl (rw (clients_at, gone) refl))
    | inr (site, found) ↦ elim (Option-cases (lookup c site.collections)) [
      | inl gone ↦
          rw (leave, found, gone)
            (bare_place n m c d (remove id) hub refl
              (clients_at-lookup n c site hub found ∙ rw (clients_in, gone) refl))
      | inr (clients, there) ↦
          (let here : clients_at n c hub ≡ clients =
              clients_at-lookup n c site hub found ∙ clients_in-lookup c site clients there in
            elim (Option-cases (lookup id clients)) [
              | inl gone ↦
                  rw (leave, found, there, gone)
                    (fixed_place n m c d (remove id) hub
                      (rw (here) (remove-absent id clients gone)))
              | inr (client, present) ↦
                  rw (leave, found, there, present, here)
                    (left-clients_at n m c d id clients site hub found)
            ])
    ]
  ]
