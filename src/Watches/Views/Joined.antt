-- ===== src/Watches/Views/Joined.antt =====
-- The clients after `join` of crates/chudbot-web/src/vibe_collections.rs.
use chudbot.Common.{
  ℕ, ◌&&◌, ◌≡◌, refl, sym, ap, ◌∙◌, inl, inr, Option, none, some, List, [], if◌then◌else◌, ◌==◌,
  Text, text_eq, text_key, nat_key, lookup, insert, Option-cases, eq_of_some, ok, err,
}
use chudbot.Watches.Hub.{
  SiteWatches, WatchLimits, WatchHub, clients_in, reserve_capacity, reserve_site, join_site, join,
}
use chudbot.Watches.Views.{clients_at, fresh_watch, clients_in-insert, placed-clients_at}

module _ {V : Type 0} (limits : WatchLimits) where
  reserve_site-collections :
      (found : Option (SiteWatches V)) (site : SiteWatches V)
      → reserve_site limits found ≡ some site
      → site.collections ≡ (elim found [ none ↦ [] | some old ↦ old.collections ])
  unfolding reserve_site reserve_capacity
  reserve_site-collections none site reserved = sym (ap (λ s. s.collections) (eq_of_some reserved))
  reserve_site-collections (some old) site reserved =
      elim (Option-cases (reserve_capacity old.connections limits.max_connections_per_site)) [
        | inl full ↦ cc (rw (reserve_site, full) at reserved)
        | inr (n, counted) ↦
            sym (ap (λ s. s.collections) (eq_of_some (rw (reserve_site, counted) at reserved)))
      ]

  reserve_site-clients_in :
      (n : ℕ) (d : Text) (site : SiteWatches V) (hub : WatchHub V)
      → reserve_site limits (lookup n hub.sites) ≡ some site
      → clients_in d site ≡ clients_at n d hub
  unfolding lookup
  reserve_site-clients_in n d site hub reserved =
      let same = reserve_site-collections (lookup n hub.sites) site reserved in
      elim (Option-cases (lookup n hub.sites)) [
        | inl gone ↦ rw (clients_in, clients_at, same, gone) refl
        | inr (old, found) ↦ rw (clients_in, clients_at, same, found) refl
      ]

  pub join-clients_at :
      (n m : ℕ) (c d : Text) (id : ℕ) (filters : List (Text × V)) (hub : WatchHub V)
      → clients_at m d (join limits n c id filters hub).0
        ≡ (elim ((join limits n c id filters hub).1) [
          | err _ ↦ clients_at m d hub
          | ok _ ↦
              if n == m && text_eq c d
              then insert id (fresh_watch filters) (clients_at n c hub)
              else clients_at m d hub
        ])
  unfolding join join_site
  join-clients_at n m c d id filters hub =
      elim (Option-cases (reserve_capacity hub.connections limits.max_connections)) [
        | inl full ↦ rw (join, full) refl
        | inr (total, counted) ↦ elim (Option-cases (reserve_site limits (lookup n hub.sites))) [
          | inl full ↦ rw (join, counted, full) refl
          | inr (site, reserved) ↦
              (let same : (e : Text) → clients_in e site ≡ clients_at n e hub =
                  λ e. reserve_site-clients_in n e site hub reserved in
                rw (join, counted, reserved)
                  (placed-clients_at n m c d (join_site c id filters site)
                    (insert id (fresh_watch filters) (clients_at n c hub)) hub total
                    (λ e.
                      clients_in-insert c e (insert id (fresh_watch filters) (clients_in c site))
                        site
                      ∙ rw (same c, same e) refl)))
        ]
      ]
