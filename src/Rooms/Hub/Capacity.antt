-- ===== src/Rooms/Hub/Capacity.antt =====
-- The counter of all connections of the hub of crates/chudbot-web/src/vibe_rooms.rs.
use chudbot.Common.{
  ℕ, ◌+◌, ◌≤◌, ◌==◌, if◌then◌else◌, true, ◌∙◌, nat_same_iff, same_refl, ◌≡◌, refl, inl, inr, none,
  some, List, ltb, Text, text_key, nat_key, lookup, Bool-cases, Option-cases, arith,
}
use chudbot.Rooms.{RoomLimits, RoomUser, Reply, ok, err, join_room}
use chudbot.Rooms.Hub.{
  SiteRooms, RoomHub, reserve_capacity, reserve_site, enter_room, put, join_site, join,
}
use chudbot.Rooms.Hub.Joining.{Reply-cases}
use chudbot.Rooms.Hub.Places.{
  counted, connections_at, insert-connections_at, reserve_site-connections,
  join_site-connections_at, release_capacity-suc,
}

module _ {V : Type 0} where
  unchanged :
      (site m : ℕ) (hub : RoomHub V)
      → connections_at m hub ≡ (if site == m then connections_at site hub else connections_at m hub)
  unchanged site m hub = elim (Bool-cases (site == m)) [
    | inl e ↦ rw (e, (nat_same_iff site m).0 e) refl
    | inr e ↦ rw (e) refl
  ]

  counted_le : (n : ℕ) (r : Reply (List (RoomUser V))) → counted n r ≤ n + 1
  counted_le n (ok _) = omega arith
  counted_le n (err _) = omega arith

  module _ (limits : RoomLimits) where
    connections-join_site :
        (site : ℕ) (s : SiteRooms V) (name : Text) (id : ℕ) (user : RoomUser V) (hub : RoomHub V)
        (n : ℕ)
        → hub.connections ≡ n + 1
        → (join_site limits site s name id user hub).0.connections
          ≡ counted n (join_site limits site s name id user hub).1
    unfolding join_site
    connections-join_site site s name id user hub n e =
        elim (Option-cases (enter_room limits name s)) [
          | inl full ↦ rw (full, join_site) (rw e (release_capacity-suc n))
          | inr ((t, room), entered) ↦ elim (Reply-cases (join_room limits id user room)) [
            | inl (error, failed) ↦ rw (entered, failed, join_site) (rw e (release_capacity-suc n))
            | inr ((next, welcome), joined) ↦ rw (entered, joined, join_site) e
          ]
        ]

    hub_connections-join :
        (site : ℕ) (name : Text) (id : ℕ) (user : RoomUser V) (hub : RoomHub V)
        → hub.connections ≤ limits.max_connections
        → ((join limits site name id user hub).0.connections
            ≡ counted hub.connections (join limits site name id user hub).1)
          × ((join limits site name id user hub).0.connections ≤ limits.max_connections)
    unfolding join
    hub_connections-join site name id user hub h =
        elim (Bool-cases (ltb hub.connections limits.max_connections)) [
          | inl room ↦
              (let reserved : reserve_capacity hub.connections limits.max_connections
                    ≡ some (hub.connections + 1) =
                  (unfold reserve_capacity in rw room refl) in
                elim (Option-cases (reserve_site limits (lookup site hub.sites))) [
                  | inl full ↦
                      rw (reserved, full, join)
                        (rw (release_capacity-suc hub.connections) (refl, h))
                  | inr (s, known) ↦
                      rw (reserved, known, join)
                        (let e =
                            connections-join_site site s name id user
                              (put limits site s (record hub { connections = hub.connections + 1 }))
                              hub.connections refl in
                          (e, fits _ _ _ e room))
                ])
          | inr busy ↦
              (let none_left : reserve_capacity hub.connections limits.max_connections ≡ none =
                  (unfold reserve_capacity in rw busy refl) in
                rw (none_left, join) (refl, h))
        ]
      where
        fits :
            (m n : ℕ) (r : Reply (List (RoomUser V)))
            → m ≡ counted n r
            → ltb n limits.max_connections ≡ true
            → m ≤ limits.max_connections
        fits m n (ok _) e room = ground arith
        fits m n (err _) e room = ground arith

    sites_connections-join :
        (site m : ℕ) (name : Text) (id : ℕ) (user : RoomUser V) (hub : RoomHub V)
        → 1 ≤ limits.max_connections_per_site
        → connections_at m (join limits site name id user hub).0 ≡ (
            if site == m
            then counted (connections_at site hub) (join limits site name id user hub).1
            else connections_at m hub)
    unfolding join
    sites_connections-join site m name id user hub positive =
        elim (Option-cases (reserve_capacity hub.connections limits.max_connections)) [
          | inl full ↦ rw (join, full) (unchanged site m hub)
          | inr (total, reserved) ↦
              elim (Option-cases (reserve_site limits (lookup site hub.sites))) [
                | inl full ↦ rw (join, reserved, full) (unchanged site m hub)
                | inr (s, known) ↦
                    (let (more, _) =
                        reserve_site-connections limits (lookup site hub.sites) s positive known in
                      let after = put limits site s (record hub { connections = total }) in
                      rw (join, reserved, known)
                        (join_site-connections_at limits site m s name id user after
                            (connections_at site hub) more
                          ∙ elim (Bool-cases (site == m)) [
                            | inl e ↦ rw (e) refl
                            | inr e ↦
                                rw (e) (insert-connections_at site m s hub.sites ∙ rw (e) refl)
                          ]))
              ]
        ]

    site_bound :
        (site : ℕ) (name : Text) (id : ℕ) (user : RoomUser V) (hub : RoomHub V)
        → connections_at site hub ≤ limits.max_connections_per_site
        → 1 ≤ limits.max_connections_per_site
        → connections_at site (join limits site name id user hub).0
          ≤ limits.max_connections_per_site
    unfolding join
    site_bound site name id user hub fits positive =
        elim (Option-cases (reserve_capacity hub.connections limits.max_connections)) [
          | inl full ↦ rw (join, full) fits
          | inr (total, reserved) ↦
              elim (Option-cases (reserve_site limits (lookup site hub.sites))) [
                | inl full ↦ rw (join, reserved, full) fits
                | inr (s, known) ↦
                    (let (more, room) =
                        reserve_site-connections limits (lookup site hub.sites) s positive known in
                      let after : connections_at site (join limits site name id user hub).0
                          ≡ counted (connections_at site hub)
                              (join limits site name id user hub).1 =
                        sites_connections-join site site name id user hub positive
                        ∙ rw (same_refl site) refl in
                      let few =
                        counted_le (connections_at site hub)
                          (join limits site name id user hub).1 in
                      omega (arith, after, few, more, room))
              ]
        ]

    -- Where the hub and a site are within their limits, and a site's limit is at least one, a
    -- join adds one to the connections of the hub and of the site exactly when it succeeds;
    -- when it is refused for any limit, both get back what it had reserved; no other site's
    -- connections change; and neither the hub nor the site has more than its limit.
    pub connections-join :
        (site m : ℕ) (name : Text) (id : ℕ) (user : RoomUser V) (hub : RoomHub V)
        → hub.connections ≤ limits.max_connections
        → connections_at site hub ≤ limits.max_connections_per_site
        → 1 ≤ limits.max_connections_per_site
        → ((join limits site name id user hub).0.connections
            ≡ counted hub.connections (join limits site name id user hub).1)
          × (connections_at m (join limits site name id user hub).0 ≡ (
              if site == m
              then counted (connections_at site hub) (join limits site name id user hub).1
              else connections_at m hub))
          × ((join limits site name id user hub).0.connections ≤ limits.max_connections)
          × (connections_at site (join limits site name id user hub).0
              ≤ limits.max_connections_per_site)
    connections-join site m name id user hub hub_fits site_fits positive =
        let (hub_count, hub_bound) = hub_connections-join site name id user hub hub_fits in
        (
          hub_count,
          sites_connections-join site m name id user hub positive,
          hub_bound,
          site_bound site name id user hub site_fits positive,
        )
