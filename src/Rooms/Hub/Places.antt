-- ===== src/Rooms/Hub/Places.antt =====
-- The counters of connections of the sites in crates/chudbot-web/src/vibe_rooms.rs, as a join leaves them.
use chudbot.Common.{
  ℕ, ◌+◌, ◌≤◌, true, ◌≡◌, refl, sym, ap, ◌∙◌, inl, inr, Option, none, some, List, if◌then◌else◌,
  ltb, ◌==◌, Text, text_key, nat_key, lookup, insert, lookup-insert, Bool-cases, Option-cases,
  eq_of_some, arith,
}
use chudbot.Rooms.{RoomLimits, RoomUser, RoomState, Reply, ok, err, join_room}
use chudbot.Rooms.Hub.{
  SiteRooms, RoomHub, reserve_capacity, release_capacity, reserve_site, enter_room, join_site,
}
use chudbot.Rooms.Hub.Joining.{Reply-cases}

pub release_capacity-suc : (n : ℕ) → release_capacity (n + 1) ≡ n
unfolding release_capacity
release_capacity-suc n = ground arith

reserved :
    (counter maximum n : ℕ)
    → reserve_capacity counter maximum ≡ some n
    → (n ≡ counter + 1) × n ≤ maximum
unfolding reserve_capacity
reserved counter maximum n h = elim (Bool-cases (ltb counter maximum)) [
  | inl room ↦
      (let same : counter + 1 ≡ n = eq_of_some (rw (room) at h) in
        (sym same, ground (arith, room, same)))
  | inr full ↦ cc (rw (full) at h)
]

module _ {V : Type 0} where
  -- A counter after a join: one more when it succeeds, the same when it is refused.
  abbrev pub counted : ℕ → Reply (List (RoomUser V)) → ℕ
  counted n (ok _) = n + 1
  counted n (err _) = n

  abbrev pub connections_in : Option (SiteRooms V) → ℕ
  connections_in none = 0
  connections_in (some s) = s.connections

  -- A site's connections; a site that is not there has none.
  abbrev pub connections_at : ℕ → RoomHub V → ℕ
  connections_at site hub = connections_in (lookup site hub.sites)

  pub insert-connections_at :
      (site m : ℕ) (s : SiteRooms V) (sites : List (ℕ × SiteRooms V))
      → connections_in (lookup m (insert site s sites))
        ≡ (if site == m then s.connections else connections_in (lookup m sites))
  insert-connections_at site m s sites =
      rw (lookup-insert site m s sites)
        (elim (Bool-cases (site == m)) [ inl e ↦ rw (e) refl | inr e ↦ rw (e) refl ])

  module _ (limits : RoomLimits) where
    pub reserve_site-connections :
        (found : Option (SiteRooms V)) (s : SiteRooms V)
        → 1 ≤ limits.max_connections_per_site
        → reserve_site limits found ≡ some s
        → (s.connections ≡ connections_in found + 1)
          × s.connections ≤ limits.max_connections_per_site
    unfolding reserve_site reserve_capacity
    reserve_site-connections none s positive h =
        let room : ltb 0 limits.max_connections_per_site ≡ true = ground (arith, positive) in
        let same : 1 ≡ s.connections =
          ap (λ (r : SiteRooms V). r.connections)
            (eq_of_some (rw (reserve_site, reserve_capacity, room) at h)) in
        (sym same, rw (sym same) positive)
    reserve_site-connections (some old) s positive h =
        elim (Option-cases (reserve_capacity old.connections limits.max_connections_per_site)) [
          | inl full ↦ cc (rw (reserve_site, full) at h)
          | inr (n, counter) ↦
              (let same : n ≡ s.connections =
                  ap (λ (r : SiteRooms V). r.connections)
                    (eq_of_some (rw (reserve_site, counter) at h)) in
                let (more, fits) =
                  reserved old.connections limits.max_connections_per_site n counter in
                (sym same ∙ more, rw (sym same) fits))
        ]

    enter_room-connections :
        (name : Text) (s t : SiteRooms V) (room : RoomState V)
        → enter_room limits name s ≡ some (t, room)
        → t.connections ≡ s.connections
    unfolding enter_room reserve_capacity
    enter_room-connections name s t room h = elim (Option-cases (lookup name s.rooms)) [
      | inr (old, found) ↦ sym (
          ap (λ (r : SiteRooms V × RoomState V). r.0.connections)
            (eq_of_some (rw (enter_room, found) at h)))
      | inl new ↦ elim (Option-cases (reserve_capacity s.room_count limits.max_rooms_per_site)) [
        | inl full ↦ cc (rw (enter_room, new, full) at h)
        | inr (n, counter) ↦ sym (
            ap (λ (r : SiteRooms V × RoomState V). r.0.connections)
              (eq_of_some (rw (enter_room, new, counter) at h)))
      ]
    ]

    pub join_site-connections_at :
        (site m : ℕ) (s : SiteRooms V) (name : Text) (id : ℕ) (user : RoomUser V) (hub : RoomHub V)
        (n : ℕ)
        → s.connections ≡ n + 1
        → connections_at m (join_site limits site s name id user hub).0 ≡ (
            if site == m
            then counted n (join_site limits site s name id user hub).1
            else connections_at m hub)
    unfolding join_site
    join_site-connections_at site m s name id user hub n e =
        elim (Option-cases (enter_room limits name s)) [
          | inl full ↦
              rw
                (
                  full,
                  join_site,
                  insert-connections_at site m _ hub.sites,
                  e,
                  release_capacity-suc n,
                )
                refl
          | inr ((t, room), entered) ↦
              (let same = enter_room-connections name s t room entered in
                elim (Reply-cases (join_room limits id user room)) [
                  | inl (error, failed) ↦
                      rw
                        (
                          entered,
                          failed,
                          join_site,
                          insert-connections_at site m _ hub.sites,
                          same,
                          e,
                          release_capacity-suc n,
                        )
                        refl
                  | inr ((next, welcome), joined) ↦
                      rw
                        (
                          entered,
                          joined,
                          join_site,
                          insert-connections_at site m _ hub.sites,
                          same,
                          e,
                        )
                        refl
                ])
        ]
