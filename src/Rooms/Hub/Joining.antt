-- ===== src/Rooms/Hub/Joining.antt =====
-- Joining through the hub of crates/chudbot-web/src/vibe_rooms.rs.
use chudbot.Common.{
  ℕ, ◌≡◌, refl, inl, inr, ◌⊎◌, Option, none, some, [], Text, text_key, nat_key, lookup, insert,
  Option-cases, eq_of_some,
}
use chudbot.Rooms.{RoomLimits, RoomUser, RoomState, RoomError, Reply, ok, err, join_room}
use chudbot.Rooms.Hub.{
  SiteRooms, RoomHub, reserve_capacity, no_room, reserve_site, enter_room, put, give_back,
  join_site, join,
}
use chudbot.Rooms.Consistency.{IsConsistent}
use chudbot.Rooms.Joins.{join_room-IsConsistent}
use chudbot.Rooms.Hub.Laws.{
  IsConsistentSite, IsConsistentHub, no_room-IsConsistent, insert-IsConsistent,
  insert-IsConsistentSite,
}

pub Reply-cases :
    {A : Type 0} (r : Reply A) → ((e : RoomError) × (r ≡ err e)) ⊎ ((a : A) × (r ≡ ok a))
Reply-cases (err e) = inl (e, refl)
Reply-cases (ok a) = inr (a, refl)

module _ {V : Type 0} where
  -- No room of the site has the connection.
  abbrev pub IsFreshSite : ℕ → SiteRooms V → Type 0
  IsFreshSite id s =
      (name : Text) (room : RoomState V)
      → lookup name s.rooms ≡ some room
      → lookup id room.clients ≡ none

  -- No room has the connection: the source draws a random id for each.
  abbrev pub IsFresh : ℕ → RoomHub V → Type 0
  IsFresh id hub = (site : ℕ) (s : SiteRooms V) → lookup site hub.sites ≡ some s → IsFreshSite id s

  module _ (limits : RoomLimits) where
    -- The room that is entered, where its site is consistent and does not know the connection.
    enter_room-IsConsistentSite :
        (id : ℕ) (name : Text) (s t : SiteRooms V) (room : RoomState V)
        → IsConsistentSite s
        → IsFreshSite id s
        → enter_room limits name s ≡ some (t, room)
        → IsConsistent room × (lookup id room.clients ≡ none) × IsConsistentSite t
    unfolding enter_room lookup
    enter_room-IsConsistentSite id name s t room c f h = elim (Option-cases (lookup name s.rooms)) [
      | inr (old, found) ↦
          (let e = rw (found, enter_room) at h in
            let same_site : s ≡ t = cc in
            let same_room : old ≡ room = cc in
            rw (← same_room, ← same_site) (c name old found, f name old found, c))
      | inl new ↦ elim (Option-cases (reserve_capacity s.room_count limits.max_rooms_per_site)) [
        | inl full ↦ cc (rw (new, full, enter_room) at h)
        | inr (n, counted) ↦
            (let e = rw (new, counted, enter_room) at h in
              let made : SiteRooms V = record s {
                rooms = insert name no_room s.rooms;
                room_count = n;
              } in
              let same_site : made ≡ t = cc in
              let same_room : no_room ≡ room = cc in
              rw (← same_room, ← same_site)
                (
                  no_room-IsConsistent,
                  refl,
                  insert-IsConsistent name no_room s.rooms no_room-IsConsistent c,
                ))
      ]
    ]

    put-IsConsistentHub :
        (site : ℕ) (s : SiteRooms V) (hub : RoomHub V)
        → IsConsistentSite s
        → IsConsistentHub hub
        → IsConsistentHub (put limits site s hub)
    put-IsConsistentHub site s hub c h = insert-IsConsistentSite site s hub.sites c h

    give_back-IsConsistentHub :
        (site : ℕ) (s : SiteRooms V) (hub : RoomHub V)
        → IsConsistentSite s
        → IsConsistentHub hub
        → IsConsistentHub (give_back limits site s hub)
    give_back-IsConsistentHub site s hub c h = insert-IsConsistentSite site _ hub.sites c h

    join_site-IsConsistentHub :
        (site : ℕ) (s : SiteRooms V) (name : Text) (id : ℕ) (user : RoomUser V) (hub : RoomHub V)
        → IsConsistentSite s
        → IsFreshSite id s
        → IsConsistentHub hub
        → IsConsistentHub (join_site limits site s name id user hub).0
    unfolding join_site
    join_site-IsConsistentHub site s name id user hub c f h =
        elim (Option-cases (enter_room limits name s)) [
          | inl no_room_left ↦
              rw (no_room_left, join_site) (give_back-IsConsistentHub site s hub c h)
          | inr ((t, room), entered) ↦
              (let (cr, fr, ct) = enter_room-IsConsistentSite id name s t room c f entered in
                elim (Reply-cases (join_room limits id user room)) [
                  | inl (e, failed) ↦
                      rw (entered, failed, join_site) (give_back-IsConsistentHub site t hub ct h)
                  | inr ((next, welcome), joined) ↦
                      rw (entered, joined, join_site)
                        (put-IsConsistentHub site _ hub
                          (insert-IsConsistent name next t.rooms
                            (join_room-IsConsistent limits id user room next welcome fr cr joined).0
                            ct)
                          h)
                ])
        ]

    reserve_site-IsConsistentSite :
        (id : ℕ) (known : Option (SiteRooms V)) (s : SiteRooms V)
        → ((t : SiteRooms V) → known ≡ some t → IsConsistentSite t × IsFreshSite id t)
        → reserve_site limits known ≡ some s
        → IsConsistentSite s × IsFreshSite id s
    unfolding reserve_site lookup
    reserve_site-IsConsistentSite id none s h r =
        let made : SiteRooms V = record {
          rooms = [];
          room_count = 0;
          connections = elim (reserve_capacity 0 limits.max_connections_per_site) [
            | none ↦ 0
            | some n ↦ n
          ];
        } in
        let e : made ≡ s = eq_of_some r in rw (← e) ((λ n room f. cc), (λ n room f. cc))
    reserve_site-IsConsistentSite id (some t) s h r =
        elim (Option-cases (reserve_capacity t.connections limits.max_connections_per_site)) [
          | inl full ↦ cc (rw (full, reserve_site) at r)
          | inr (n, reserved) ↦
              (let e : record t { connections = n } ≡ s =
                  eq_of_some (rw (reserved, reserve_site) at r) in
                rw (← e) (h t refl))
        ]

    -- A join with a new connection id keeps every room of the hub consistent, whether it succeeds or
    -- is refused for any of the limits.
    pub join-IsConsistentHub :
        (site : ℕ) (name : Text) (id : ℕ) (user : RoomUser V) (hub : RoomHub V)
        → IsFresh id hub
        → IsConsistentHub hub
        → IsConsistentHub (join limits site name id user hub).0
    unfolding join
    join-IsConsistentHub site name id user hub f h =
        elim (Option-cases (reserve_capacity hub.connections limits.max_connections)) [
          | inl busy ↦ rw (busy, join) h
          | inr (total, reserved) ↦
              elim (Option-cases (reserve_site limits (lookup site hub.sites))) [
                | inl full ↦ rw (reserved, full, join) h
                | inr (s, known) ↦
                    (let (c, fs) =
                        reserve_site-IsConsistentSite id (lookup site hub.sites) s
                          (λ t k. (h site t k, f site t k)) known in
                      rw (reserved, known, join)
                        (join_site-IsConsistentHub site s name id user _ c fs
                          (insert-IsConsistentSite site s hub.sites c h)))
              ]
        ]
