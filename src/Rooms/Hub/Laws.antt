-- ===== src/Rooms/Hub/Laws.antt =====
-- Every room of the hub of crates/chudbot-web/src/vibe_rooms.rs stays consistent, and the number of
-- connections stays within its limit.
use chudbot.Common.{
  ℕ, ◌&&◌, ◌≡◌, refl, inl, inr, some, List, ◌==◌, is_empty, Text, text_eq, text_key, nat_key,
  lookup, insert, lookup-insert, lookup-remove, Bool-cases, Option-cases, arith,
}
use chudbot.Rooms.{RoomLimits, RoomState, leave_room}
use chudbot.Rooms.Hub.{
  SiteRooms, RoomHub, no_room, remove_empty_room, remove_empty_site, left_site, leave,
}
use chudbot.Rooms.Consistency.{IsConsistent}
use chudbot.Rooms.Joins.{leave_room-IsConsistent}

module _ {V : Type 0} where
  abbrev pub IsConsistentSite : SiteRooms V → Type 0
  IsConsistentSite s =
      (name : Text) (room : RoomState V) → lookup name s.rooms ≡ some room → IsConsistent room

  -- Every room of every site is consistent.
  abbrev pub IsConsistentHub : RoomHub V → Type 0
  IsConsistentHub hub =
      (site : ℕ) (s : SiteRooms V) → lookup site hub.sites ≡ some s → IsConsistentSite s

  pub no_room-IsConsistent : IsConsistent (no_room {V = V})
  unfolding lookup
  no_room-IsConsistent = record { linked = λ u k. refl; occupied = λ u e h. cc }

  pub insert-IsConsistent :
      (name : Text) (room : RoomState V) (rooms : List (Text × RoomState V))
      → IsConsistent room
      → ((n : Text) (r : RoomState V) → lookup n rooms ≡ some r → IsConsistent r)
      → (n : Text) (r : RoomState V) → lookup n (insert name room rooms) ≡ some r
      → IsConsistent r
  insert-IsConsistent name room rooms c h n r found = elim (Bool-cases (text_eq name n)) [
    | inl same ↦ (let e : room ≡ r = ground (arith, lookup-insert name n room rooms) in rw (← e) c)
    | inr other ↦ h n r (ground (arith, lookup-insert name n room rooms))
  ]

  pub insert-IsConsistentSite :
      (site : ℕ) (s : SiteRooms V) (sites : List (ℕ × SiteRooms V))
      → IsConsistentSite s
      → ((i : ℕ) (t : SiteRooms V) → lookup i sites ≡ some t → IsConsistentSite t)
      → (i : ℕ) (t : SiteRooms V) → lookup i (insert site s sites) ≡ some t
      → IsConsistentSite t
  insert-IsConsistentSite site s sites c h i t found = elim (Bool-cases (site == i)) [
    | inl same ↦ (let e : s ≡ t = ground (arith, lookup-insert site i s sites) in rw (← e) c)
    | inr other ↦ h i t (ground (arith, lookup-insert site i s sites))
  ]

  module _ (limits : RoomLimits) where
    left_site-IsConsistentSite :
        (name : Text) (next : RoomState V) (s : SiteRooms V)
        → IsConsistent next
        → IsConsistentSite s
        → IsConsistentSite (left_site limits name next s)
    unfolding left_site remove_empty_room
    left_site-IsConsistentSite name next s c h n r found =
        elim (Bool-cases (is_empty next.clients)) [
          | inl last ↦ insert-IsConsistent name next s.rooms c h n r (
              let f = rw (last, left_site) at found in
              ground (arith, lookup-remove name n (insert name next s.rooms)))
          | inr more ↦ insert-IsConsistent name next s.rooms c h n r (rw (more, left_site) at found)
        ]

    -- Leaving keeps every room of the hub consistent.
    pub leave-IsConsistentHub :
        (site : ℕ) (name : Text) (id : ℕ) (hub : RoomHub V)
        → IsConsistentHub hub
        → IsConsistentHub (leave limits site name id hub)
    unfolding leave remove_empty_site
    leave-IsConsistentHub site name id hub h = elim (Option-cases (lookup site hub.sites)) [
      | inl no_site ↦ rw (no_site, leave) h
      | inr (s, known) ↦ elim (Option-cases (lookup name s.rooms)) [
        | inl nothing ↦ rw (known, nothing, leave) h
        | inr (room, found) ↦ elim (Option-cases (leave_room limits id room)) [
          | inl no_client ↦ rw (known, found, no_client, leave) h
          | inr (next, left) ↦
              (let t = left_site limits name next s in
                let c =
                  leave_room-IsConsistent limits id room next (h site s known name room found)
                    left in
                let all =
                  insert-IsConsistentSite site t hub.sites
                    (left_site-IsConsistentSite name next s c (h site s known)) h in
                elim (Bool-cases (t.connections == 0 && t.room_count == 0)) [
                  | inl last ↦
                      rw (known, found, left, last, leave)
                        (λ i u f.
                          all i u (ground (arith, lookup-remove site i (insert site t hub.sites))))
                  | inr more ↦ rw (known, found, left, more, leave) all
                ])
        ]
      ]
    ]
