-- ===== src/Rooms/Threads/Alone.antt =====
-- The loop of `RoomHub::join` in crates/chudbot-web/src/vibe_rooms.rs, when no other connection moves:
-- a room that was closed meanwhile is met at most once.
use chudbot.Common.{
  ℕ, zero, suc, false, ◌≡◌, refl, leb, length, Text, text_key, lookup, ◌⊎◌, inl, inr, Bool-cases,
  Option-cases,
}
use chudbot.Rooms.{RoomLimits}
use chudbot.Rooms.Hub.{reserve_capacity}
use chudbot.Rooms.Threads.{Site, Pc, System, Reach, make_room, give_back, join_step, new_room}
use chudbot.Rooms.Threads.Kept.{IsSiteOk, update_same}
use chudbot.Rooms.Threads.Safety.{Reach-Inv}

-- So many steps of one connection's join.
unfoldable pub alone : RoomLimits → ℕ → ℕ → Site × Pc → Site × Pc
unfolding join_step
alone limits i zero moved = moved
alone limits i (suc n) moved = alone limits i n (join_step limits i moved.0 moved.1)

-- The join has returned: refused, or as a client of a room of the name.
unfoldable pub IsSettled : Text → Pc → Type 0
IsSettled name pc = (pc ≡ Pc.outside) ⊎ ((r : ℕ) × (pc ≡ Pc.joined name r))

module _ (limits : RoomLimits) (i : ℕ) (name : Text) where
  join_step-IsSettled :
      (site : Site) (pc : Pc) → IsSettled name pc → IsSettled name (join_step limits i site pc).1
  unfolding IsSettled join_step
  join_step-IsSettled site pc (inl e) = rw (e) (inl refl)
  join_step-IsSettled site pc (inr (r, e)) = rw (e) (inr (r, refl))

  open_settles :
      (site : Site) (r : ℕ)
      → (site.heap r).closed ≡ false
      → IsSettled name (join_step limits i site (Pc.has name r)).1
  unfolding IsSettled join_step
  open_settles site r opened =
      elim (Bool-cases (leb limits.max_connections_per_room (length (site.heap r).clients))) [
        | inl full ↦ rw (opened, full) (inl refl)
        | inr room_left ↦ rw (opened, room_left) (inr (r, refl))
      ]

  then_settles :
      (moved target : Site × Pc)
      → moved ≡ target
      → IsSettled name (join_step limits i target.0 target.1).1
      → IsSettled name (join_step limits i moved.0 moved.1).1
  then_settles moved target e h = rw (e) h

  reserved_settles :
      (site : Site) → IsSiteOk site → IsSettled name (alone limits i 2 (site, Pc.reserved name)).1
  unfolding IsSettled join_step alone make_room
  reserved_settles site ok = elim (Option-cases (lookup name site.rooms)) [
    | inr (r, e) ↦
        then_settles (join_step limits i site (Pc.reserved name)) (site, Pc.has name r)
          (rw (join_step, e) refl) (open_settles site r (ok.opened name r e))
    | inl e ↦ elim (Option-cases (reserve_capacity site.room_count limits.max_rooms_per_site)) [
      | inl full ↦
          then_settles (join_step limits i site (Pc.reserved name)) (give_back site, Pc.outside)
            (rw (join_step, e, full) refl) (inl refl)
      | inr (n, room_left) ↦
          then_settles (join_step limits i site (Pc.reserved name))
            (make_room name n site, Pc.has name site.next) (rw (join_step, e, room_left) refl)
            (open_settles (make_room name n site) site.next
              (rw (update_same site.heap site.next new_room) refl))
    ]
  ]

  settles_after :
      (moved target : Site × Pc)
      → moved ≡ target
      → IsSettled name (alone limits i 2 target).1
      → IsSettled name (alone limits i 2 moved).1
  settles_after moved target e h = rw (e) h

  has_settles :
      (site : Site) (r : ℕ)
      → IsSiteOk site
      → IsSettled name (alone limits i 3 (site, Pc.has name r)).1
  unfolding alone join_step
  has_settles site r ok = elim (Bool-cases (site.heap r).closed) [
    | inl closed ↦
        settles_after (join_step limits i site (Pc.has name r)) (site, Pc.reserved name)
          (rw (join_step, closed) refl) (reserved_settles site ok)
    | inr opened ↦ join_step-IsSettled _ _ (join_step-IsSettled _ _ (open_settles site r opened))
  ]

  -- From any state that joins and leaves can reach, a join under way, with its place reserved or
  -- with a room in hand that may have been closed, returns within three of its own steps when no
  -- other connection moves: as a client of a room of the name, or refused.
  pub alone-IsSettled :
      {s : System}
      → Reach limits s
      → (s.pc i ≡ Pc.reserved name) ⊎ ((r : ℕ) × (s.pc i ≡ Pc.has name r))
      → IsSettled name (alone limits i 3 (s.site, s.pc i)).1
  unfolding alone
  alone-IsSettled {s} reach (inl e) =
      rw (e) (join_step-IsSettled _ _ (reserved_settles s.site (Reach-Inv limits reach).site_ok))
  alone-IsSettled {s} reach (inr (r, e)) =
      rw (e) (has_settles s.site r (Reach-Inv limits reach).site_ok)
