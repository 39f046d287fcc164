-- ===== src/Rooms/Hub/Commanding.antt =====
-- Commands through the hub of crates/chudbot-web/src/vibe_rooms.rs keep every room consistent.
use chudbot.Common.{ℕ, ◌≡◌, inl, inr, Text, text_key, nat_key, lookup, Option-cases}
use chudbot.Rooms.{RoomLimits, RoomState, Reply, ok, broadcast_room, invalid_state_key, event}
use chudbot.Rooms.Commands.{validate_token, validate_event_label}
use chudbot.Rooms.Hub.{RoomHub, in_room, broadcast, set_state}
use chudbot.Rooms.Consistency.{IsConsistent, send_room-IsConsistent}
use chudbot.Rooms.States.{set_state_room-IsConsistent, ok_inj}
use chudbot.Rooms.Hub.Laws.{IsConsistentHub, insert-IsConsistent, insert-IsConsistentSite}
use chudbot.Rooms.Hub.Joining.{Reply-cases}

module _ {V : Type 0} (limits : RoomLimits) where
  in_room-IsConsistentHub :
      (site : ℕ) (name : Text) (f : RoomState V → Reply (RoomState V)) (hub : RoomHub V)
      → ((room next : RoomState V) → IsConsistent room → f room ≡ ok next → IsConsistent next)
      → IsConsistentHub hub
      → IsConsistentHub (in_room limits site name f hub).0
  unfolding in_room
  in_room-IsConsistentHub site name f hub keeps h = elim (Option-cases (lookup site hub.sites)) [
    | inl no_site ↦ rw (no_site, in_room) h
    | inr (s, known) ↦ elim (Option-cases (lookup name s.rooms)) [
      | inl nothing ↦ rw (known, nothing, in_room) h
      | inr (room, found) ↦ elim (Reply-cases (f room)) [
        | inl (e, refused) ↦ rw (known, found, refused, in_room) h
        | inr (next, done) ↦
            rw (known, found, done, in_room)
              (insert-IsConsistentSite site _ hub.sites
                (insert-IsConsistent name next s.rooms
                  (keeps room next (h site s known name room found) done) (h site s known))
                h)
      ]
    ]
  ]

  broadcast_room-IsConsistent :
      (id : ℕ) (label : Text) (value : V) (room next : RoomState V)
      → IsConsistent room
      → broadcast_room limits id label value room ≡ ok next
      → IsConsistent next
  unfolding broadcast_room
  broadcast_room-IsConsistent id label value room next c h =
      elim (Option-cases (lookup id room.clients)) [
        | inl nobody ↦ cc (rw (nobody, broadcast_room) at h)
        | inr (client, found) ↦ elim (Option-cases (lookup client.user_id room.users)) [
          | inl no_user ↦ cc (rw (found, no_user, broadcast_room) at h)
          | inr (entry, known) ↦
              (let e = ok_inj _ next (rw (found, known, broadcast_room) at h) in
                rw (← e) (send_room-IsConsistent limits (event label value entry.user) room c))
        ]
      ]

  -- A broadcast through the hub, accepted or refused, keeps every room consistent.
  pub broadcast-IsConsistentHub :
      (site : ℕ) (name : Text) (id : ℕ) (label : Text) (value : V) (hub : RoomHub V)
      → IsConsistentHub hub
      → IsConsistentHub (broadcast limits site name id label value hub).0
  unfolding broadcast
  broadcast-IsConsistentHub site name id label value hub h =
      elim (Reply-cases (validate_event_label label)) [
        | inl (e, refused) ↦ rw (refused, broadcast) h
        | inr (u, accepted) ↦
            rw (accepted, broadcast)
              (in_room-IsConsistentHub site name _ hub (broadcast_room-IsConsistent id label value)
                h)
      ]

  -- A change of state through the hub, accepted or refused, keeps every room consistent.
  pub set_state-IsConsistentHub :
      (size : V → ℕ) (site : ℕ) (name : Text) (id : ℕ) (key : Text) (value : V) (hub : RoomHub V)
      → IsConsistentHub hub
      → IsConsistentHub (set_state limits size site name id key value hub).0
  unfolding set_state
  set_state-IsConsistentHub size site name id key value hub h =
      elim (Reply-cases (validate_token key invalid_state_key)) [
        | inl (e, refused) ↦ rw (refused, set_state) h
        | inr (u, accepted) ↦
            rw (accepted, set_state)
              (in_room-IsConsistentHub site name _ hub
                (set_state_room-IsConsistent size limits id key value) h)
      ]
