-- ===== src/Rooms/Hub.antt =====
-- `RoomHub` of crates/chudbot-web/src/vibe_rooms.rs: the sites, their rooms and the counters of
-- connections. An operation is taken as one step, so a room is never seen closed and the pointers
-- that the source compares are the same. Debug assertions are left out, as in a release build. The
-- outbound queue is at least one, as crates/chudbot-bin/src/diagnostics.rs demands of a configuration,
-- so that `mpsc::channel` does not panic.
pub mod Laws
pub mod Joining
pub mod Commanding
pub mod Places
pub mod Capacity
use mathlib.Core.Option
use chudbot.Common.{
  ℕ, ◌+◌, ◌-◌, Bool, true, false, ◌&&◌, Option, none, some, List, [], if◌then◌else◌, ltb, ◌==◌,
  is_empty, Text, text_key, nat_key, lookup, insert, remove,
}
use chudbot.Rooms.{
  RoomLimits, RoomUser, RoomState, RoomError, rooms_busy, site_rooms_busy, too_many_rooms,
  not_connected, invalid_state_key, Reply, ok, err, join_room, leave_room, broadcast_room,
  set_state_room, usize_max,
}
use chudbot.Rooms.Commands.{validate_token, validate_event_label}

pub record SiteRooms (V : Type 0) : Type 0 where
  pub rooms : List (Text × RoomState V)
  pub room_count : ℕ
  pub connections : ℕ

pub record RoomHub (V : Type 0) : Type 0 where
  pub sites : List (ℕ × SiteRooms V)
  pub connections : ℕ

unfoldable pub reserve_capacity : ℕ → ℕ → Option ℕ
reserve_capacity counter maximum = if ltb counter maximum then some (counter + 1) else none

-- `fetch_sub(1)` wraps around.
unfoldable pub release_capacity : ℕ → ℕ
release_capacity counter = if counter == 0 then usize_max else counter - 1

abbrev pub no_room : {V : Type 0} → RoomState V
no_room = record { users = []; clients = [] }

module _ {V : Type 0} (limits : RoomLimits) where
  -- The site with the connection reserved. A new site is entered even where nothing can be reserved.
  unfoldable pub reserve_site : Option (SiteRooms V) → Option (SiteRooms V)
  unfolding reserve_capacity
  reserve_site none = some (record {
    rooms = [];
    room_count = 0;
    connections = elim (reserve_capacity 0 limits.max_connections_per_site) [
      | none ↦ 0
      | some n ↦ n
    ];
  })
  reserve_site (some s) =
      Option.map (λ n. record s { connections = n })
        (reserve_capacity s.connections limits.max_connections_per_site)

  -- The room of a name, made where there is none and another room is allowed.
  unfoldable pub enter_room : Text → SiteRooms V → Option (SiteRooms V × RoomState V)
  unfolding reserve_capacity lookup insert
  enter_room name s = elim (lookup name s.rooms) [
    | some room ↦ some (s, room)
    | none ↦
        Option.map
          (λ n. (record s { rooms = insert name no_room s.rooms; room_count = n }, no_room))
          (reserve_capacity s.room_count limits.max_rooms_per_site)
  ]

  abbrev pub put : ℕ → SiteRooms V → RoomHub V → RoomHub V
  put site s hub = record hub { sites = insert site s hub.sites }

  -- The hub and the site give a reserved connection back.
  abbrev pub give_back : ℕ → SiteRooms V → RoomHub V → RoomHub V
  give_back site s hub =
      put site (record s { connections = release_capacity s.connections })
        (record hub { connections = release_capacity hub.connections })

  -- `join` once both connections are reserved.
  unfoldable pub join_site :
      ℕ → SiteRooms V → Text → ℕ → RoomUser V → RoomHub V → RoomHub V × Reply (List (RoomUser V))
  unfolding enter_room join_room release_capacity insert
  join_site site s name id user hub = elim (enter_room name s) [
    | none ↦ (give_back site s hub, err too_many_rooms)
    | some (t, room) ↦ elim (join_room limits id user room) [
      | err e ↦ (give_back site t hub, err e)
      | ok (next, welcome) ↦
          (put site (record t { rooms = insert name next t.rooms }) hub, ok welcome)
    ]
  ]

  unfoldable pub join :
      ℕ → Text → ℕ → RoomUser V → RoomHub V → RoomHub V × Reply (List (RoomUser V))
  unfolding reserve_capacity reserve_site join_site release_capacity lookup insert
  join site name id user hub = elim (reserve_capacity hub.connections limits.max_connections) [
    | none ↦ (hub, err rooms_busy)
    | some total ↦ elim (reserve_site (lookup site hub.sites)) [
      | none ↦ (record hub { connections = release_capacity total }, err site_rooms_busy)
      | some s ↦ join_site site s name id user (put site s (record hub { connections = total }))
    ]
  ]

  unfoldable pub remove_empty_room : Text → RoomState V → SiteRooms V → SiteRooms V
  unfolding release_capacity remove
  remove_empty_room name room s =
      if is_empty room.clients
      then record s { rooms = remove name s.rooms; room_count = release_capacity s.room_count }
      else s

  unfoldable pub remove_empty_site : ℕ → SiteRooms V → RoomHub V → RoomHub V
  unfolding remove
  remove_empty_site site s hub =
      if s.connections == 0 && s.room_count == 0
      then record hub { sites = remove site hub.sites }
      else hub

  -- The site after a connection has left the room.
  unfoldable pub left_site : Text → RoomState V → SiteRooms V → SiteRooms V
  unfolding remove_empty_room release_capacity insert
  left_site name next s =
      remove_empty_room name next (record s {
        rooms = insert name next s.rooms;
        connections = release_capacity s.connections;
      })

  unfoldable pub leave : ℕ → Text → ℕ → RoomHub V → RoomHub V
  unfolding leave_room left_site remove_empty_site release_capacity lookup insert
  leave site name id hub = elim (lookup site hub.sites) [
    | none ↦ hub
    | some s ↦ elim (lookup name s.rooms) [
      | none ↦ hub
      | some room ↦ elim (leave_room limits id room) [
        | none ↦ hub
        | some next ↦ remove_empty_site site (left_site name next s) (
            put site (left_site name next s)
              (record hub { connections = release_capacity hub.connections }))
      ]
    ]
  ]

  -- An operation on one room, in place: `room`, and the store of what it changes.
  unfoldable pub in_room :
      ℕ → Text → (RoomState V → Reply (RoomState V)) → RoomHub V → RoomHub V × Reply (Unit {0})
  unfolding lookup insert
  in_room site name f hub = elim (lookup site hub.sites) [
    | none ↦ (hub, err not_connected)
    | some s ↦ elim (lookup name s.rooms) [
      | none ↦ (hub, err not_connected)
      | some room ↦ elim (f room) [
        | err e ↦ (hub, err e)
        | ok next ↦ (put site (record s { rooms = insert name next s.rooms }) hub, ok tt)
      ]
    ]
  ]

  unfoldable pub broadcast : ℕ → Text → ℕ → Text → V → RoomHub V → RoomHub V × Reply (Unit {0})
  unfolding validate_event_label in_room broadcast_room
  broadcast site name id label value hub = elim (validate_event_label label) [
    | err e ↦ (hub, err e)
    | ok _ ↦ in_room site name (broadcast_room limits id label value) hub
  ]

  unfoldable pub set_state :
      (V → ℕ) → ℕ → Text → ℕ → Text → V → RoomHub V → RoomHub V × Reply (Unit {0})
  unfolding validate_token in_room set_state_room
  set_state size site name id key value hub = elim (validate_token key invalid_state_key) [
    | err e ↦ (hub, err e)
    | ok _ ↦ in_room site name (set_state_room size limits id key value) hub
  ]
