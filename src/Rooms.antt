-- ===== src/Rooms.antt =====
-- crates/chudbot-web/src/vibe_rooms.rs: the state of one room and the operations under its lock; the
-- child modules have the hub and the commands of a connection. The operations are taken one at a
-- time. A text is its UTF-8 bytes, `V` is `serde_json::Value`, a connection id is a number, and a
-- message is the value that the source serialises.
pub mod Hub
pub mod Threads
pub mod Commands
pub mod Consistency
pub mod Joins
pub mod States
mod Tests
use mathlib.Core.Option
use chudbot.Common.{
  ℕ, zero, suc, ◌+◌, ◌-◌, min, Bool, true, false, not, ◌&&◌, ◌||◌, Option, none, some, List, [],
  ◌∷◌, ◌++◌, map, if◌then◌else◌, ltb, leb, ◌==◌, length, is_empty, select, any, Text, text_eq,
  text_key, nat_key, lookup, insert, remove, contains_key,
}

pub record RoomLimits : Type 0 where
  pub max_rooms_per_site : ℕ
  pub max_connections_per_room : ℕ
  pub max_connections_per_site : ℕ
  pub max_connections : ℕ
  pub max_user_states : ℕ
  pub max_user_state_bytes : ℕ
  pub outbound_queue : ℕ

pub record RoomUser (V : Type 0) : Type 0 where
  pub id : Text
  pub username : Option Text
  pub display_name : Text
  pub avatar_url : Option Text
  pub anonymous : Bool
  pub states : List (Text × V)

-- `connections` is a set.
pub record RoomUserEntry (V : Type 0) : Type 0 where
  pub user : RoomUser V
  pub connections : List ℕ

-- What the server sends to a client of a room.
pub data RoomMessage (V : Type 0) : Type 0 where
  user_join user_quit : RoomUser V → RoomMessage V
  event : Text → V → RoomUser V → RoomMessage V
  user_state : Text → RoomUser V → Option V → V → RoomMessage V

-- `outbound` is the channel, with what is not received yet.
pub record RoomClient (V : Type 0) : Type 0 where
  pub user_id : Text
  pub outbound : List (RoomMessage V)
  pub cancelled : Bool

pub record RoomState (V : Type 0) : Type 0 where
  pub users : List (Text × RoomUserEntry V)
  pub clients : List (ℕ × RoomClient V)

-- The errors by their codes; `not_connected` is `not_joined()`.
pub data RoomError : Type 0 where
  rooms_busy site_rooms_busy too_many_rooms room_full not_connected : RoomError
  invalid_state_key too_many_user_states user_state_too_large : RoomError
  invalid_event_label reserved_event_label invalid_room : RoomError
  message_too_large invalid_message rate_limited already_joined : RoomError

pub data Reply (A : Type 0) : Type 0 where
  ok : A → Reply A
  err : RoomError → Reply A

-- The entry of the user of a new connection.
unfoldable pub joined_entry :
    {V : Type 0} → ℕ → RoomUser V → Option (RoomUserEntry V) → RoomUserEntry V
joined_entry id user none = record { user = user; connections = id ∷ [] }
joined_entry id user (some entry) = record entry {
  connections =
      if any (λ c. c == id) entry.connections then entry.connections else id ∷ entry.connections;
}

-- The entry of a user without a connection.
abbrev pub without : {V : Type 0} → ℕ → RoomUserEntry V → RoomUserEntry V
without id entry = record entry { connections = select (λ c. not (c == id)) entry.connections }

module _ {V : Type 0} (limits : RoomLimits) where
  -- `try_send`, and the cancellation of a client whose queue is full.
  unfoldable pub send : RoomMessage V → RoomClient V → RoomClient V
  send message client =
      if ltb (length client.outbound) limits.outbound_queue
      then record client { outbound = client.outbound ++ message ∷ [] }
      else record client { cancelled = true }

  -- `send_room`; no caller excepts a client.
  unfoldable pub send_all : RoomMessage V → List (ℕ × RoomClient V) → List (ℕ × RoomClient V)
  unfolding send
  send_all message [] = []
  send_all message ((id, client) ∷ rest) = (id, send message client) ∷ send_all message rest

  unfoldable pub send_room : RoomMessage V → RoomState V → RoomState V
  unfolding send_all
  send_room message room = record room { clients = send_all message room.clients }

  -- `join` under the room's lock, with the new connection id: the room, and the users of the welcome.
  unfoldable pub join_room : ℕ → RoomUser V → RoomState V → Reply (RoomState V × List (RoomUser V))
  unfolding send_room joined_entry lookup insert
  join_room id user room =
      if leb limits.max_connections_per_room (length room.clients)
      then err room_full
      else (let users =
            insert user.id (joined_entry id user (lookup user.id room.users)) room.users in
          let told =
            if contains_key user.id room.users
            then record room { users = users }
            else send_room (user_join user) (record room { users = users }) in
          let client : RoomClient V = record {
            user_id = user.id;
            outbound = [];
            cancelled = false;
          } in
          ok (
            record told { clients = insert id client told.clients },
            map (λ (e : Text × RoomUserEntry V). e.1.user) users,
          ))

  -- The users' part of `leave`, for the client that was removed.
  unfoldable pub leave_user : ℕ → Text → RoomState V → RoomState V
  unfolding send_room lookup insert remove
  leave_user id user_id room = elim (lookup user_id room.users) [
    | none ↦ room
    | some entry ↦
        if is_empty (without id entry).connections
        then send_room (user_quit entry.user) (record room { users = remove user_id room.users })
        else record room { users = insert user_id (without id entry) room.users }
  ]

  -- `leave` under the room's lock; `none` when the connection is not a client.
  unfoldable pub leave_room : ℕ → RoomState V → Option (RoomState V)
  unfolding leave_user lookup remove
  leave_room id room = elim (lookup id room.clients) [
    | none ↦ none
    | some client ↦
        some (leave_user id client.user_id (record room { clients = remove id room.clients }))
  ]

  -- `broadcast` under the room's lock.
  unfoldable pub broadcast_room : ℕ → Text → V → RoomState V → Reply (RoomState V)
  unfolding send_room lookup
  broadcast_room id label value room = elim (lookup id room.clients) [
    | none ↦ err not_connected
    | some client ↦ elim (lookup client.user_id room.users) [
      | none ↦ err not_connected
      | some entry ↦ ok (send_room (event label value entry.user) room)
    ]
  ]

-- The bytes of the states but one; `size` is the length of a value's text.
unfoldable pub other_bytes : {V : Type 0} → (V → ℕ) → Text → List (Text × V) → ℕ
unfolding text_eq
other_bytes size key [] = 0
other_bytes size key ((k, v) ∷ rest) =
    let bytes = other_bytes size key rest in
    if text_eq k key then bytes else length k + size v + bytes

abbrev pub usize_max : ℕ
usize_max = 18446744073709551615

-- The bytes of a user's states after a change. `saturating_add` stops at the largest usize.
unfoldable pub state_bytes : {V : Type 0} → (V → ℕ) → Text → V → List (Text × V) → ℕ
unfolding other_bytes
state_bytes size key value states =
    min (min (other_bytes size key states + length key) usize_max + size value) usize_max

module _ {V : Type 0} (size : V → ℕ) (limits : RoomLimits) where
  -- `set_state` of a user.
  unfoldable pub set_user_state : Text → V → RoomUser V → Reply (RoomUser V)
  unfolding state_bytes lookup insert
  set_user_state key value user =
      if not (contains_key key user.states) && leb limits.max_user_states (length user.states)
      then err too_many_user_states
      else if ltb limits.max_user_state_bytes (state_bytes size key value user.states)
      then err user_state_too_large
      else ok (record user { states = insert key value user.states })

  abbrev set_entry_state : Text → Text → V → RoomUserEntry V → RoomState V → Reply (RoomState V)
  set_entry_state user_id key value entry room = elim (set_user_state key value entry.user) [
    | err e ↦ err e
    | ok user ↦ ok (
        send_room limits (user_state key user (lookup key entry.user.states) value)
          (record room { users = insert user_id (record entry { user = user }) room.users }))
  ]

  -- `set_state` under the room's lock.
  unfoldable pub set_state_room : ℕ → Text → V → RoomState V → Reply (RoomState V)
  unfolding set_user_state send_room lookup insert
  set_state_room id key value room = elim (lookup id room.clients) [
    | none ↦ err not_connected
    | some client ↦ elim (lookup client.user_id room.users) [
      | none ↦ err not_connected
      | some entry ↦ set_entry_state client.user_id key value entry room
    ]
  ]
