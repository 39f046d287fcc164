-- ===== src/Rooms/Threads.antt =====
-- Connections that join and leave the rooms of one site at the same time:
-- `RoomHub::join` and `RoomHub::leave` of crates/chudbot-web/src/vibe_rooms.rs, one step for each time
-- that a lock is held or a counter changes; but the removal of an empty room from the map and the
-- release of its place in `room_count` are one step. A room is an object that a thread may still hold
-- after the map has lost it; a pointer to it is its number.
pub mod Kept
pub mod Clients
pub mod Moves
pub mod Safety
pub mod Alone
pub mod Tests
use chudbot.Common.{
  ℕ, ◌+◌, Bool, true, false, not, ◌&&◌, Option, none, some, List, [], ◌∷◌, if◌then◌else◌, leb, ◌==◌,
  any, select, is_empty, length, Text, text_key, lookup, insert, remove, ◌≡◌,
}
use chudbot.Rooms.{RoomLimits}
use chudbot.Rooms.Hub.{reserve_capacity, release_capacity}

pub record Room : Type 0 where
  pub closed : Bool
  pub clients : List ℕ

-- The site's rooms by name and all rooms that were made, numbered below `next`.
pub record Site : Type 0 where
  pub rooms : List (Text × ℕ)
  pub heap : ℕ → Room
  pub next : ℕ
  pub room_count : ℕ
  pub connections : ℕ

-- Where a connection is: before a join; with its place reserved, at the top of the loop; holding the
-- room that it found or made; a client of the room. Then where it leaves: it found a room
-- under the name, was removed from it, gave its place back. A connection that finds no room or is
-- no client of the room it found returns early from `leave` and is `lost`.
pub data Pc : Type 0 where
  outside lost : Pc
  reserved : Text → Pc
  has joined removed released : Text → ℕ → Pc
  looked : Text → ℕ → ℕ → Pc

unfoldable pub update {ℓ} : {A : Type ℓ} → (ℕ → A) → ℕ → A → ℕ → A
update f i a j = if i == j then a else f j

abbrev pub new_room : Room
new_room = record { closed = false; clients = [] }

abbrev pub is_client : ℕ → List ℕ → Bool
is_client i clients = any (λ c. c == i) clients

abbrev pub with_room : ℕ → Room → Site → Site
with_room r room site = record site { heap = update site.heap r room }

unfoldable pub give_back : Site → Site
unfolding release_capacity
give_back site = record site { connections = release_capacity site.connections }

-- A new, empty room under the name, with its place reserved.
unfoldable pub make_room : Text → ℕ → Site → Site
unfolding insert update
make_room name count site = record {
  rooms = insert name site.next site.rooms;
  heap = update site.heap site.next new_room;
  next = site.next + 1;
  room_count = count;
  connections = site.connections;
}

unfoldable pub close_room : Text → ℕ → Site → Site
unfolding remove update release_capacity
close_room name r site = record {
  rooms = remove name site.rooms;
  heap = update site.heap r (record { closed = true; clients = (site.heap r).clients });
  next = site.next;
  room_count = release_capacity site.room_count;
  connections = site.connections;
}

unfoldable pub add_client : ℕ → ℕ → Site → Site
unfolding update
add_client i r site =
    with_room r (record { closed = (site.heap r).closed; clients = i ∷ (site.heap r).clients }) site

unfoldable pub remove_client : ℕ → ℕ → Site → Site
unfolding update
remove_client i r site =
    with_room r
      (record {
        closed = (site.heap r).closed;
        clients = select (λ c. not (c == i)) (site.heap r).clients;
      })
      site

module _ (limits : RoomLimits) (i : ℕ) where
  -- The start of `join`.
  unfoldable pub begin_step : Text → Site → Pc → Site × Pc
  unfolding reserve_capacity
  begin_step name site Pc.outside =
      elim (reserve_capacity site.connections limits.max_connections_per_site) [
        | none ↦ (site, Pc.outside)
        | some n ↦ (record site { connections = n }, Pc.reserved name)
      ]
  begin_step name site pc = (site, pc)

  -- The loop of `join`.
  unfoldable pub join_step : Site → Pc → Site × Pc
  unfolding reserve_capacity make_room give_back add_client lookup
  join_step site (Pc.reserved name) = elim (lookup name site.rooms) [
    | some r ↦ (site, Pc.has name r)
    | none ↦ elim (reserve_capacity site.room_count limits.max_rooms_per_site) [
      | none ↦ (give_back site, Pc.outside)
      | some n ↦ (make_room name n site, Pc.has name site.next)
    ]
  ]
  join_step site (Pc.has name r) =
      if (site.heap r).closed
      then (site, Pc.reserved name)
      else if leb limits.max_connections_per_room (length (site.heap r).clients)
      then (give_back site, Pc.outside)
      else (add_client i r site, Pc.joined name r)
  join_step site pc = (site, pc)

  -- `leave`, with `remove_empty_room`.
  unfoldable pub leave_step : Site → Pc → Site × Pc
  unfolding give_back close_room remove_client lookup
  leave_step site (Pc.joined name r) = elim (lookup name site.rooms) [
    | none ↦ (site, Pc.lost)
    | some found ↦ (site, Pc.looked name r found)
  ]
  leave_step site (Pc.looked name r found) =
      if is_client i (site.heap found).clients
      then (remove_client i found site, Pc.removed name found)
      else (site, Pc.lost)
  leave_step site (Pc.removed name r) = (give_back site, Pc.released name r)
  leave_step site (Pc.released name r) = elim (lookup name site.rooms) [
    | none ↦ (site, Pc.outside)
    | some found ↦
        if found == r && is_empty (site.heap found).clients
        then (close_room name found site, Pc.outside)
        else (site, Pc.outside)
  ]
  leave_step site pc = (site, pc)

-- All connections, with their numbers, and the site they share.
pub record System : Type 0 where
  pub site : Site
  pub pc : ℕ → Pc

abbrev pub act : ℕ → System → Site × Pc → System
act i s (site, pc) = record { site = site; pc = update s.pc i pc }

pub data Step (limits : RoomLimits) (s : System) : System → Type 0 where
  begin : (i : ℕ) (name : Text) → Step limits s (act i s (begin_step limits i name s.site (s.pc i)))
  join : (i : ℕ) → Step limits s (act i s (join_step limits i s.site (s.pc i)))
  leave : (i : ℕ) → Step limits s (act i s (leave_step limits i s.site (s.pc i)))

abbrev pub init : System
init = record {
  site = record { rooms = []; heap = λ _. new_room; next = 0; room_count = 0; connections = 0 };
  pc = λ _. Pc.outside;
}

pub data Reach (limits : RoomLimits) : System → Type 0 where
  start : Reach limits init
  later : {s t : System} → Reach limits s → Step limits s t → Reach limits t
