-- ===== src/Rooms/Tests.antt =====
-- Rooms as the tests of crates/chudbot-web/src/vibe_rooms.rs use them.
use chudbot.Common.{
  ℕ, ◌≤◌, true, ◌≡◌, refl, none, some, List, [], ◌∷◌, arith, if◌then◌else◌, length, Text, codes,
  text_eq, text_key, nat_key, lookup, insert,
}
use chudbot.Rooms.{RoomLimits, RoomUser, RoomState, Reply, ok, join_room, set_user_state}
use chudbot.Rooms.Hub.{RoomHub, no_room, join, leave, set_state}
use chudbot.Rooms.Consistency.{IsConsistent}
use chudbot.Rooms.Joins.{join_room-IsConsistent}
use chudbot.Rooms.States.{IsWithin, set_user_state-IsWithin}
use chudbot.Rooms.Hub.Laws.{IsConsistentHub, no_room-IsConsistent, leave-IsConsistentHub}
use chudbot.Rooms.Hub.Joining.{IsFresh, join-IsConsistentHub}
use chudbot.Rooms.Hub.Commanding.{set_state-IsConsistentHub}
use chudbot.Rooms.Hub.Places.{counted, connections_at}
use chudbot.Rooms.Hub.Capacity.{connections-join}
use chudbot.Rooms.Commands.{CommandRate}
use chudbot.Rooms.Commands.Rate.{admitted, admitted-bounds}

abbrev limits : RoomLimits
limits = record {
  max_rooms_per_site = 2;
  max_connections_per_room = 3;
  max_connections_per_site = 4;
  max_connections = 5;
  max_user_states = 2;
  max_user_state_bytes = 10;
  outbound_queue = 4;
}

abbrev one : RoomUser Text
one = record {
  id = codes "one";
  username = none;
  display_name = codes "One";
  avatar_url = none;
  anonymous = true;
  states = [];
}

abbrev bytes_of : Text → ℕ
bytes_of v = length v

abbrev topic : Text
topic = codes "topic"

abbrev no_sites : RoomHub Text
no_sites = record { sites = []; connections = 0 }

abbrev room_of : Reply (RoomState Text × List (RoomUser Text)) → RoomState Text
room_of (ok (room, _)) = room
room_of _ = no_room

abbrev with_one : RoomState Text
with_one = room_of (join_room limits 7 one no_room)

no_sites-IsFresh : IsFresh 7 no_sites
unfolding lookup
no_sites-IsFresh site s h = cc

no_sites-IsConsistentHub : IsConsistentHub no_sites
unfolding lookup
no_sites-IsConsistentHub site s h = cc

join_room-IsConsistent_example : IsConsistent with_one × (length with_one.clients ≤ 3)
unfolding join_room insert lookup text_eq
join_room-IsConsistent_example =
    join_room-IsConsistent limits 7 one no_room with_one (one ∷ []) refl no_room-IsConsistent refl

with_one-IsConsistent : IsConsistent with_one
unfolding join_room insert lookup text_eq
with_one-IsConsistent =
    (join_room-IsConsistent limits 7 one no_room with_one (one ∷ []) refl no_room-IsConsistent
      refl).0

abbrev user_of : Reply (RoomUser Text) → RoomUser Text
user_of (ok user) = user
user_of _ = one

abbrev with_state : RoomUser Text
with_state = user_of (set_user_state bytes_of limits (codes "k") (codes "v") one)

set_user_state-IsWithin_example :
    ((k : Text)
      → lookup k with_state.states
        ≡ (if text_eq (codes "k") k then some (codes "v") else lookup k one.states))
    × IsWithin bytes_of limits with_state.states
unfolding set_user_state lookup insert
set_user_state-IsWithin_example =
    set_user_state-IsWithin bytes_of limits (codes "k") (codes "v") one with_state (omega arith)
      (record { keys = tt; few = omega arith; small = omega arith }) refl

join-IsConsistentHub_example : IsConsistentHub (join limits 1 topic 7 one no_sites).0
join-IsConsistentHub_example =
    join-IsConsistentHub limits 1 topic 7 one no_sites no_sites-IsFresh no_sites-IsConsistentHub

leave-IsConsistentHub_example :
    IsConsistentHub (leave limits 1 topic 7 (join limits 1 topic 7 one no_sites).0)
leave-IsConsistentHub_example =
    leave-IsConsistentHub limits 1 topic 7 (join limits 1 topic 7 one no_sites).0
      (join-IsConsistentHub limits 1 topic 7 one no_sites no_sites-IsFresh no_sites-IsConsistentHub)

set_state-IsConsistentHub_example :
    IsConsistentHub
      (set_state limits bytes_of 1 topic 7 topic topic (join limits 1 topic 7 one no_sites).0).0
set_state-IsConsistentHub_example =
    set_state-IsConsistentHub limits bytes_of 1 topic 7 topic topic
      (join limits 1 topic 7 one no_sites).0
      (join-IsConsistentHub limits 1 topic 7 one no_sites no_sites-IsFresh no_sites-IsConsistentHub)

leaving_undoes_joining : leave limits 1 topic 7 (join limits 1 topic 7 one no_sites).0 ≡ no_sites
unfolding join leave text_eq
leaving_undoes_joining = refl

connections-join_example :
    ((join limits 1 topic 7 one no_sites).0.connections
      ≡ counted 0 (join limits 1 topic 7 one no_sites).1)
    × (connections_at 1 (join limits 1 topic 7 one no_sites).0
        ≡ counted 0 (join limits 1 topic 7 one no_sites).1)
    × ((join limits 1 topic 7 one no_sites).0.connections ≤ 5)
    × (connections_at 1 (join limits 1 topic 7 one no_sites).0 ≤ limits.max_connections_per_site)
unfolding lookup
connections-join_example =
    connections-join limits 1 1 topic 7 one no_sites (omega arith) (omega arith) (omega arith)

abbrev two_a_second : CommandRate
two_a_second = record { window_started = 0; commands = 0; maximum = 2 }

admitted-bounds_example : admitted (1 ∷ 2 ∷ 3 ∷ []) two_a_second ≤ 2
admitted-bounds_example =
    admitted-bounds (1 ∷ 2 ∷ 3 ∷ []) two_a_second (omega arith, (omega arith, (omega arith, tt)))
