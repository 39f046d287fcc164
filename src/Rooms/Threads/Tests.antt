-- ===== src/Rooms/Threads/Tests.antt =====
-- Two connections of crates/chudbot-web/src/vibe_rooms.rs that meet in one room: the second holds the
-- room when the first leaves it and closes it.
use chudbot.Common.{true, false, ◌≡◌, ◌≢◌, refl, some, Text, codes, text_eq, lookup, inr, text_key}
use chudbot.Rooms.{RoomLimits}
use chudbot.Rooms.Hub.{reserve_capacity, release_capacity}
use chudbot.Rooms.Threads.{
  Pc, System, Reach, begin, join, leave, start, later, init, act, update, begin_step, join_step,
  leave_step, is_client,
}
use chudbot.Rooms.Threads.Safety.{client-in-open-room, leave-ne-lost}
use chudbot.Rooms.Threads.Alone.{alone, alone-IsSettled, IsSettled}

abbrev limits : RoomLimits
limits = record {
  max_connections = 4;
  max_connections_per_site = 4;
  max_rooms_per_site = 1;
  max_connections_per_room = 2;
  max_user_states = 1;
  max_user_state_bytes = 64;
  outbound_queue = 8;
}

abbrev name : Text
name = codes "a"

-- The states after the first join, and after the second connection found the room.
one_joined : System
unfolding begin_step join_step
one_joined =
    (let a = act 1 init (begin_step limits 1 name init.site (init.pc 1)) in
      let b = act 1 a (join_step limits 1 a.site (a.pc 1)) in
      act 1 b (join_step limits 1 b.site (b.pc 1)))

one_joined_reached : Reach limits one_joined
unfolding one_joined
one_joined_reached = later (later (later start (begin 1 name)) (join 1)) (join 1)

two_found : System
unfolding begin_step join_step one_joined
two_found =
    (let a = act 2 one_joined (begin_step limits 2 name one_joined.site (one_joined.pc 2)) in
      act 2 a (join_step limits 2 a.site (a.pc 2)))

two_found_reached : Reach limits two_found
unfolding two_found
two_found_reached = later (later one_joined_reached (begin 2 name)) (join 2)

abbrev leave_one : System → System
leave_one s = act 1 s (leave_step limits 1 s.site (s.pc 1))

room_closed : System
unfolding leave_step two_found
room_closed = leave_one (leave_one (leave_one (leave_one two_found)))

room_closed_reached : Reach limits room_closed
unfolding room_closed
room_closed_reached =
    later (later (later (later two_found_reached (leave 1)) (leave 1)) (leave 1)) (leave 1)

holds_closed_room : room_closed.pc 2 ≡ Pc.has name 0
unfolding room_closed text_eq reserve_capacity release_capacity update
holds_closed_room = refl

is_closed : (room_closed.site.heap 0).closed ≡ true
unfolding room_closed text_eq reserve_capacity release_capacity update
is_closed = refl

one_at : one_joined.pc 1 ≡ Pc.joined name 0
unfolding one_joined text_eq reserve_capacity release_capacity update
one_at = refl

client-in-open-room_example :
    ((one_joined.site.heap 0).closed ≡ false)
    × (lookup name one_joined.site.rooms ≡ some 0)
    × (is_client 1 (one_joined.site.heap 0).clients ≡ true)
client-in-open-room_example = client-in-open-room limits 1 name 0 one_joined_reached one_at

leave-ne-lost_example : room_closed.pc 1 ≢ Pc.lost
leave-ne-lost_example = leave-ne-lost limits 1 room_closed_reached

-- The second connection makes a room of its own.
alone-IsSettled_example : IsSettled name (alone limits 2 3 (room_closed.site, room_closed.pc 2)).1
alone-IsSettled_example =
    alone-IsSettled limits 2 name room_closed_reached (inr (0, holds_closed_room))
