-- ===== src/Rooms/Joins.antt =====
-- Joining, leaving and broadcasting in a room of crates/chudbot-web/src/vibe_rooms.rs keep its users
-- and clients together.
use chudbot.Common.{
  ℕ, suc, ◌+◌, ◌≤◌, ◌<◌, true, false, ◌||◌, ◌≡◌, refl, ap, inl, inr, Option, none, some, List, [],
  ◌∷◌, arith, leb, length, is_empty, ◌==◌, ==_iff, Text, text_eq, text_eq_iff, text_key, nat_key,
  lookup, insert, remove, contains_key, lookup-insert, lookup-remove, Bool-cases, Option-cases,
  eq_of_some,
}
use chudbot.Rooms.{
  RoomLimits, RoomUser, RoomUserEntry, RoomMessage, event, RoomClient, RoomState, Reply, ok,
  send_all, send_room, joined_entry, join_room, leave_room, broadcast_room,
}
use chudbot.Rooms.Consistency.{
  has, listed, owned, IsConsistent, IsLeaving, owned-send_all, send_room-IsConsistent,
  leave_user-IsConsistent,
}

first_of : {A B : Type 0} (p q : A × B) → ◌≡◌ {A = Reply (A × B)} (ok p) (ok q) → p.0 ≡ q.0
first_of p q h = cc

not_full : (limit n : ℕ) → leb limit n ≡ false → n < limit
not_full limit n h = ground arith

module _ {V : Type 0} (limits : RoomLimits) where
  listed-joined_entry :
      (id k : ℕ) (user : RoomUser V) (u : Text) (o : Option (RoomUserEntry V))
      → listed u k (some (joined_entry id user o)) ≡ ((id == k) || listed u k o)
  unfolding joined_entry
  listed-joined_entry id k user u none = refl
  listed-joined_entry id k user u (some entry) = elim (Bool-cases (has id entry.connections)) [
    | inl before ↦ rw before (elim (Bool-cases (id == k)) [
      | inl same ↦ (let e : id ≡ k = (==_iff id k).0 same in rw same (rw e at before))
      | inr other ↦ rw other refl
    ])
    | inr new ↦ rw new refl
  ]

  occupied-joined_entry :
      (id : ℕ) (user : RoomUser V) (o : Option (RoomUserEntry V))
      → ((e : RoomUserEntry V) → o ≡ some e → is_empty e.connections ≡ false)
      → is_empty (joined_entry id user o).connections ≡ false
  unfolding joined_entry
  occupied-joined_entry id user none h = refl
  occupied-joined_entry id user (some entry) h = elim (Bool-cases (has id entry.connections)) [
    | inl before ↦ rw before (h entry refl)
    | inr new ↦ rw new refl
  ]

  -- The room after a join whose clients were told something or not.
  joined-IsConsistent :
      (id : ℕ) (user : RoomUser V) (room : RoomState V) (clients : List (ℕ × RoomClient V))
      (client : RoomClient V)
      → lookup id room.clients ≡ none
      → IsConsistent room
      → ((u : Text) (k : ℕ) → owned u (lookup k clients) ≡ owned u (lookup k room.clients))
      → client.user_id ≡ user.id
      → IsConsistent {V = V} (record {
        users = insert user.id (joined_entry id user (lookup user.id room.users)) room.users;
        clients = insert id client clients;
      })
  joined-IsConsistent id user room clients client fresh c told of = record {
    linked = λ u k.
        let entry = joined_entry id user (lookup user.id room.users) in
        let at_u = lookup-insert user.id u entry room.users in
        let at_k = lookup-insert id k client clients in
        let l = listed-joined_entry id k user u (lookup user.id room.users) in
        let linked = c.linked u k in
        let t = told u k in
        ground (arith, text_eq_iff user.id u, ==_iff id k, text_eq_iff client.user_id u);
    occupied = λ u e h. elim (Bool-cases (text_eq user.id u)) [
      | inl same ↦
          (let o = occupied-joined_entry id user (lookup user.id room.users) (c.occupied user.id) in
            ground (
              arith,
              lookup-insert user.id u (joined_entry id user (lookup user.id room.users)) room.users,
            ))
      | inr other ↦ c.occupied u e (
          ground (
            arith,
            lookup-insert user.id u (joined_entry id user (lookup user.id room.users)) room.users,
          ))
    ];
  }

  leaving :
      (id : ℕ) (client : RoomClient V) (room : RoomState V)
      → lookup id room.clients ≡ some client
      → IsConsistent room
      → IsLeaving limits id client.user_id (record room { clients = remove id room.clients })
  leaving id client room found c = record {
    linked = λ u k.
        let linked = c.linked u k in
        let r = lookup-remove id k room.clients in
        ground (arith, text_eq_iff client.user_id u, ==_iff id k);
    occupied = c.occupied;
  }

  length-insert_new :
      (id : ℕ) (client : RoomClient V) (clients : List (ℕ × RoomClient V))
      → length (insert id client clients) ≤ length clients + 1
  unfolding insert
  length-insert_new id client [] = omega arith
  length-insert_new id client ((k, c) ∷ rest) = ground (arith, length-insert_new id client rest)

  length-send_all :
      (message : RoomMessage V) (clients : List (ℕ × RoomClient V))
      → length (send_all limits message clients) ≡ length clients
  unfolding send_all
  length-send_all message [] = refl
  length-send_all message ((k, c) ∷ rest) = ap suc (length-send_all message rest)

  new_client-fits :
      (id : ℕ) (client : RoomClient V) (old clients : List (ℕ × RoomClient V))
      → leb limits.max_connections_per_room (length old) ≡ false
      → length clients ≡ length old
      → length (insert id client clients) ≤ limits.max_connections_per_room
  new_client-fits id client old clients room_left same =
      let l = length-insert_new id client clients in
      let m : length old < limits.max_connections_per_room = not_full _ _ room_left in omega arith

  -- A new connection that joins a consistent room leaves it consistent, with no more connections
  -- than the limit allows.
  pub join_room-IsConsistent :
      (id : ℕ) (user : RoomUser V) (room next : RoomState V) (welcome : List (RoomUser V))
      → lookup id room.clients ≡ none
      → IsConsistent room
      → join_room limits id user room ≡ ok (next, welcome)
      → IsConsistent next × (length next.clients ≤ limits.max_connections_per_room)
  unfolding join_room
  join_room-IsConsistent id user room next welcome fresh c h =
      elim (Bool-cases (leb limits.max_connections_per_room (length room.clients))) [
        | inl full ↦ cc (rw (full, join_room) at h)
        | inr room_left ↦ elim (Bool-cases (contains_key user.id room.users)) [
          | inl known ↦
              (let e = first_of _ _ (rw (room_left, known, join_room) at h) in
                rw (← e) (
                  joined-IsConsistent id user room room.clients _ fresh c (λ u k. refl) refl,
                  new_client-fits id _ room.clients room.clients room_left refl,
                ))
          | inr new ↦
              (let e = first_of _ _ (rw (room_left, new, join_room) at h) in
                rw (← e) (
                  unfold send_room in
                  (
                    joined-IsConsistent id user room _ _ fresh c
                        (λ u k. owned-send_all limits u k _ room.clients) refl,
                    new_client-fits id _ room.clients _ room_left (length-send_all _ room.clients),
                  )))
        ]
      ]

  -- A connection that leaves a consistent room leaves it consistent: its user goes exactly when it
  -- was the user's last connection.
  pub leave_room-IsConsistent :
      (id : ℕ) (room next : RoomState V)
      → IsConsistent room
      → leave_room limits id room ≡ some next
      → IsConsistent next
  unfolding leave_room
  leave_room-IsConsistent id room next c h = elim (Option-cases (lookup id room.clients)) [
    | inl nobody ↦ cc (rw (nobody, leave_room) at h)
    | inr (client, found) ↦
        (let e = rw (found, leave_room) at h in
          rw (← eq_of_some e)
            (leave_user-IsConsistent limits id client.user_id _ (leaving id client room found c)))
  ]

  -- A client of a consistent room always reaches the room with a broadcast, and the room stays
  -- consistent.
  pub broadcast_room-ok :
      (id : ℕ) (label : Text) (value : V) (room : RoomState V)
      → IsConsistent room
      → contains_key id room.clients ≡ true
      → (next : RoomState V) × (broadcast_room limits id label value room ≡ ok next)
        × IsConsistent next
  unfolding broadcast_room
  broadcast_room-ok id label value room c h = elim (Option-cases (lookup id room.clients)) [
    | inl nobody ↦ cc (rw (nobody, contains_key) at h)
    | inr (client, found) ↦ elim (Option-cases (lookup client.user_id room.users)) [
      | inl no_user ↦
          (let l = c.linked client.user_id id in
            ground (arith, text_eq_iff client.user_id client.user_id))
      | inr (entry, known) ↦ (
        send_room limits (event label value entry.user) room,
        rw (found, known, broadcast_room) refl,
        send_room-IsConsistent limits (event label value entry.user) room c,
      )
    ]
  ]
