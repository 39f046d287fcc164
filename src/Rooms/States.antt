-- ===== src/Rooms/States.antt =====
-- User states in a room of crates/chudbot-web/src/vibe_rooms.rs: their limits, and that setting one
-- keeps the room's users and clients together.
use chudbot.Common.{
  ℕ, ◌+◌, ◌≤◌, ◌<◌, min, Bool, false, not, ◌&&◌, ◌≡◌, refl, ap, inl, inr, none, some, List, [], ◌∷◌,
  arith, if◌then◌else◌, leb, ltb, length, Text, text_eq, text_eq_iff, text_key, nat_key, lookup,
  insert, contains_key, lookup-insert, Bool-cases, Option-cases,
}
use chudbot.Rooms.{
  RoomLimits, RoomUser, RoomUserEntry, RoomState, user_state, Reply, ok, err, send_room,
  other_bytes, state_bytes, set_user_state, set_state_room, usize_max,
}
use chudbot.Rooms.Consistency.{IsConsistent, send_room-IsConsistent}

pub ok_inj : {A : Type 0} (a b : A) → ok a ≡ ok b → a ≡ b
ok_inj a b h = cc

module _ {V : Type 0} (size : V → ℕ) where
  -- The bytes of all states.
  abbrev pub total_bytes : List (Text × V) → ℕ
  total_bytes [] = 0
  total_bytes ((k, v) ∷ rest) = length k + size v + total_bytes rest

module _ {V : Type 0} where
  abbrev pub IsMap : List (Text × V) → Type 0
  IsMap [] = Unit
  IsMap ((k, v) ∷ rest) = (lookup k rest ≡ none) × IsMap rest

  length-insert :
      (key : Text) (value : V) (l : List (Text × V))
      → length (insert key value l) ≡ (if contains_key key l then length l else length l + 1)
  unfolding insert lookup
  length-insert key value [] = refl
  length-insert key value ((k, v) ∷ rest) = ground (arith, length-insert key value rest)

  insert-IsMap :
      (key : Text) (value : V) (l : List (Text × V)) → IsMap l → IsMap (insert key value l)
  unfolding insert lookup
  insert-IsMap key value [] h = (refl, tt)
  insert-IsMap key value ((k, v) ∷ rest) (new, h) = elim (Bool-cases (text_eq k key)) [
    | inl same ↦ rw same (new, h)
    | inr other ↦ rw other (
      ground (arith, lookup-insert key k value rest, text_eq_iff k key, text_eq_iff key k),
      insert-IsMap key value rest h,
    )
  ]

module _ {V : Type 0} (size : V → ℕ) where
  other_bytes_absent :
      (key : Text) (l : List (Text × V))
      → lookup key l ≡ none
      → other_bytes size key l ≡ total_bytes size l
  unfolding other_bytes lookup
  other_bytes_absent key [] h = refl
  other_bytes_absent key ((k, v) ∷ rest) h = ground (arith, other_bytes_absent key rest)

  total_bytes-insert :
      (key : Text) (value : V) (l : List (Text × V))
      → IsMap l
      → total_bytes size (insert key value l) ≡ other_bytes size key l + length key + size value
  unfolding other_bytes insert
  total_bytes-insert key value [] h = omega arith
  total_bytes-insert key value ((k, v) ∷ rest) (new, h) = elim (Bool-cases (text_eq k key)) [
    | inl same ↦
        (let e = (text_eq_iff k key).0 same in
          let a = other_bytes_absent key rest (rw e at new) in
          let l = ap (λ (t : Text). length t) e in rw same (omega arith))
    | inr other ↦ (let a = total_bytes-insert key value rest h in rw other (omega arith))
  ]

  -- A user's states are a map within both limits.
  pub record IsWithin (limits : RoomLimits) (states : List (Text × V)) : Type 0 where
    pub keys : IsMap states
    pub few : length states ≤ limits.max_user_states
    pub small : total_bytes size states ≤ limits.max_user_state_bytes

  -- Where the byte limit is a usize below the largest, a state that is accepted is stored, changes
  -- no other key, and leaves the user's states within the limits on their number and bytes.
  pub set_user_state-IsWithin :
      (limits : RoomLimits) (key : Text) (value : V) (user next : RoomUser V)
      → limits.max_user_state_bytes < usize_max
      → IsWithin limits user.states
      → set_user_state size limits key value user ≡ ok next
      → ((k : Text)
          → lookup k next.states ≡ (if text_eq key k then some value else lookup k user.states))
        × IsWithin limits next.states
  unfolding set_user_state state_bytes
  set_user_state-IsWithin limits key value user next fits w h =
      elim (Bool-cases
        (not (contains_key key user.states) && leb limits.max_user_states (length user.states))) [
          | inl many ↦ cc (rw (many, set_user_state) at h)
          | inr few ↦
              elim (Bool-cases
                (ltb limits.max_user_state_bytes (state_bytes size key value user.states))) [
                  | inl large ↦ cc (rw (few, large, set_user_state) at h)
                  | inr small ↦
                      (let e = ok_inj _ next (rw (few, small, set_user_state) at h) in
                        rw (← e) (
                          (λ k. lookup-insert key k value user.states),
                          record {
                            keys = insert-IsMap key value user.states w.keys;
                            few = number _ _ _ (length-insert key value user.states) few w.few;
                            small =
                                rw (total_bytes-insert key value user.states w.keys)
                                  (bytes _ _ _ _ fits small);
                          },
                        ))
                ]
        ]
    where
      number :
          (known : Bool) (n m : ℕ)
          → m ≡ (if known then n else n + 1)
          → (not known && leb limits.max_user_states n) ≡ false
          → n ≤ limits.max_user_states
          → m ≤ limits.max_user_states
      number known n m e h k = ground arith

      bytes :
          (others k v limit : ℕ)
          → limit < usize_max
          → ltb limit (min (min (others + k) usize_max + v) usize_max) ≡ false
          → others + k + v ≤ limit
      bytes others k v limit fits h = ground arith

  -- Setting a user's state keeps a room consistent: it changes no membership.
  pub set_state_room-IsConsistent :
      (limits : RoomLimits) (id : ℕ) (key : Text) (value : V) (room next : RoomState V)
      → IsConsistent room
      → set_state_room size limits id key value room ≡ ok next
      → IsConsistent next
  unfolding set_state_room
  set_state_room-IsConsistent limits id key value room next c h =
      elim (Option-cases (lookup id room.clients)) [
        | inl nobody ↦ cc (rw (nobody, set_state_room) at h)
        | inr (client, found) ↦ elim (Option-cases (lookup client.user_id room.users)) [
          | inl no_user ↦ cc (rw (found, no_user, set_state_room) at h)
          | inr (entry, known) ↦
              changed client.user_id entry known (set_user_state size limits key value entry.user)
                (rw (found, known, set_state_room) at h)
        ]
      ]
    where
      changed :
          (user_id : Text) (entry : RoomUserEntry V)
          → lookup user_id room.users ≡ some entry
          → (r : Reply (RoomUser V))
          → (elim r [
            | err e ↦ err e
            | ok user ↦ ok (
                send_room limits
                  (user_state key user (lookup key entry.user.states) value)
                  (record room {
                    users = insert user_id (record entry { user = user }) room.users;
                  }))
          ])
            ≡ ok next
          → IsConsistent next
      changed user_id entry known (err e) h = cc
      changed user_id entry known (ok user) h =
          let e = ok_inj _ next h in
          let new = record entry { user = user } in
          rw (← e) (
            send_room-IsConsistent limits _ _ (record {
              linked = λ u k.
                  let linked = c.linked u k in
                  ground (arith, lookup-insert user_id u new room.users, text_eq_iff user_id u);
              occupied = λ u e h. elim (Bool-cases (text_eq user_id u)) [
                | inl same ↦
                    (let o = c.occupied user_id entry known in
                      ground (arith, lookup-insert user_id u new room.users))
                | inr other ↦
                    c.occupied u e (ground (arith, lookup-insert user_id u new room.users))
              ];
            }))
