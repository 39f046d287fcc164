-- ===== src/Rooms/Consistency.antt =====
-- The users and the clients of a room of crates/chudbot-web/src/vibe_rooms.rs belong together.
use mathlib.Core.Option
use chudbot.Common.{
  ℕ, Bool, true, false, not, ◌&&◌, ◌≡◌, refl, sym, ◌∙◌, inl, inr, Option, none, some, List, [], ◌∷◌,
  arith, any, select, is_empty, ◌==◌, ==_iff, Text, text_eq, text_eq_iff, text_key, nat_key, lookup,
  lookup-insert, lookup-remove, Bool-cases, Option-cases,
}
use chudbot.Rooms.{
  RoomLimits, RoomUserEntry, RoomMessage, RoomClient, RoomState, send, send_all, send_room, without,
  leave_user,
}

abbrev pub has : ℕ → List ℕ → Bool
has k l = any (λ c. c == k) l

has-select :
    (k id : ℕ) (l : List ℕ) → has k (select (λ c. not (c == id)) l) ≡ (has k l && not (id == k))
has-select k id [] = refl
has-select k id (c ∷ l) = ground (arith, has-select k id l)

any_of_empty : (l : List ℕ) (k : ℕ) → is_empty l ≡ true → has k l ≡ false
any_of_empty [] k h = refl
any_of_empty (c ∷ l) k h = cc

module _ {V : Type 0} where
  -- The user's entry lists the connection.
  abbrev pub listed : Text → ℕ → Option (RoomUserEntry V) → Bool
  listed u k none = false
  listed u k (some entry) = has k entry.connections

  -- The connection is a client of the user.
  abbrev pub owned : Text → Option (RoomClient V) → Bool
  owned u none = false
  owned u (some client) = text_eq client.user_id u

  -- Each user's entry lists exactly the user's clients, and no user is without one.
  pub record IsConsistent (room : RoomState V) : Type 0 where
    pub linked :
        (u : Text) (k : ℕ) → listed u k (lookup u room.users) ≡ owned u (lookup k room.clients)
    pub occupied :
        (u : Text) (entry : RoomUserEntry V)
        → lookup u room.users ≡ some entry
        → is_empty entry.connections ≡ false

  module _ (limits : RoomLimits) where
    owned-send :
        (u : Text) (message : RoomMessage V) (o : Option (RoomClient V))
        → owned u (Option.map (send limits message) o) ≡ owned u o
    unfolding send
    owned-send u message none = refl
    owned-send u message (some client) = ground arith

    lookup-send_all :
        (k : ℕ) (message : RoomMessage V) (clients : List (ℕ × RoomClient V))
        → lookup k (send_all limits message clients)
          ≡ Option.map (send limits message) (lookup k clients)
    unfolding send_all lookup
    lookup-send_all k message [] = refl
    lookup-send_all k message ((id, client) ∷ rest) = ground (arith, lookup-send_all k message rest)

    -- Sending a message changes no membership.
    pub owned-send_all :
        (u : Text) (k : ℕ) (message : RoomMessage V) (clients : List (ℕ × RoomClient V))
        → owned u (lookup k (send_all limits message clients)) ≡ owned u (lookup k clients)
    owned-send_all u k message clients =
        rw (lookup-send_all k message clients) (owned-send u message (lookup k clients))

    pub send_room-IsConsistent :
        (message : RoomMessage V) (room : RoomState V)
        → IsConsistent room
        → IsConsistent (send_room limits message room)
    unfolding send_room
    send_room-IsConsistent message room c = record {
      linked = λ u k. c.linked u k ∙ sym (owned-send_all u k message room.clients);
      occupied = c.occupied;
    }

    -- With the client gone, its user's entry still lists it.
    pub record IsLeaving (id : ℕ) (user_id : Text) (room : RoomState V) : Type 0 where
      pub linked :
          (u : Text) (k : ℕ)
          → owned u (lookup k room.clients)
            ≡ (listed u k (lookup u room.users) && not (text_eq user_id u && (id == k)))
      pub occupied :
          (u : Text) (entry : RoomUserEntry V)
          → lookup u room.users ≡ some entry
          → is_empty entry.connections ≡ false

    pub leave_user-IsConsistent :
        (id : ℕ) (user_id : Text) (room : RoomState V)
        → IsLeaving id user_id room
        → IsConsistent (leave_user limits id user_id room)
    unfolding leave_user
    leave_user-IsConsistent id user_id room l = elim (Option-cases (lookup user_id room.users)) [
      | inl nobody ↦
          rw (nobody, leave_user)
            (record {
              linked = λ u k. ground (arith, l.linked u k, text_eq_iff user_id u);
              occupied = l.occupied;
            })
      | inr (entry, found) ↦ elim (Bool-cases (is_empty (without id entry).connections)) [
        | inl last ↦
            rw (found, last, leave_user)
              (send_room-IsConsistent _ _ (record {
                linked = λ u k. ground (
                  arith,
                  l.linked u k,
                  text_eq_iff user_id u,
                  lookup-remove user_id u room.users,
                  has-select k id entry.connections,
                  any_of_empty (without id entry).connections k last,
                  ==_iff id k,
                );
                occupied =
                    λ u e h. l.occupied u e (ground (arith, lookup-remove user_id u room.users));
              }))
        | inr more ↦
            rw (found, more, leave_user)
              (record {
                linked = λ u k. ground (
                  arith,
                  l.linked u k,
                  text_eq_iff user_id u,
                  lookup-insert user_id u (without id entry) room.users,
                  has-select k id entry.connections,
                  ==_iff id k,
                );
                occupied = λ u e h. elim (Bool-cases (text_eq user_id u)) [
                  | inl same ↦
                      ground (arith, lookup-insert user_id u (without id entry) room.users, more)
                  | inr other ↦
                      l.occupied u e
                        (ground (arith, lookup-insert user_id u (without id entry) room.users))
                ];
              })
      ]
    ]
