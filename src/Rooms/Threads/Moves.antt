-- ===== src/Rooms/Threads/Moves.antt =====
-- What one step of a connection of crates/chudbot-web/src/vibe_rooms.rs does to the site.
use chudbot.Common.{
  ℕ, Bool, true, false, not, ◌&&◌, ◌≡◌, refl, sym, ◌∙◌, some, List, [], ◌∷◌, if◌then◌else◌, leb,
  ◌==◌, select, is_empty, length, Text, text_key, text_eq_refl, lookup, lookup-insert, arith, ◌⊎◌,
  inl, inr, Bool-cases, Option-cases,
}
use chudbot.Rooms.{RoomLimits}
use chudbot.Rooms.Hub.{reserve_capacity}
use chudbot.Rooms.Threads.{
  Site, Pc, is_client, give_back, make_room, close_room, add_client, remove_client, begin_step,
  join_step, leave_step,
}
use chudbot.Rooms.Threads.Clients.{clients-Keeps, close_room-Keeps}
use chudbot.Rooms.Threads.Kept.{
  IsSiteOk, IsThreadOk, IsClientOf, Keeps, counters-Keeps, make_room-Keeps, everyone, all_but,
  update_same,
}

-- What one connection does to the site, and where it is then.
pub record Moves (i : ℕ) (site : Site) (moved : Site × Pc) : Type 0 where
  pub who : ℕ → Bool
  pub of_others : (j : ℕ) → (i == j) ≡ false → who j ≡ true
  pub keeps : Keeps who site moved.0
  pub own : IsThreadOk moved.0 i moved.1

if_false : {A : Type 0} (b : Bool) (x y : A) → b ≡ false → (if b then x else y) ≡ y
if_false b x y h = rw (h) refl

pub thread_at :
    (site : Site) (i : ℕ) (pc target : Pc)
    → pc ≡ target
    → IsThreadOk site i pc
    → IsThreadOk site i target
thread_at site i pc target e h = rw (sym e) h

others_stay :
    (i j : ℕ) (clients : List ℕ)
    → not (i == j) ≡ true
    → is_client j clients ≡ true
    → is_client j (select (λ c. not (c == i)) clients) ≡ true
others_stay i j [] w c = c
others_stay i j (k ∷ clients) w c = ground (arith, w, c, others_stay i j clients w)

everyone-Moves :
    (i : ℕ) (site : Site) (moved : Site × Pc)
    → Keeps everyone site moved.0
    → IsThreadOk moved.0 i moved.1
    → Moves i site moved
everyone-Moves i site moved k own = record {
  who = everyone;
  of_others = λ j h. refl;
  keeps = k;
  own = own;
}

module _ (limits : RoomLimits) (i : ℕ) (site : Site) (ok : IsSiteOk site) where
  stays-Moves : (pc : Pc) → IsThreadOk site i pc → Moves i site (site, pc)
  stays-Moves pc h =
      everyone-Moves i site (site, pc) (counters-Keeps site site.room_count site.connections ok) h

  pub begin_step-Moves :
      (name : Text) (pc : Pc)
      → IsThreadOk site i pc
      → Moves i site (begin_step limits i name site pc)
  unfolding begin_step IsThreadOk
  begin_step-Moves name Pc.outside h =
      elim (Option-cases (reserve_capacity site.connections limits.max_connections_per_site)) [
        | inl e ↦ rw (begin_step, e) (stays-Moves Pc.outside tt)
        | inr (n, e) ↦
            rw (begin_step, e)
              (everyone-Moves i site _ (counters-Keeps site site.room_count n ok) tt)
      ]
  begin_step-Moves name Pc.lost h = stays-Moves Pc.lost h
  begin_step-Moves name (Pc.reserved n) h = stays-Moves (Pc.reserved n) h
  begin_step-Moves name (Pc.has n r) h = stays-Moves (Pc.has n r) h
  begin_step-Moves name (Pc.joined n r) h = stays-Moves (Pc.joined n r) h
  begin_step-Moves name (Pc.looked n r f) h = stays-Moves (Pc.looked n r f) h
  begin_step-Moves name (Pc.removed n r) h = stays-Moves (Pc.removed n r) h
  begin_step-Moves name (Pc.released n r) h = stays-Moves (Pc.released n r) h

  give_back-Moves : (pc : Pc) → IsThreadOk (give_back site) i pc → Moves i site (give_back site, pc)
  unfolding give_back
  give_back-Moves pc h =
      everyone-Moves i site (give_back site, pc) (counters-Keeps site site.room_count _ ok) h

  made_room : (name : Text) (n : ℕ) → IsThreadOk (make_room name n site) i (Pc.has name site.next)
  unfolding make_room IsThreadOk
  made_room name n =
      (omega arith, inr (rw (lookup-insert name name site.next site.rooms, text_eq_refl name) refl))

  still_mapped :
      (name : Text) (r : ℕ)
      → (site.heap r).closed ≡ false
      → ((site.heap r).closed ≡ true) ⊎ (lookup name site.rooms ≡ some r)
      → lookup name site.rooms ≡ some r
  still_mapped name r opened (inl closed) = cc
  still_mapped name r opened (inr m) = m

  add_client-Keeps : (r : ℕ) → Keeps everyone site (add_client i r site)
  unfolding add_client
  add_client-Keeps r =
      clients-Keeps everyone site r (i ∷ (site.heap r).clients) ok (λ j _ c. ground (arith, c))

  joins :
      (name : Text) (r : ℕ)
      → (site.heap r).closed ≡ false
      → leb limits.max_connections_per_room (length (site.heap r).clients) ≡ false
      → join_step limits i site (Pc.has name r) ≡ (add_client i r site, Pc.joined name r)
  unfolding join_step
  joins name r opened room_left =
      if_false (site.heap r).closed (site, Pc.reserved name) _ opened
      ∙ if_false (leb limits.max_connections_per_room (length (site.heap r).clients))
          (give_back site, Pc.outside) _ room_left

  entered :
      (name : Text) (r : ℕ)
      → lookup name site.rooms ≡ some r
      → IsThreadOk (add_client i r site) i (Pc.joined name r)
  unfolding add_client IsThreadOk IsClientOf
  entered name r m = (m, rw (update_same site.heap r _) (ground arith))

  left :
      (r : ℕ) (pc : Pc)
      → IsThreadOk (remove_client i r site) i pc
      → Moves i site (remove_client i r site, pc)
  unfolding remove_client
  left r pc own = record {
    who = all_but i;
    of_others = λ j h. ground (arith, h);
    keeps =
        clients-Keeps (all_but i) site r (select (λ c. not (c == i)) (site.heap r).clients) ok
          (λ j w c. others_stay i j (site.heap r).clients w c);
    own = own;
  }

  pub join_step-Moves : (pc : Pc) → IsThreadOk site i pc → Moves i site (join_step limits i site pc)
  unfolding join_step IsThreadOk
  join_step-Moves (Pc.reserved name) h = elim (Option-cases (lookup name site.rooms)) [
    | inr (r, e) ↦ rw (join_step, e) (stays-Moves (Pc.has name r) (ok.made name r e, inr e))
    | inl e ↦ elim (Option-cases (reserve_capacity site.room_count limits.max_rooms_per_site)) [
      | inl full ↦ rw (join_step, e, full) (give_back-Moves Pc.outside tt)
      | inr (n, room_left) ↦
          rw (join_step, e, room_left)
            (everyone-Moves i site (make_room name n site, Pc.has name site.next)
              (make_room-Keeps site name n ok e) (made_room name n))
    ]
  ]
  join_step-Moves (Pc.has name r) (l, found) = elim (Bool-cases (site.heap r).closed) [
    | inl closed ↦ rw (join_step, closed) (stays-Moves (Pc.reserved name) tt)
    | inr opened ↦
        elim (Bool-cases (leb limits.max_connections_per_room (length (site.heap r).clients))) [
          | inl full ↦ rw (join_step, opened, full) (give_back-Moves Pc.outside tt)
          | inr room_left ↦ rw (joins name r opened room_left) (
              everyone-Moves i site (add_client i r site, Pc.joined name r) (add_client-Keeps r)
                (entered name r (still_mapped name r opened found)))
        ]
  ]
  join_step-Moves Pc.outside h = stays-Moves Pc.outside tt
  join_step-Moves Pc.lost h = stays-Moves Pc.lost h
  join_step-Moves (Pc.joined n r) h = stays-Moves (Pc.joined n r) h
  join_step-Moves (Pc.looked n r f) h = stays-Moves (Pc.looked n r f) h
  join_step-Moves (Pc.removed n r) h = stays-Moves (Pc.removed n r) h
  join_step-Moves (Pc.released n r) h = stays-Moves (Pc.released n r) h

  pub leave_step-Moves :
      (pc : Pc) → IsThreadOk site i pc → Moves i site (leave_step limits i site pc)
  unfolding leave_step IsThreadOk IsClientOf
  leave_step-Moves (Pc.joined name r) (m, c) =
      rw (leave_step, m) (stays-Moves (Pc.looked name r r) (refl, (m, c)))
  leave_step-Moves (Pc.looked name r found) (e, (m, c)) =
      (let here : is_client i (site.heap found).clients ≡ true = rw (e) c in
        rw (leave_step, here) (left found (Pc.removed name found) tt))
  leave_step-Moves (Pc.removed name r) h = give_back-Moves (Pc.released name r) tt
  leave_step-Moves (Pc.released name r) h = elim (Option-cases (lookup name site.rooms)) [
    | inl e ↦ rw (leave_step, e) (stays-Moves Pc.outside tt)
    | inr (found, e) ↦ elim (Bool-cases (found == r && is_empty (site.heap found).clients)) [
      | inr f ↦ rw (leave_step, e, f) (stays-Moves Pc.outside tt)
      | inl t ↦
          rw (leave_step, e, t)
            (everyone-Moves i site (close_room name found site, Pc.outside)
              (close_room-Keeps site name found ok e (ground (arith, t))) tt)
    ]
  ]
  leave_step-Moves Pc.outside h = stays-Moves Pc.outside tt
  leave_step-Moves Pc.lost h = stays-Moves Pc.lost h
  leave_step-Moves (Pc.reserved n) h = stays-Moves (Pc.reserved n) h
  leave_step-Moves (Pc.has n r) h = stays-Moves (Pc.has n r) h
