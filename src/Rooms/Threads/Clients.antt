-- ===== src/Rooms/Threads/Clients.antt =====
-- What the changes of a room's clients and its closing keep, for the connections of
-- crates/chudbot-web/src/vibe_rooms.rs.
use chudbot.Common.{
  ℕ, Bool, true, false, ◌≡◌, refl, sym, ◌∙◌, some, List, ◌==◌, ==_iff, is_empty, Text, text_key,
  text_eq, text_eq_iff, lookup, lookup-remove, inl, inr, Bool-cases, eq_of_some,
}
use chudbot.Rooms.Threads.{Room, Site, with_room, update, is_client, close_room}
use chudbot.Rooms.Threads.Kept.{
  IsSiteOk, IsClientOf, Keeps, everyone, update_other, update_same, nobody, removed_name,
}

-- A change of the clients of a room that keeps those of some connections.
pub clients-Keeps :
    (who : ℕ → Bool) (site : Site) (r : ℕ) (clients : List ℕ)
    → IsSiteOk site
    → ((i : ℕ)
        → who i ≡ true
        → is_client i (site.heap r).clients ≡ true
        → is_client i clients ≡ true)
    → Keeps who site
        (with_room r (record { closed = (site.heap r).closed; clients = clients }) site)
unfolding IsClientOf update
clients-Keeps who site r clients ok more = record {
  still_ok = record {
    opened = λ name t m. same_closed t ∙ ok.opened name t m;
    made = ok.made;
    one_name = ok.one_name;
  };
  made_more = λ t l. l;
  still_closed = λ t l c. same_closed t ∙ c;
  mapped = λ name t m. inr m;
  client = λ i name t w h. (h.0, still i t w h.1);
}
  where
    next_room : Room
    next_room = record { closed = (site.heap r).closed; clients = clients }

    same_closed : (t : ℕ) → (update site.heap r next_room t).closed ≡ (site.heap t).closed
    same_closed t = elim (Bool-cases (r == t)) [
      | inl e ↦ (let q = (==_iff r t).0 e in rw (sym q, update_same site.heap r next_room) refl)
      | inr e ↦ rw (update_other site.heap r next_room t e) refl
    ]

    still :
        (i t : ℕ)
        → who i ≡ true
        → is_client i (site.heap t).clients ≡ true
        → is_client i (update site.heap r next_room t).clients ≡ true
    still i t w c = elim (Bool-cases (r == t)) [
      | inl e ↦
          (let q = (==_iff r t).0 e in
            rw (sym q, update_same site.heap r next_room) (more i w (rw (q) c)))
      | inr e ↦ rw (update_other site.heap r next_room t e) c
    ]

pub close_room-Keeps :
    (site : Site) (name : Text) (r : ℕ)
    → IsSiteOk site
    → lookup name site.rooms ≡ some r
    → is_empty (site.heap r).clients ≡ true
    → Keeps everyone site (close_room name r site)
unfolding close_room IsClientOf update
close_room-Keeps site name r ok here empty = record {
  still_ok = record {
    opened = λ other t m.
        (let (apart, old) = removed_name name other t site.rooms m in
          rw (update_other site.heap r closed_room t (another other t apart old))
            (ok.opened other t old));
    made = λ other t m. ok.made other t (removed_name name other t site.rooms m).1;
    one_name = λ a b t m n.
        ok.one_name a b t (removed_name name a t site.rooms m).1
          (removed_name name b t site.rooms n).1;
  };
  made_more = λ t l. l;
  still_closed = λ t l c. elim (Bool-cases (r == t)) [
    | inl e ↦ (let q = (==_iff r t).0 e in rw (sym q, update_same site.heap r closed_room) refl)
    | inr e ↦ rw (update_other site.heap r closed_room t e) c
  ];
  mapped = λ other t m. elim (Bool-cases (text_eq name other)) [
    | inl same ↦
        (let q = (text_eq_iff name other).0 same in
          let e : r ≡ t = eq_of_some (sym here ∙ rw (q) m) in
          inl (rw (sym e, update_same site.heap r closed_room) refl))
    | inr apart ↦ inr (rw (lookup-remove name other site.rooms, apart) m)
  ];
  client = λ i other t w h. elim (Bool-cases (text_eq name other)) [
    | inl same ↦
        (let q = (text_eq_iff name other).0 same in
          let e : r ≡ t = eq_of_some (sym here ∙ rw (q) h.0) in
          absurd (nobody i (site.heap r).clients empty (rw (e) h.1)))
    | inr apart ↦ (
      rw (lookup-remove name other site.rooms, apart) h.0,
      rw (update_other site.heap r closed_room t (another other t apart h.0)) h.1,
    )
  ];
}
  where
    closed_room : Room
    closed_room = record { closed = true; clients = (site.heap r).clients }

    another :
        (other : Text) (t : ℕ)
        → text_eq name other ≡ false
        → lookup other site.rooms ≡ some t
        → (r == t) ≡ false
    another other t apart old = elim (Bool-cases (r == t)) [
      | inl e ↦
          (let q = (==_iff r t).0 e in
            let n : name ≡ other = ok.one_name name other t (rw (sym q) here) old in
            cc (apart, (text_eq_iff name other).1 n))
      | inr e ↦ e
    ]
