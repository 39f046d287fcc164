-- ===== src/Rooms/Threads/Kept.antt =====
-- What each change of a site keeps, for the connections of crates/chudbot-web/src/vibe_rooms.rs that
-- join and leave at the same time.
use chudbot.Common.{
  ℕ, ◌<◌, Bool, true, false, not, ◌≡◌, refl, sym, ◌∙◌, none, some, List, [], ◌∷◌, ◌==◌, is_empty,
  Text, text_key, text_eq, text_eq_iff, lookup, insert, remove, lookup-insert, lookup-remove, arith,
  ◌⊎◌, inl, inr, Bool-cases,
}
use chudbot.Rooms.Threads.{Site, new_room, Pc, update, is_client, make_room}

-- A room that the map has is open and was made, and it has one name.
pub record IsSiteOk (site : Site) : Type 0 where
  pub opened :
      (name : Text) (r : ℕ) → lookup name site.rooms ≡ some r → (site.heap r).closed ≡ false
  pub made : (name : Text) (r : ℕ) → lookup name site.rooms ≡ some r → r < site.next
  pub one_name :
      (name other : Text) (r : ℕ)
      → lookup name site.rooms ≡ some r
      → lookup other site.rooms ≡ some r
      → name ≡ other

-- A client is in the room that the map has under its name.
unfoldable pub IsClientOf : Site → ℕ → Text → ℕ → Type 0
IsClientOf site i name r =
    (lookup name site.rooms ≡ some r) × (is_client i (site.heap r).clients ≡ true)

unfoldable pub IsThreadOk : Site → ℕ → Pc → Type 0
unfolding IsClientOf
IsThreadOk site i Pc.outside = Unit
IsThreadOk site i Pc.lost = ⊥
IsThreadOk site i (Pc.reserved name) = Unit
IsThreadOk site i (Pc.has name r) =
    (r < site.next) × (((site.heap r).closed ≡ true) ⊎ (lookup name site.rooms ≡ some r))
IsThreadOk site i (Pc.joined name r) = IsClientOf site i name r
IsThreadOk site i (Pc.looked name r found) = (found ≡ r) × IsClientOf site i name r
IsThreadOk site i (Pc.removed name r) = Unit
IsThreadOk site i (Pc.released name r) = Unit

-- What a site keeps of the connections: of those whose number passes the test.
pub record Keeps (who : ℕ → Bool) (site next : Site) : Type 0 where
  pub still_ok : IsSiteOk next
  pub made_more : (r : ℕ) → r < site.next → r < next.next
  pub still_closed :
      (r : ℕ) → r < site.next → (site.heap r).closed ≡ true → (next.heap r).closed ≡ true
  pub mapped :
      (name : Text) (r : ℕ)
      → lookup name site.rooms ≡ some r
      → ((next.heap r).closed ≡ true) ⊎ (lookup name next.rooms ≡ some r)
  pub client :
      (i : ℕ) (name : Text) (r : ℕ)
      → who i ≡ true
      → IsClientOf site i name r
      → IsClientOf next i name r

pub Keeps-IsThreadOk :
    (who : ℕ → Bool) (site next : Site) (i : ℕ) (pc : Pc)
    → Keeps who site next
    → who i ≡ true
    → IsThreadOk site i pc
    → IsThreadOk next i pc
unfolding IsThreadOk
Keeps-IsThreadOk who site next i Pc.outside k w h = tt
Keeps-IsThreadOk who site next i Pc.lost k w h = h
Keeps-IsThreadOk who site next i (Pc.reserved name) k w h = tt
Keeps-IsThreadOk who site next i (Pc.has name r) k w (l, inl c) =
    (k.made_more r l, inl (k.still_closed r l c))
Keeps-IsThreadOk who site next i (Pc.has name r) k w (l, inr m) =
    (k.made_more r l, k.mapped name r m)
Keeps-IsThreadOk who site next i (Pc.joined name r) k w h = k.client i name r w h
Keeps-IsThreadOk who site next i (Pc.looked name r found) k w (e, h) = (e, k.client i name r w h)
Keeps-IsThreadOk who site next i (Pc.removed name r) k w h = tt
Keeps-IsThreadOk who site next i (Pc.released name r) k w h = tt

abbrev pub everyone : ℕ → Bool
everyone _ = true

abbrev pub all_but : ℕ → ℕ → Bool
all_but i j = not (i == j)

-- A change of the counters.
pub counters-Keeps :
    (site : Site) (count connections : ℕ)
    → IsSiteOk site
    → Keeps everyone site (record site { room_count = count; connections = connections })
unfolding IsClientOf
counters-Keeps site count connections ok = record {
  still_ok = record { opened = ok.opened; made = ok.made; one_name = ok.one_name };
  made_more = λ r l. l;
  still_closed = λ r l c. c;
  mapped = λ name r m. inr m;
  client = λ i name r w h. h;
}

pub update_other :
    {A : Type 0} (f : ℕ → A) (i : ℕ) (a : A) (j : ℕ) → (i == j) ≡ false → update f i a j ≡ f j
unfolding update
update_other f i a j h = rw (h) refl

pub update_same : {A : Type 0} (f : ℕ → A) (i : ℕ) (a : A) → update f i a i ≡ a
unfolding update
update_same f i a = ground arith

pub nobody : (i : ℕ) (clients : List ℕ) → is_empty clients ≡ true → is_client i clients ≡ true → ⊥
nobody i [] e h = ground arith
nobody i (c ∷ clients) e h = ground arith

-- A name of a map with one more entry.
inserted :
    (name other : Text) (r next : ℕ) (rooms : List (Text × ℕ))
    → lookup other (insert name next rooms) ≡ some r
    → ((name ≡ other) × (next ≡ r)) ⊎ (lookup other rooms ≡ some r)
inserted name other r next rooms m = elim (Bool-cases (text_eq name other)) [
  | inl same ↦
      (let e : some next ≡ some r = rw (lookup-insert name other next rooms, same) at m in
        inl ((text_eq_iff name other).0 same, cc))
  | inr apart ↦ inr (rw (lookup-insert name other next rooms, apart) at m)
]

-- A name of a map with one entry less.
pub removed_name :
    (name other : Text) (r : ℕ) (rooms : List (Text × ℕ))
    → lookup other (remove name rooms) ≡ some r
    → (text_eq name other ≡ false) × (lookup other rooms ≡ some r)
removed_name name other r rooms m = elim (Bool-cases (text_eq name other)) [
  | inl same ↦ cc (rw (lookup-remove name other rooms, same) at m)
  | inr apart ↦ (apart, rw (lookup-remove name other rooms, apart) at m)
]

pub make_room-Keeps :
    (site : Site) (name : Text) (count : ℕ)
    → IsSiteOk site
    → lookup name site.rooms ≡ none
    → Keeps everyone site (make_room name count site)
unfolding make_room IsClientOf update
make_room-Keeps site name count ok free = record {
  still_ok = record {
    opened = λ other r m.
        ground (arith, m, lookup-insert name other site.next site.rooms, ok.opened other r);
    made = λ other r m. elim (inserted name other r site.next site.rooms m) [
      | inl (_, e) ↦ omega (arith, e)
      | inr old ↦ omega (arith, ok.made other r old)
    ];
    one_name = λ a b r m n. elim (inserted name a r site.next site.rooms m) [
      | inl (e, x) ↦ elim (inserted name b r site.next site.rooms n) [
        | inl (f, _) ↦ sym e ∙ f
        | inr old ↦ absurd (omega (arith, x, ok.made b r old))
      ]
      | inr old ↦ elim (inserted name b r site.next site.rooms n) [
        | inl (_, x) ↦ absurd (omega (arith, x, ok.made a r old))
        | inr too ↦ ok.one_name a b r old too
      ]
    ];
  };
  made_more = λ r l. omega (arith, l);
  still_closed = λ r l c. ground (arith, l, c);
  mapped = λ other r m. inr (kept other r m);
  client = λ i other r w h. (
    kept other r h.0,
    rw (update_other site.heap site.next new_room r (ground (arith, ok.made other r h.0))) h.1,
  );
}
  where
    kept :
        (other : Text) (r : ℕ)
        → lookup other site.rooms ≡ some r
        → lookup other (insert name site.next site.rooms) ≡ some r
    kept other r m =
        ground
          (arith, m, free, lookup-insert name other site.next site.rooms, text_eq_iff name other)
