-- ===== src/Watches/Count/Places.antt =====
-- One collection or one watch changes: the counters of crates/chudbot-web/src/vibe_collections.rs.
use chudbot.Common.{
  ℕ, ◌+◌, ◌-◌, ◌≤◌, ◌≡◌, refl, sym, inl, inr, none, some, List, ltb, is_empty, Text, text_key,
  nat_key, lookup, insert, Bool-cases, Option-cases, eq_of_some, arith,
}
use chudbot.Watches.{WatchClient, receive as receive_one}
use chudbot.Watches.Hub.{
  SiteWatches, WatchLimits, WatchHub, clients_in, remove_empty_collection, release_capacity,
  reserve_capacity, in_collection, receive_in,
}
use chudbot.Watches.Count.{total, IsUnique, weight_at, total-insert, Each, insert-IsUnique}
use chudbot.Watches.Count.Hub.{
  size, connections_of, IsCountedHub, insert-IsCountedSite, insert-IsCountedHub,
}

pub add_sub_one : (n : ℕ) → n + 1 - 1 ≡ n
add_sub_one n = omega arith

pub release_capacity-pred : (n : ℕ) → 1 ≤ n → release_capacity n ≡ n - 1
unfolding release_capacity
release_capacity-pred n h = ground (arith, h)

pub reserved_count :
    (counter maximum n : ℕ)
    → reserve_capacity counter maximum ≡ some n
    → (n ≡ counter + 1) × counter + 1 ≤ maximum
unfolding reserve_capacity
reserved_count counter maximum n h = elim (Bool-cases (ltb counter maximum)) [
  | inl room ↦ (sym (eq_of_some (rw (room) at h)), ground (arith, room))
  | inr full ↦ cc (rw (full) at h)
]

pub connections-remove_empty_collection :
    {V : Type 0} (c : Text) (site : SiteWatches V)
    → (remove_empty_collection c site).connections ≡ site.connections
unfolding remove_empty_collection
connections-remove_empty_collection c site = elim (Option-cases (lookup c site.collections)) [
  | inl h ↦ rw (remove_empty_collection, h) refl
  | inr (clients, h) ↦ elim (Bool-cases (is_empty clients)) [
    | inl bare ↦ rw (remove_empty_collection, h, bare) refl
    | inr full ↦ rw (remove_empty_collection, h, full) refl
  ]
]

module _ {V : Type 0} (limits : WatchLimits) where
  -- A client more or less.
  pub size-insert :
      (id : ℕ) (client : WatchClient V) (clients : List (ℕ × WatchClient V))
      → lookup id clients ≡ none
      → size (insert id client clients) ≡ size clients + 1
  size-insert id client clients fresh =
      omega (arith, total-insert (λ c. 1) id client clients, weight_none)
    where
      weight_none : weight_at (λ c. 1) id clients ≡ 0
      weight_none = rw (weight_at, fresh) refl

  pub clients_in-weight :
      (c : Text) (site : SiteWatches V)
      → weight_at size c site.collections ≡ size (clients_in c site)
  unfolding total
  clients_in-weight c site = elim (Option-cases (lookup c site.collections)) [
    | inl h ↦ rw (weight_at, clients_in, h) refl
    | inr (clients, h) ↦ rw (weight_at, clients_in, h) refl
  ]

  pub clients_in-IsUnique :
      (c : Text) (site : SiteWatches V)
      → Each (λ clients. IsUnique clients) site.collections
      → IsUnique (clients_in c site)
  unfolding IsUnique
  clients_in-IsUnique c site each = elim (Option-cases (lookup c site.collections)) [
    | inl h ↦ rw (clients_in, h) tt
    | inr (clients, h) ↦ rw (clients_in, h) (each c clients h)
  ]

  pub in_collection-IsCountedHub :
      (n : ℕ) (c : Text) (f : List (ℕ × WatchClient V) → List (ℕ × WatchClient V))
      (hub : WatchHub V)
      → ((clients : List (ℕ × WatchClient V)) → IsUnique clients → IsUnique (f clients))
      → ((clients : List (ℕ × WatchClient V)) → size (f clients) ≡ size clients)
      → IsCountedHub limits hub
      → IsCountedHub limits (in_collection n c f hub)
  unfolding IsCountedHub
  in_collection-IsCountedHub n c f hub keeps_unique keeps_size (unique, each, counted, fits) =
      elim (Option-cases (lookup n hub.sites)) [
        | inl gone ↦ rw (in_collection, gone) (unique, each, counted, fits)
        | inr (site, found) ↦ elim (Option-cases (lookup c site.collections)) [
          | inl gone ↦ rw (in_collection, found, gone) (unique, each, counted, fits)
          | inr (clients, there) ↦
              (let (su, se, sc, sf) = each n site found in
                let there_weight : weight_at size c site.collections ≡ size clients =
                  rw (weight_at, there) refl in
                let here_weight : weight_at connections_of n hub.sites ≡ site.connections =
                  rw (weight_at, found) refl in
                rw (in_collection, found, there)
                  (insert-IsCountedHub limits n _ hub hub.connections (unique, each, counted, fits)
                    (insert-IsCountedSite limits c (f clients) site site.connections su se
                      (keeps_unique clients (se c clients there))
                      (omega (arith, sc, there_weight, keeps_size clients)) sf)
                    (omega (arith, here_weight)) fits))
        ]
      ]

  pub receive_in-IsUnique :
      (id : ℕ) (clients : List (ℕ × WatchClient V))
      → IsUnique clients
      → IsUnique (receive_in id clients)
  unfolding receive_in
  receive_in-IsUnique id clients unique = elim (Option-cases (lookup id clients)) [
    | inl h ↦ rw (receive_in, h) unique
    | inr (client, h) ↦ rw (receive_in, h) (insert-IsUnique id _ clients unique)
  ]

  pub size-receive_in :
      (id : ℕ) (clients : List (ℕ × WatchClient V)) → size (receive_in id clients) ≡ size clients
  unfolding receive_in
  size-receive_in id clients = elim (Option-cases (lookup id clients)) [
    | inl h ↦ rw (receive_in, h) refl
    | inr (client, h) ↦
        (let here : weight_at (λ c. 1) id clients ≡ 1 = rw (weight_at, h) refl in
          rw (receive_in, h)
            (omega (arith, total-insert (λ c. 1) id (receive_one client) clients, here)))
  ]
