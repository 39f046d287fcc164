-- ===== src/Watches/Runs/Moves.antt =====
-- One operation of the hub in crates/chudbot-web/src/vibe_collections.rs, seen from one watch.
use mathlib.Core.Option
use mathlib.Core.List.{append-nil}
use chudbot.Common.{
  ℕ, true, false, not, ◌&&◌, ◌≡◌, refl, ◌∙◌, inl, inr, Option, some, List, [], ◌++◌, if◌then◌else◌,
  ◌==◌, Text, text_eq, text_key, nat_key, nat_same_iff, text_eq_iff, lookup, insert, remove,
  lookup-insert, lookup-remove, Bool-cases, ok, err, arith,
}
use chudbot.Watches.{
  Documents, CollectionChange, WatchClient, offer_changes, receive as receive_one,
}
use chudbot.Watches.Hub
use chudbot.Watches.Hub.{WatchLimits, WatchHub, offer_all, receive_at}
use chudbot.Watches.Sent.{IsUpToDate, offer_changes-IsUpToDate, receive-IsUpToDate}
use chudbot.Watches.Views.{clients_at, client_at, fresh_watch}
use chudbot.Watches.Views.Changed.{
  publish-clients_at, receive_at-clients_at, lookup-offer_all, lookup-receive_in,
}
use chudbot.Watches.Views.Left.{leave-clients_at}
use chudbot.Watches.Views.Joined.{join-clients_at}
use chudbot.Watches.Runs.{WatchOp, keeps, changes_of, published, step}

module _ {V : Type 0} (documents : Documents V) (limits : WatchLimits) where
  module _ (n : ℕ) (c : Text) (id : ℕ) (filters : List (Text × V)) where
    -- The watch is there and up to date.
    abbrev pub Watching : List (CollectionChange V) → Option (WatchClient V) → Type 0
    Watching changes found =
        (client : WatchClient V) × (found ≡ some client)
        × IsUpToDate documents limits.outbound_queue filters changes client

    moved :
        (changes : List (CollectionChange V)) (before after : Option (WatchClient V))
        → after ≡ before
        → Watching changes before
        → Watching (changes ++ []) after
    moved changes before after same (client, found, current) =
        (client, same ∙ found, rw (append-nil changes) current)

    same_place :
        (m : ℕ) (d : Text) (hub : WatchHub V)
        → (m == n && text_eq d c) ≡ true
        → clients_at m d hub ≡ clients_at n c hub
    same_place m d hub place =
        let name_eq = (nat_same_iff m n).0 (ground (arith, place)) in
        let collection_eq = (text_eq_iff d c).0 (ground (arith, place)) in
        rw (name_eq, collection_eq) refl

    -- A change to another watch of the place.
    kept_place :
        (m : ℕ) (d : Text) (i : ℕ) (hub : WatchHub V)
        (f : List (ℕ × WatchClient V) → List (ℕ × WatchClient V))
        → ((i == id) ≡ false
            → (clients : List (ℕ × WatchClient V)) → lookup id (f clients) ≡ lookup id clients)
        → not ((m == n && text_eq d c) && i == id) ≡ true
        → lookup id (if m == n && text_eq d c then f (clients_at m d hub) else clients_at n c hub)
          ≡ client_at n c id hub
    kept_place m d i hub f other kept = elim (Bool-cases (m == n && text_eq d c)) [
      | inr away ↦ rw (away) refl
      | inl here ↦
          rw (here, same_place m d hub here)
            (other (ground (arith, here, kept)) (clients_at n c hub))
    ]

    join-client_at :
        (m : ℕ) (d : Text) (i : ℕ) (f : List (Text × V)) (hub : WatchHub V)
        → keeps n c id (WatchOp.join m d i f) ≡ true
        → client_at n c id (Hub.join limits m d i f hub).0 ≡ client_at n c id hub
    unfolding keeps
    join-client_at m d i f hub kept =
        rw (client_at, join-clients_at limits m n d c i f hub)
          (elim ((Hub.join limits m d i f hub).1)
            as (λ r.
              lookup id (elim r [
                | err _ ↦ clients_at n c hub
                | ok _ ↦
                    if m == n && text_eq d c
                    then insert i (fresh_watch f) (clients_at m d hub)
                    else clients_at n c hub
              ])
              ≡ client_at n c id hub) [
                | err _ ↦ refl
                | ok _ ↦
                    kept_place m d i hub (insert i (fresh_watch f))
                      (λ other clients. rw (lookup-insert i id (fresh_watch f) clients, other) refl)
                      kept
              ])

    client_at-publish :
        (m : ℕ) (d : Text) (more : List (CollectionChange V)) (hub : WatchHub V)
        → client_at n c id (Hub.publish documents limits.outbound_queue m d more hub) ≡ (
            if m == n && text_eq d c
            then Option.map
                (offer_changes documents limits.outbound_queue more)
                (client_at n c id hub)
            else client_at n c id hub)
    client_at-publish m d more hub =
        rw (client_at, publish-clients_at documents limits.outbound_queue m n d c more hub)
          (elim (Bool-cases (m == n && text_eq d c)) [
            | inr away ↦ rw (away) refl
            | inl here ↦
                rw
                  (
                    here,
                    same_place m d hub here,
                    lookup-offer_all documents limits.outbound_queue more (clients_at n c hub) id,
                  )
                  refl
          ])

    client_at-receive_at :
        (m : ℕ) (d : Text) (i : ℕ) (hub : WatchHub V)
        → client_at n c id (receive_at m d i hub) ≡ (
            if (m == n && text_eq d c) && i == id
            then Option.map receive_one (client_at n c id hub)
            else client_at n c id hub)
    client_at-receive_at m d i hub =
        rw (client_at, receive_at-clients_at m n d c i hub)
          (elim (Bool-cases (m == n && text_eq d c)) [
            | inr away ↦ rw (away) refl
            | inl here ↦
                rw (here, same_place m d hub here, lookup-receive_in i id (clients_at n c hub)) refl
          ])

    publish-Watching :
        (m : ℕ) (d : Text) (more changes : List (CollectionChange V)) (hub : WatchHub V)
        → Watching changes (client_at n c id hub)
        → Watching
            (changes ++ (if m == n && text_eq d c then more else []))
            (client_at n c id (Hub.publish documents limits.outbound_queue m d more hub))
    publish-Watching m d more changes hub (client, found, current) =
        let sent = client_at-publish m d more hub in
        elim (Bool-cases (m == n && text_eq d c)) [
          | inr away ↦ rw (away) (
              moved changes (client_at n c id hub) _ (sent ∙ rw (away) refl)
                (client, found, current))
          | inl here ↦ rw (here) (
            offer_changes documents limits.outbound_queue more client,
            sent ∙ rw (here, found) refl,
            offer_changes-IsUpToDate documents limits.outbound_queue filters changes more client
                current,
          )
        ]

    receive-Watching :
        (m : ℕ) (d : Text) (i : ℕ) (changes : List (CollectionChange V)) (hub : WatchHub V)
        → Watching changes (client_at n c id hub)
        → Watching (changes ++ []) (client_at n c id (receive_at m d i hub))
    receive-Watching m d i changes hub (client, found, current) =
        let taken = client_at-receive_at m d i hub in
        elim (Bool-cases ((m == n && text_eq d c) && i == id)) [
          | inr away ↦
              moved changes (client_at n c id hub) _ (taken ∙ rw (away) refl)
                (client, found, current)
          | inl here ↦ moved changes (some (receive_one client)) _ (taken ∙ rw (here, found) refl) (
            receive_one client,
            refl,
            receive-IsUpToDate documents limits.outbound_queue filters changes client current,
          )
        ]

    pub step-Watching :
        (op : WatchOp V) (changes : List (CollectionChange V)) (hub : WatchHub V)
        → keeps n c id op ≡ true
        → Watching changes (client_at n c id hub)
        → Watching (changes ++ changes_of n c op) (client_at n c id (step documents limits op hub))
    unfolding step keeps changes_of
    step-Watching (WatchOp.join m d i f) changes hub kept watching =
        moved changes (client_at n c id hub) _ (join-client_at m d i f hub kept) watching
    step-Watching (WatchOp.leave m d i) changes hub kept watching =
        moved changes (client_at n c id hub) _
          (rw (client_at, leave-clients_at m n d c i hub)
            (kept_place m d i hub (remove i)
              (λ other clients. rw (lookup-remove i id clients, other) refl) kept))
          watching
    step-Watching (WatchOp.publish m d published) changes hub kept watching =
        publish-Watching m d published changes hub watching
    step-Watching (WatchOp.receive m d i) changes hub kept watching =
        receive-Watching m d i changes hub watching
