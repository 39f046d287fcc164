-- ===== src/Watches/Runs/Current.antt =====
-- One watch over any sequence of operations of the hub in crates/chudbot-web/src/vibe_collections.rs.
use mathlib.Core.List.{append_assoc, append-nil}
use chudbot.Common.{
  ℕ, true, ◌≡◌, refl, sym, ap, ◌∙◌, some, List, [], ◌∷◌, ◌++◌, Text, text_key, nat_key, lookup,
  lookup-insert, same_refl, ok, all, arith,
}
use chudbot.Watches.{Documents, CollectionChange, WatchClient}
use chudbot.Watches.Hub
use chudbot.Watches.Hub.{WatchLimits, WatchHub, offer_all, receive_at}
use chudbot.Watches.Sent.{messages_for, IsUpToDate}
use chudbot.Watches.Views.{clients_at, client_at, fresh_watch}
use chudbot.Watches.Views.Joined.{join-clients_at}
use chudbot.Watches.Runs.{WatchOp, keeps, changes_of, published, step, run}
use chudbot.Watches.Runs.Moves.{Watching, step-Watching}

module _ {V : Type 0} (documents : Documents V) (limits : WatchLimits) where
  module _ (n : ℕ) (c : Text) (id : ℕ) (filters : List (Text × V)) where
    run-Watching :
        (ops : List (WatchOp V)) (changes : List (CollectionChange V)) (hub : WatchHub V)
        → all (keeps n c id) ops ≡ true
        → Watching documents limits n c id filters changes (client_at n c id hub)
        → Watching documents limits n c id filters
            (changes ++ published n c ops)
            (client_at n c id (run documents limits ops hub))
    unfolding run published
    run-Watching [] changes hub kept (client, found, current) =
        (client, found, rw (append-nil changes) current)
    run-Watching (op ∷ ops) changes hub kept watching =
        let one : keeps n c id op ≡ true = ground (arith, kept) in
        let others : all (keeps n c id) ops ≡ true = ground (arith, kept) in
        rw (sym (append_assoc changes (changes_of n c op) (published n c ops))) (
          run-Watching ops (changes ++ changes_of n c op) (step documents limits op hub) others
            (step-Watching documents limits n c id filters op changes hub one watching))

    fresh_watch-IsUpToDate :
        IsUpToDate documents limits.outbound_queue filters [] (fresh_watch filters)
    unfolding IsUpToDate messages_for
    fresh_watch-IsUpToDate = (refl, omega arith, λ running. refl)

    -- After a join of a collection succeeds, through any operations on the hub but a join or a
    -- leave under the same identifier there, the watch stays, with its filters and no more in
    -- its channel than that holds; and unless it is cancelled, what its task has taken and then
    -- what is in the channel are exactly the messages of the changes published to that
    -- collection that match before or after, in order.
    pub run-IsUpToDate :
        (hub joined : WatchHub V) (ops : List (WatchOp V))
        → Hub.join limits n c id filters hub ≡ (joined, ok id)
        → all (keeps n c id) ops ≡ true
        → (client : WatchClient V) × (client_at n c id (run documents limits ops joined)
            ≡ some client)
          × IsUpToDate documents limits.outbound_queue filters (published n c ops) client
    run-IsUpToDate hub joined ops entered kept =
        let view = join-clients_at limits n n c c id filters hub in
        run-Watching ops [] joined kept (
          fresh_watch filters,
          sym (ap (λ r. client_at n c id r.0) entered)
              ∙ ap (λ clients. lookup id clients) view
              ∙ rw
                  (
                    ap (λ r. r.1) entered,
                    same_refl n,
                    same_refl c,
                    lookup-insert id id (fresh_watch filters) (clients_at n c hub),
                    same_refl id,
                  )
                  refl,
          fresh_watch-IsUpToDate,
        )
