-- ===== src/Watches/Tests.antt =====
-- Watches of crates/chudbot-web/src/vibe_collections.rs on a concrete hub.
use chudbot.Common.{
  arith, ◌≡◌, refl, Bool, true, false, none, some, List, [], ◌∷◌, Text, codes, text_eq, lookup,
  insert,
}
use chudbot.Fixtures.{Value, anthropic_wire, string, object, from_list}
use chudbot.Watches.{Documents, CollectionChange, ChangeKind, WatchClient, offer_changes}
use chudbot.Watches.Hub.{WatchLimits, WatchHub, SiteWatches}
use chudbot.Watches.Hub
use chudbot.Watches.Sent.{IsUpToDate, message_of, messages_for, sent, offer_changes_lem}
use chudbot.Watches.Views.{client_at, fresh_watch}
use chudbot.Watches.Runs.{WatchOp, run, keeps, published}
use chudbot.Watches.Count.{total, IsUnique}
use chudbot.Watches.Count.Hub.{IsCountedHub}
use chudbot.Watches.Count.Runs.{IsFreshRun, run-IsCountedHub}
use chudbot.Watches.Runs.Current.{run-IsUpToDate}

abbrev same : Value → Value → Bool
same (string a) (string b) = text_eq a b
same _ _ = false

abbrev documents : Documents Value
documents = record { wire = anthropic_wire; same = same }

abbrev document : Text → Value
document owner = object (from_list ((codes "owner", string owner) ∷ []))

abbrev filters : List (Text × Value)
filters = (codes "owner", string (codes "ann")) ∷ []

-- Ann's document becomes Bob's, then is deleted.
abbrev given_away : CollectionChange Value
given_away = record {
  kind = ChangeKind.update;
  before = some (document (codes "ann"));
  after = some (document (codes "bob"));
}

abbrev deleted : CollectionChange Value
deleted = record { kind = ChangeKind.delete; before = some (document (codes "bob")); after = none }

abbrev limits : WatchLimits
limits = record { max_connections = 2; max_connections_per_site = 2; outbound_queue = 1 }

abbrev empty : WatchHub Value
empty = record { sites = []; connections = 0 }

abbrev joined : WatchHub Value
joined = record {
  sites =
      (
        1,
        record {
          collections = (codes "todo", (7, fresh_watch filters) ∷ []) ∷ [];
          connections = 1;
        },
      )
      ∷ [];
  connections = 1;
}

abbrev ops : List (WatchOp Value)
ops =
    WatchOp.publish 1 (codes "todo") (given_away ∷ deleted ∷ [])
    ∷ WatchOp.receive 1 (codes "todo") 7
    ∷ WatchOp.join 1 (codes "todo") 8 []
    ∷ WatchOp.publish 1 (codes "other") (given_away ∷ [])
    ∷ WatchOp.publish 1 (codes "todo") (given_away ∷ [])
    ∷ []

abbrev joined_ops : List (WatchOp Value)
joined_ops =
    WatchOp.join 1 (codes "todo") 7 filters
    ∷ WatchOp.publish 1 (codes "todo") (given_away ∷ [])
    ∷ WatchOp.leave 1 (codes "todo") 7
    ∷ []

-- One message is taken and one waits.
run_client :
    client_at 1 (codes "todo") 7 (run documents limits ops joined)
    ≡ some (record {
      filters = filters;
      queued = message_of documents filters given_away ∷ [];
      received = message_of documents filters given_away ∷ [];
      cancelled = false;
    })
unfolding run text_eq lookup insert Hub.publish Hub.receive_at Hub.join offer_changes
run_client = refl

run-IsUpToDate_example :
    (client : WatchClient Value) × (client_at 1 (codes "todo") 7 (run documents limits ops joined)
      ≡ some client)
    × IsUpToDate documents 1 filters (published 1 (codes "todo") ops) client
unfolding Hub.join keeps text_eq lookup insert
run-IsUpToDate_example =
    run-IsUpToDate documents limits 1 (codes "todo") 7 filters empty joined ops refl refl

-- The second message finds the channel full.
offer_changes_lem_example :
    offer_changes documents 1 (given_away ∷ given_away ∷ []) (fresh_watch filters)
    ≡ sent documents 1
        (messages_for documents filters (given_away ∷ given_away ∷ []))
        (fresh_watch filters)
offer_changes_lem_example =
    offer_changes_lem documents 1 (given_away ∷ given_away ∷ []) (fresh_watch filters)

full_client :
    (offer_changes documents 1 (given_away ∷ given_away ∷ []) (fresh_watch filters)).cancelled
    ≡ true
unfolding offer_changes text_eq lookup
full_client = refl

run-IsCountedHub_example : IsCountedHub limits (run documents limits joined_ops empty)
unfolding IsCountedHub total IsUnique IsFreshRun lookup insert text_eq Hub.join
run-IsCountedHub_example =
    run-IsCountedHub documents limits joined_ops empty (omega arith) (refl, tt)
      (tt, (λ k v h. cc), refl, omega arith)
