-- ===== src/Watches/Runs.antt =====
-- One watch over any sequence of operations of the hub in crates/chudbot-web/src/vibe_collections.rs.
pub mod Moves
pub mod Current
use mathlib.Core.Option
use mathlib.Core.List.{append_assoc, append-nil}
use chudbot.Common.{
  ℕ, Bool, true, false, not, ◌&&◌, ◌≡◌, refl, sym, ap, ◌∙◌, inl, inr, Option, some, List, [], ◌∷◌,
  ◌++◌, if◌then◌else◌, ◌==◌, Text, text_eq, text_key, nat_key, nat_same_iff, text_eq_iff, lookup,
  insert, remove, lookup-insert, lookup-remove, same_refl, Bool-cases, ok, err, all, arith,
}
use chudbot.Watches.{
  Documents, CollectionChange, WatchClient, offer_changes, receive as receive_one,
}
use chudbot.Watches.Hub
use chudbot.Watches.Hub.{WatchLimits, WatchHub, offer_all, receive_at}
use chudbot.Watches.Sent.{messages_for, IsUpToDate, offer_changes-IsUpToDate, receive-IsUpToDate}
use chudbot.Watches.Views.{clients_at, client_at, fresh_watch}
use chudbot.Watches.Views.Changed.{
  publish-clients_at, receive_at-clients_at, lookup-offer_all, lookup-receive_in,
}
use chudbot.Watches.Views.Left.{leave-clients_at}
use chudbot.Watches.Views.Joined.{join-clients_at}

pub data WatchOp (V : Type 0) : Type 0 where
  join : ℕ → Text → ℕ → List (Text × V) → WatchOp V
  leave : ℕ → Text → ℕ → WatchOp V
  publish : ℕ → Text → List (CollectionChange V) → WatchOp V
  receive : ℕ → Text → ℕ → WatchOp V

module _ {V : Type 0} (n : ℕ) (c : Text) (id : ℕ) where
  -- The operation is neither a join nor a leave of the watch.
  unfoldable pub keeps : WatchOp V → Bool
  unfolding text_eq
  keeps (WatchOp.join m d i _) = not ((m == n && text_eq d c) && i == id)
  keeps (WatchOp.leave m d i) = not ((m == n && text_eq d c) && i == id)
  keeps (WatchOp.publish _ _ _) = true
  keeps (WatchOp.receive _ _ _) = true

module _ {V : Type 0} (n : ℕ) (c : Text) where
  -- What the operation publishes to the collection.
  unfoldable pub changes_of : WatchOp V → List (CollectionChange V)
  unfolding text_eq
  changes_of (WatchOp.publish m d changes) = if m == n && text_eq d c then changes else []
  changes_of (WatchOp.join _ _ _ _) = []
  changes_of (WatchOp.leave _ _ _) = []
  changes_of (WatchOp.receive _ _ _) = []

  unfoldable pub published : List (WatchOp V) → List (CollectionChange V)
  unfolding changes_of
  published [] = []
  published (op ∷ ops) = changes_of op ++ published ops

module _ {V : Type 0} (documents : Documents V) (limits : WatchLimits) where
  abbrev pub outbound_queue : ℕ
  outbound_queue = limits.outbound_queue

  unfoldable pub step : WatchOp V → WatchHub V → WatchHub V
  unfolding Hub.join
  step (WatchOp.join n c id filters) hub = (Hub.join limits n c id filters hub).0
  step (WatchOp.leave n c id) hub = Hub.leave n c id hub
  step (WatchOp.publish n c changes) hub =
      Hub.publish documents limits.outbound_queue n c changes hub
  step (WatchOp.receive n c id) hub = receive_at n c id hub

  unfoldable pub run : List (WatchOp V) → WatchHub V → WatchHub V
  unfolding step
  run [] hub = hub
  run (op ∷ ops) hub = run ops (step op hub)
