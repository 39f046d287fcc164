-- ===== src/Watches.antt =====
-- Watches of a vibe collection, crates/chudbot-web/src/vibe_collections.rs: the subscription, and the changes that
-- one watch is sent.
pub mod Hub
pub mod Sent
pub mod Views
pub mod Runs
pub mod Count
pub mod Tests
use chudbot.Common.{
  ℕ, ◌+◌, Bool, true, false, ◌&&◌, ◌||◌, not, Option, none, some, List, [], ◌∷◌, ◌++◌,
  if◌then◌else◌, all, any, ltb, leb, length, ◌==◌, Text, codes, text_eq, text_key, lookup, Result,
  ok, err,
}
use chudbot.Anthropic.{Wire}

-- `==` of `serde_json::Value`.
pub record Documents (V : Type 0) : Type 0 where
  pub wire : Wire V
  pub same : V → V → Bool

pub data ChangeKind : Type 0 where
  insert update delete : ChangeKind

pub record CollectionChange (V : Type 0) : Type 0 where
  pub kind : ChangeKind
  pub before : Option V
  pub after : Option V

pub record WatchError : Type 0 where
  pub code : Text
  pub message : Text

pub record SubscribeMessage (V : Type 0) : Type 0 where
  pub kind : Text
  pub filters : List (Text × V)

-- What comes of waiting for the first message.
pub data Received : Type 0 where
  text : Text → Received
  other_message closed timed_out : Received

abbrev pub max_filters : ℕ
max_filters = 64

abbrev pub invalid_watch : WatchError
invalid_watch = record {
  code = codes "invalid_watch";
  message = codes "The collection watch subscription is invalid.";
}

-- The name that serde gives a kind.
abbrev pub kind_name : ChangeKind → Text
kind_name ChangeKind.insert = codes "insert"
kind_name ChangeKind.update = codes "update"
kind_name ChangeKind.delete = codes "delete"

module _ {V : Type 0} (documents : Documents V) where
  unfoldable pub is_json_scalar : V → Bool
  is_json_scalar value = elim (documents.wire.as_array value) [
    | some _ ↦ false
    | none ↦ elim (documents.wire.json.as_object value) [ some _ ↦ false | none ↦ true ]
  ]

  unfoldable pub valid_filter : V → Bool
  unfolding is_json_scalar
  valid_filter value = elim (documents.wire.as_array value) [
    | some values ↦ all is_json_scalar values
    | none ↦ is_json_scalar value
  ]

  unfoldable pub equals_expected : V → V → Bool
  equals_expected actual expected = elim (documents.wire.as_array expected) [
    | some values ↦ any (λ value. documents.same value actual) values
    | none ↦ documents.same expected actual
  ]

  -- One filter on the fields of a document.
  unfoldable pub column_matches : List (Text × V) → Text × V → Bool
  unfolding lookup is_json_scalar equals_expected
  column_matches fields (column, expected) = elim (lookup column fields) [
    | none ↦ false
    | some actual ↦ if is_json_scalar actual then equals_expected actual expected else false
  ]

  unfoldable pub document_matches : Option V → List (Text × V) → Bool
  unfolding column_matches
  document_matches none filters = false
  document_matches (some document) filters = elim (documents.wire.json.as_object document) [
    | none ↦ false
    | some fields ↦ all (column_matches fields) filters
  ]

  -- `parse` is `serde_json::from_str`, `byte_length` is `str::len`.
  unfoldable pub receive_subscription :
      (Text → Option (SubscribeMessage V))
      → (Text → ℕ)
      → ℕ
      → Received
      → Result WatchError (List (Text × V))
  unfolding valid_filter text_eq
  receive_subscription parse byte_length max_message_bytes (Received.text t) =
      if leb (byte_length t) max_message_bytes
      then (elim (parse t) [
        | none ↦ err invalid_watch
        | some request ↦
            if not (text_eq request.kind (codes "watch"))
              || ltb max_filters (length request.filters)
              || not (all (λ f. valid_filter f.1) request.filters)
            then err invalid_watch
            else ok request.filters
      ])
      else err (record {
        code = codes "invalid_watch";
        message = codes "The first watch message must be a JSON subscription.";
      })
  receive_subscription parse byte_length max_message_bytes Received.other_message = err (record {
    code = codes "invalid_watch";
    message = codes "The first watch message must be a JSON subscription.";
  })
  receive_subscription parse byte_length max_message_bytes Received.closed = err (record {
    code = codes "connection_closed";
    message = codes "The collection watch closed before subscribing.";
  })
  receive_subscription parse byte_length max_message_bytes Received.timed_out = err (record {
    code = codes "subscribe_timeout";
    message = codes "The collection watch timed out before subscribing.";
  })

  -- A value that may be missing, as serde writes it.
  abbrev pub optional : Option V → V
  optional none = documents.wire.json.values.null
  optional (some value) = value

  -- `or`.
  abbrev pub document_of : CollectionChange V → Option V
  document_of change = elim (change.after) [ some value ↦ some value | none ↦ change.before ]

  unfoldable pub change_message : CollectionChange V → Bool → Bool → Text
  change_message change matches_before matches_after =
      let values = documents.wire.json.values in
      documents.wire.to_string (
        values.object (
          (codes "type", values.string (codes "change"))
          ∷ (codes "changeType", values.string (kind_name change.kind))
          ∷ (codes "document", optional (document_of change))
          ∷ (codes "before", optional change.before)
          ∷ (codes "after", optional change.after)
          ∷ (codes "matchesBefore", values.bool matches_before)
          ∷ (codes "matchesAfter", values.bool matches_after)
          ∷ []))

-- A watch: `queued` is in the channel, `received` is what its task has taken from there. `cancelled` is
-- the state of the token.
pub record WatchClient (V : Type 0) : Type 0 where
  pub filters : List (Text × V)
  pub queued : List Text
  pub received : List Text
  pub cancelled : Bool

module _ {V : Type 0} where
  -- `try_send`: the client with the message, if the channel has room.
  unfoldable pub try_send : ℕ → Text → WatchClient V → Option (WatchClient V)
  try_send outbound_queue message client =
      if ltb (length client.queued) outbound_queue
      then some (record client { queued = client.queued ++ message ∷ [] })
      else none

  -- The task takes a message from its channel.
  unfoldable pub receive : WatchClient V → WatchClient V
  receive client = elim (client.queued) [
    | [] ↦ client
    | message ∷ rest ↦ record client { queued = rest; received = client.received ++ message ∷ [] }
  ]

module _ {V : Type 0} (documents : Documents V) (outbound_queue : ℕ) where
  -- The loop over the changes for one client.
  unfoldable pub offer_changes : List (CollectionChange V) → WatchClient V → WatchClient V
  unfolding document_matches change_message try_send
  offer_changes [] client = client
  offer_changes (change ∷ changes) client =
      let matches_before = document_matches documents change.before client.filters in
      let matches_after = document_matches documents change.after client.filters in
      let skipped = offer_changes changes client in
      if not matches_before && not matches_after
      then skipped
      else (elim (try_send outbound_queue
          (change_message documents change matches_before matches_after) client) [
            | some next ↦ offer_changes changes next
            | none ↦ record client { cancelled = true }
          ])
