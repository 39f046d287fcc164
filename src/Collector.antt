-- ===== src/Collector.antt =====
-- crates/chudbot-api/src/collector.rs: the reducer that folds the events of one model step.
-- Its state and operations; the laws are in the child modules.
pub mod Valid
pub mod Content
pub mod Pushes
pub mod Stream
pub mod Step
pub mod Outcome
pub mod Last
mod Tests
use mathlib.Core.Option
use chudbot.Common.{
  ℕ, Bool, true, false, not, ◌&&◌, ◌||◌, Option, none, some, List, [], ◌∷◌, ◌++◌, map, ◌≡◌, refl,
  is_empty, if◌then◌else◌, Text, text_eq, option_text_eq, trim, text_key, lookup, insert,
}
use chudbot.Model.{
  UsageRecord, ReasoningItem, ReasoningSummary, ClientToolCall, ModelStepKind, ModelOutputBlock,
  ModelStepItem, ModelStepOutput, ModelStep, ModelStepDelta, ModelStepEvent,
}

pub data PendingKind : Type 0 where
  text reasoning client_tool_call : PendingKind

pub record PendingReasoningSummary : Type 0 where
  pub kind : Option Text
  pub text : Text

-- `text item_id text`, `reasoning item_id provider summaries` and
-- `client_tool_call item_id id name arguments`.
pub data PendingItem : Type 0 where
  text : Text → Text → PendingItem
  reasoning : Text → Text → List PendingReasoningSummary → PendingItem
  client_tool_call : Text → Text → Option Text → Text → PendingItem

-- `ModelStepReducerError`. The last one carries the tool-use id, the raw arguments and the message
-- of the JSON parser.
pub data ReducerError : Type 0 where
  missing_finished duplicate_finished event_after_finished : ReducerError
  inconsistent_item_id : Text → ReducerError
  inconsistent_reasoning_provider : Text → Text → Text → ReducerError
  inconsistent_tool_use_id : Text → Text → Text → ReducerError
  inconsistent_tool_name : Text → Text → Text → ReducerError
  missing_tool_name : Text → ReducerError
  invalid_tool_arguments : Text → Text → Text → ReducerError

pub data OutputSlot (V : Type 0) : Type 0 where
  collected : ModelStepItem V → OutputSlot V
  usage : UsageRecord V → OutputSlot V
  pending : PendingItem → OutputSlot V

-- `ModelStepCollector`; `ids` is a map from item ids to their kinds.
pub record Collector (V : Type 0) : Type 0 where
  pub slots : List (OutputSlot V)
  pub ids : List (Text × PendingKind)
  pub finished : Option (ModelStepKind × Text)

abbrev pub empty : {V : Type 0} → Collector V
empty = record { slots = []; ids = []; finished = none }

abbrev pub kind_eq : PendingKind → PendingKind → Bool
kind_eq text text = true
kind_eq reasoning reasoning = true
kind_eq client_tool_call client_tool_call = true
kind_eq _ _ = false

-- `PendingItem::new` and `PendingItem::item_id`.
unfoldable pub new : Text → PendingKind → PendingItem
new item_id text = text item_id []
new item_id reasoning = reasoning item_id [] []
new item_id client_tool_call = client_tool_call item_id [] none []

unfoldable pub item_id : PendingItem → Text
item_id (text id _) = id
item_id (reasoning id _ _) = id
item_id (client_tool_call id _ _ _) = id

-- What a delta does to the slot that it goes to: the new item, and the error if there is one.
abbrev pub Updated : Type 0
Updated = PendingItem × Option ReducerError

unfoldable pub push_text : Text → Text → PendingItem → Updated
push_text id delta (text i t) = (text i (t ++ delta), none)
push_text id delta (reasoning i p s) = (reasoning i p s, some (inconsistent_item_id id))
push_text id delta (client_tool_call i u n a) =
    (client_tool_call i u n a, some (inconsistent_item_id id))

-- `summaries.last_mut()` is extended if its kind is the delta's; otherwise a summary is added.
unfoldable pub push_summary :
    Option Text → Text → List PendingReasoningSummary → List PendingReasoningSummary
push_summary kind delta [] = record { kind = kind; text = delta } ∷ []
push_summary kind delta (s ∷ []) =
    if option_text_eq s.kind kind
    then record s { text = s.text ++ delta } ∷ []
    else s ∷ record { kind = kind; text = delta } ∷ []
push_summary kind delta (s ∷ t ∷ rest) = s ∷ push_summary kind delta (t ∷ rest)

unfoldable pub push_reasoning : Text → Text → Option Text → Text → PendingItem → Updated
unfolding push_summary
push_reasoning id provider kind delta (text i t) = (text i t, some (inconsistent_item_id id))
push_reasoning id provider kind delta (client_tool_call i u n a) =
    (client_tool_call i u n a, some (inconsistent_item_id id))
push_reasoning id provider kind delta (reasoning i existing summaries) =
    if is_empty existing
    then (reasoning i provider (push_summary kind delta summaries), none)
    else (if text_eq existing provider
        then (reasoning i existing (push_summary kind delta summaries), none)
        else (
          reasoning i existing summaries,
          some (inconsistent_reasoning_provider i existing provider),
        ))

-- The tool name of the item after a delta's name, if there is a conflict the two names.
unfoldable pub push_name : Text → Option Text → Option Text → Option Text × Option ReducerError
push_name i existing none = (existing, none)
push_name i none (some name) = (some name, none)
push_name i (some previous) (some name) = (
  some previous,
  (if text_eq previous name then none else some (inconsistent_tool_name i previous name)),
)

-- The arguments grow only if the name was accepted; the tool-use id stays set in any case.
unfoldable pub push_call : Text → Text → Option Text → Text → PendingItem → Updated
unfolding push_name
push_call key id name delta (client_tool_call i existing n a) =
    let named = push_name i n name in
    let item =
      PendingItem.client_tool_call i (if is_empty existing then id else existing) named.0
        (elim named.1 [ none ↦ a ++ delta | some e ↦ a ]) in
    if is_empty existing || text_eq existing id
    then (item, named.1)
    else (client_tool_call i existing n a, some (inconsistent_tool_use_id i existing id))
push_call key id name delta other = (other, some (inconsistent_item_id key))

unfoldable pub kind_of : PendingItem → PendingKind
kind_of (text _ _) = text
kind_of (reasoning _ _ _) = reasoning
kind_of (client_tool_call _ _ _ _) = client_tool_call

abbrev pub is_some {ℓ} : {A : Type ℓ} → Option A → Bool
is_some none = false
is_some (some _) = true

-- A push: the new state and the error; `none` where the source panics.
abbrev pub Pushed : Type 0 → Type 0
Pushed V = Option (Collector V × Option ReducerError)

module _ {V : Type 0} where
  -- The item of the first pending slot with the key is updated; `none` means that there is no
  -- such slot, where the source's `expect` panics.
  unfoldable pub update_pending :
      Text
      → (PendingItem → Updated)
      → List (OutputSlot V)
      → Option (List (OutputSlot V) × Option ReducerError)
  update_pending key f [] = none
  update_pending key f (collected item ∷ rest) =
      Option.map (λ r. (collected item ∷ r.0, r.1)) (update_pending key f rest)
  update_pending key f (usage record' ∷ rest) =
      Option.map (λ r. (usage record' ∷ r.0, r.1)) (update_pending key f rest)
  update_pending key f (pending p ∷ rest) =
      if text_eq (item_id p) key
      then some (pending (f p).0 ∷ rest, (f p).1)
      else Option.map (λ r. (pending p ∷ r.0, r.1)) (update_pending key f rest)

  -- `pending_slot`, and the update of the slot that it lends out.
  unfoldable pub pending_slot :
      Text → PendingKind → (PendingItem → Updated) → Collector V → Pushed V
  unfolding update_pending new
  pending_slot key kind f c = elim (lookup key c.ids) [
    | none ↦ some (
      record c {
        ids = insert key kind c.ids;
        slots = c.slots ++ pending (f (new key kind)).0 ∷ [];
      },
      (f (new key kind)).1,
    )
    | some existing_kind ↦
        if kind_eq existing_kind kind
        then Option.map (λ r. (record c { slots = r.0 }, r.1)) (update_pending key f c.slots)
        else some (c, some (inconsistent_item_id key))
  ]

  unfoldable pub push_delta : ModelStepDelta → Collector V → Pushed V
  unfolding pending_slot push_text push_reasoning push_call
  push_delta (ModelStepDelta.text id delta) = pending_slot id text (push_text id delta)
  push_delta (ModelStepDelta.reasoning_summary id provider kind delta) =
      pending_slot id reasoning (push_reasoning id provider kind delta)
  push_delta (ModelStepDelta.client_tool_call key id name delta) =
      pending_slot key client_tool_call (push_call key id name delta)

  abbrev pub append_slot : OutputSlot V → Collector V → Pushed V
  append_slot slot c = some (record c { slots = c.slots ++ slot ∷ [] }, none)

  -- The `match event` of `push`; a second `finished` replaces the first and is an error.
  unfoldable pub push_event : ModelStepEvent V → Collector V → Pushed V
  unfolding push_delta
  push_event (ModelStepEvent.delta d) c = push_delta d c
  push_event (ModelStepEvent.continuation value) c =
      append_slot (collected (ModelStepItem.output_block (ModelOutputBlock.continuation value))) c
  push_event (ModelStepEvent.server_tool_use tool) c =
      append_slot (collected (ModelStepItem.server_tool_use tool)) c
  push_event (ModelStepEvent.grounding metadata) c =
      append_slot (collected (ModelStepItem.grounding metadata)) c
  push_event (ModelStepEvent.usage value) c = append_slot (usage value) c
  push_event (ModelStepEvent.finished kind model_id) c = some (
    record c { finished = some (kind, model_id) },
    elim c.finished [ none ↦ none | some _ ↦ some duplicate_finished ],
  )

  abbrev pub is_finished : ModelStepEvent V → Bool
  is_finished (ModelStepEvent.finished _ _) = true
  is_finished _ = false

  unfoldable pub push : ModelStepEvent V → Collector V → Pushed V
  unfolding push_event
  push event c =
      if is_some c.finished && not (is_finished event)
      then some (c, some event_after_finished)
      else push_event event c

-- What the JSON parser answers: a value, or its message. `serde_json` is not part of the repository.
pub data Parsed (V : Type 0) : Type 0 where
  value : V → Parsed V
  invalid : Text → Parsed V

-- `serde_json::from_str`, and the empty object.
pub record Json (V : Type 0) : Type 0 where
  pub from_str : Text → Parsed V
  pub empty_object : V

-- A result of finishing: a value or the error.
pub data Finished (A : Type 0) : Type 0 where
  ok : A → Finished A
  err : ReducerError → Finished A

-- The `?` of the source.
infixl 5 ◌>>=◌
abbrev pub ◌>>=◌ : {A B : Type 0} → Finished A → (A → Finished B) → Finished B
first >>= next = elim first [ err reason ↦ err reason | ok got ↦ next got ]

-- What leads to a success succeeded itself.
pub first_succeeds :
    {A B : Type 0} {result : B} (next : A → Finished B) (first : Finished A)
    → (first >>= next) ≡ ok result
    → (got : A) × (next got ≡ ok result) × (first ≡ ok got)
first_succeeds next (err reason) h = cc
first_succeeds next (ok got) h = (got, h, refl)

unfoldable pub reasoning_summary : PendingReasoningSummary → ReasoningSummary
reasoning_summary s = record { kind = s.kind; text = s.text }

module _ {V : Type 0} (parser : Json V) where
  unfoldable pub arguments_value : Text → Text → Finished V
  arguments_value id arguments =
      if is_empty (trim arguments)
      then ok parser.empty_object
      else (elim (parser.from_str arguments) [
        | value v ↦ ok v
        | invalid message ↦ err (invalid_tool_arguments id arguments message)
      ])

  -- `PendingItem::finish`.
  unfoldable pub finish_item : Text → PendingItem → Finished (ModelStepItem V)
  unfolding arguments_value reasoning_summary
  finish_item model_id (text _ t) = ok (ModelStepItem.output_block (ModelOutputBlock.text t))
  finish_item model_id (reasoning id provider summaries) = ok (
      ModelStepItem.reasoning (record {
        provider = provider;
        model = some model_id;
        id = some id;
        status = none;
        summary = map reasoning_summary summaries;
      }))
  finish_item model_id (client_tool_call id use_id none arguments) = err (missing_tool_name id)
  finish_item model_id (client_tool_call id use_id (some name) arguments) = do
    input ← arguments_value use_id arguments
    ok (
        ModelStepItem.output_block
          (ModelOutputBlock.client_tool_call (record { id = use_id; name = name; input = input })))

  -- The loop of `ModelStepCollector::finish`, over the output gathered so far.
  unfoldable pub finish_slots :
      List (OutputSlot V) → ModelStepOutput V → Finished (ModelStepOutput V)
  unfolding finish_item
  finish_slots [] output = ok output
  finish_slots (collected item ∷ rest) output =
      finish_slots rest (record output { items = output.items ++ item ∷ [] })
  finish_slots (usage u ∷ rest) output =
      finish_slots rest (record output { usage = output.usage ++ u ∷ [] })
  finish_slots (pending p ∷ rest) output = do
    item ← finish_item output.model_id p
    finish_slots rest (record output { items = output.items ++ item ∷ [] })

  unfoldable pub finish : Collector V → Finished (ModelStep V)
  unfolding finish_slots
  finish c = elim c.finished [
    | none ↦ err missing_finished
    | some (kind, model_id) ↦ do
      output ← finish_slots c.slots (record { model_id = model_id; items = []; usage = [] })
      ok (record { kind = kind; output = output })
  ]

-- What a provider stream yields: an event, or its error.
pub data StreamItem (V E : Type 0) : Type 0 where
  event : ModelStepEvent V → StreamItem V E
  failed : E → StreamItem V E

-- The result of `collect_model_step`; `panicked` where an `expect` fails.
pub data Collected (V E : Type 0) : Type 0 where
  step : ModelStep V → Collected V E
  stream : E → Collected V E
  reducer : ReducerError → Collected V E
  panicked : Collected V E

module _ {V E : Type 0} (parser : Json V) where
  -- The end of the stream: `finish`.
  abbrev pub finished_step : Collector V → Collected V E
  finished_step c = elim (finish parser c) [ ok s ↦ step s | err e ↦ reducer e ]

  unfoldable pub collect_from : Collector V → List (StreamItem V E) → Collected V E
  collect_from c [] = finished_step c
  collect_from c (failed e ∷ rest) = stream e
  collect_from c (event e ∷ rest) = elim (push e c) [
    | none ↦ panicked
    | some (c', error) ↦ elim error [ none ↦ collect_from c' rest | some x ↦ reducer x ]
  ]

  unfoldable pub collect_model_step : List (StreamItem V E) → Collected V E
  unfolding collect_from push finish
  collect_model_step events = collect_from empty events
