-- ===== src/Replay.antt =====
-- Replay of stored model steps, tool calls and media in crates/chudbot-bot/src/transcript.rs.
pub mod Steps
pub mod Results
pub mod Laws
pub mod Strip
pub mod Tests
use chudbot.Common.{
  Bool, true, false, ◌&&◌, Option, none, some, List, [], ◌∷◌, ◌++◌, map, any, if◌then◌else◌,
  is_empty, Text, codes, text_eq, insert_ordered, lookup, text_key,
}
use chudbot.Model.{
  TurnRole, TranscriptTurn, Transcript, ContentBlock, ToolTrace, ModelStepTrace, ModelStepKind,
  ProviderContinuation, ClientToolResult,
}
use chudbot.Prompt.{Json}

-- The shape of a JSON value, as far as the search for call ids goes: into arrays, not into objects.
mutual
  pub data Tree (V : Type 0) : Type 0 where
    array : Trees V → Tree V
    object : V → Tree V
    other : Tree V

  pub data Trees (V : Type 0) : Type 0 where
    no_trees : Trees V
    tree : Tree V → Trees V → Trees V

-- What the replay reads of `serde_json::Value`.
pub record Readable (V : Type 0) : Type 0 where
  pub json : Json V
  pub shape : V → Tree V

abbrev pub is_client_tools : ModelStepKind → Bool
is_client_tools ModelStepKind.client_tools = true
is_client_tools _ = false

unfoldable pub insert_result :
    {V : Type 0} → ToolTrace V → List (Text × ClientToolResult V) → List (Text × ClientToolResult V)
unfolding insert_ordered
insert_result (ToolTrace.client trace) results =
    insert_ordered trace.result.tool_use_id trace.result results
insert_result (ToolTrace.server _) results = results
insert_result (ToolTrace.grounding _) results = results

unfoldable pub results_from :
    {V : Type 0}
    → List (Text × ClientToolResult V)
    → List (ToolTrace V)
    → List (Text × ClientToolResult V)
unfolding insert_result
results_from results [] = results
results_from results (trace ∷ rest) = results_from (insert_result trace results) rest

unfoldable pub client_tool_results_by_id :
    {V : Type 0} → List (ToolTrace V) → List (Text × ClientToolResult V)
unfolding results_from
client_tool_results_by_id traces = results_from [] traces

module _ {V : Type 0} (readable : Readable V) where
  unfoldable pub field_str : V → Text → Option Text
  field_str fields key = elim (readable.json.values.get fields key) [
    | none ↦ none
    | some v ↦ readable.json.as_str v
  ]

  -- The field `call_id`, or `id` when there is none.
  unfoldable pub call_id : V → Option Text
  unfolding field_str
  call_id fields = elim (readable.json.values.get fields (codes "call_id")) [
    | none ↦ field_str fields (codes "id")
    | some v ↦ readable.json.as_str v
  ]

  unfoldable pub object_call_id : V → Option Text
  unfolding field_str call_id text_eq
  object_call_id fields = elim (field_str fields (codes "type")) [
    | none ↦ none
    | some kind ↦
        if text_eq kind (codes "function_call")
        then call_id fields
        else if text_eq kind (codes "tool_use")
        then field_str fields (codes "id")
        else none
  ]

  unfoldable pub push_id : Option Text → List Text → List Text
  unfolding text_eq
  push_id none out = out
  push_id (some id) out = if any (λ seen. text_eq seen id) out then out else out ++ id ∷ []

  unfoldable mutual
    unfolding push_id object_call_id

    pub collect_provider_client_tool_call_ids : Tree V → List Text → List Text
    collect_provider_client_tool_call_ids (array items) out = collect_items items out
    collect_provider_client_tool_call_ids (object value) out = push_id (object_call_id value) out
    collect_provider_client_tool_call_ids other out = out

    pub collect_items : Trees V → List Text → List Text
    collect_items no_trees out = out
    collect_items (tree item items) out =
        collect_items items (collect_provider_client_tool_call_ids item out)

  unfoldable pub provider_client_tool_call_ids : ProviderContinuation V → List Text
  unfolding collect_provider_client_tool_call_ids
  provider_client_tool_call_ids continuation =
      collect_provider_client_tool_call_ids (readable.shape continuation.data_value) []

-- The results that a step takes, and the ids of all that were taken, in order: the set
-- `consumed_results`.
pub record Taken (V : Type 0) : Type 0 where
  pub consumed : List Text
  pub results : List (ClientToolResult V)

unfoldable pub take_result :
    {V : Type 0} → List (Text × ClientToolResult V) → Taken V → Text → Taken V
unfolding lookup text_eq
take_result client_results taken id =
    if any (λ seen. text_eq seen id) taken.consumed
    then taken
    else elim (lookup id client_results) [
      | none ↦ taken
      | some result ↦ record {
        consumed = taken.consumed ++ id ∷ [];
        results = taken.results ++ result ∷ [];
      }
    ]

unfoldable pub take_results :
    {V : Type 0} → List (Text × ClientToolResult V) → Taken V → List Text → Taken V
unfolding take_result
take_results client_results taken [] = taken
take_results client_results taken (id ∷ ids) =
    take_results client_results (take_result client_results taken id) ids

-- The results that are left: each entry whose key is new to the set.
unfoldable pub take_rest : {V : Type 0} → List (Text × ClientToolResult V) → Taken V → Taken V
unfolding text_eq
take_rest [] taken = taken
take_rest ((id, result) ∷ entries) taken = take_rest entries (
    if any (λ seen. text_eq seen id) taken.consumed
    then taken
    else record { consumed = taken.consumed ++ id ∷ []; results = taken.results ++ result ∷ [] })

abbrev pub is_none : {V : Type 0} → Option (ProviderContinuation V) → Bool
is_none none = true
is_none (some _) = false

module _ {V : Type 0} (readable : Readable V) where
  unfoldable pub call_ids : Option (ProviderContinuation V) → List Text
  unfolding provider_client_tool_call_ids
  call_ids none = []
  call_ids (some continuation) = provider_client_tool_call_ids readable continuation

  -- Steps 2 and 3 of the loop's body.
  unfoldable pub step_results :
      List (Text × ClientToolResult V) → List Text → ModelStepTrace V → Taken V
  unfolding take_results take_rest call_ids
  step_results client_results consumed step =
      let named =
        take_results client_results (record { consumed = consumed; results = [] })
          (call_ids step.continuation) in
      if is_client_tools step.kind && is_none step.continuation && is_empty named.results
      then take_rest client_results named
      else named

module _ {V M : Type 0} (readable : Readable V) where
  abbrev pub turn_of : TurnRole → List (ContentBlock V M) → List (TranscriptTurn V M)
  turn_of role [] = []
  turn_of role (block ∷ blocks) =
      record { role = role; blocks = block ∷ blocks; metadata = readable.json.values.null } ∷ []

  abbrev pub answer_blocks_of : Bool → Option Text → List (ContentBlock V M)
  answer_blocks_of true (some answer) =
      if is_empty answer then [] else ContentBlock.text answer ∷ []
  answer_blocks_of true none = []
  answer_blocks_of false answer = []

  abbrev pub continuation_blocks : Option (ProviderContinuation V) → List (ContentBlock V M)
  continuation_blocks none = []
  continuation_blocks (some continuation) = ContentBlock.continuation continuation ∷ []

  -- The turns that one step adds.
  unfoldable pub step_turns :
      Bool → Option Text → ModelStepTrace V → List (ClientToolResult V) → List (TranscriptTurn V M)
  step_turns is_final_step assistant_content step results =
      turn_of TurnRole.assistant
        (continuation_blocks step.continuation ++ answer_blocks_of is_final_step assistant_content)
      ++ turn_of TurnRole.user (map ContentBlock.client_tool_result results)

  -- The loop: the turns are pushed in this order. The last step of the list is the final one.
  unfoldable pub replay_steps :
      List (Text × ClientToolResult V)
      → Option Text
      → List Text
      → List (ModelStepTrace V)
      → List (TranscriptTurn V M)
  unfolding step_results step_turns
  replay_steps client_results assistant_content consumed [] = []
  replay_steps client_results assistant_content consumed (step ∷ steps) =
      let taken = step_results readable client_results consumed step in
      step_turns (is_empty steps) assistant_content step taken.results
      ++ replay_steps client_results assistant_content taken.consumed steps

  unfoldable pub append_model_step_replay :
      Transcript V M
      → List (ModelStepTrace V)
      → List (ToolTrace V)
      → Option Text
      → Transcript V M × Bool
  unfolding replay_steps client_tool_results_by_id
  append_model_step_replay transcript [] traces assistant_content = (transcript, false)
  append_model_step_replay transcript (step ∷ steps) traces assistant_content = (
    record transcript {
      turns =
          transcript.turns
          ++ replay_steps (client_tool_results_by_id traces) assistant_content [] (step ∷ steps);
    },
    true,
  )
