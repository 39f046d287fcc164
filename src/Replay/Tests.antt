-- ===== src/Replay/Tests.antt =====
-- Replay of stored turns on concrete values: crates/chudbot-bot/src/transcript.rs.
use chudbot.Common.{
  ◌≡◌, refl, false, Option, none, some, List, [], ◌∷◌, ◌++◌, map, All, Text, codes, text_eq,
  text_lt, lookup, insert_ordered,
}
use chudbot.Model.{
  Transcript, TranscriptTurn, ToolTrace, ModelStepTrace, ModelStepKind, ClientToolResult,
  ClientToolResultContent, ProviderContinuation,
}
use chudbot.Fixtures.{
  Value, Items, string, array, object, null, item, no_items, from_list, prompt_json,
}
use chudbot.Replay.{
  Tree, Trees, Readable, append_model_step_replay, client_tool_results_by_id, no_trees, tree, other,
}
use chudbot.Replay.Steps.{IsUnique, IsStored, id_of}
use chudbot.Replay.Results.{turn_results}
use chudbot.Replay.Laws.{append_model_step_replay-IsUnique}

mutual
  shape : Value → Tree Value
  shape (array items) = Tree.array (shapes items)
  shape (object fields) = Tree.object (object fields)
  shape _ = other

  shapes : Items → Trees Value
  shapes no_items = no_trees
  shapes (item value items) = tree (shape value) (shapes items)

abbrev readable : Readable Value
readable = record { json = prompt_json; shape = shape }

abbrev call : Text → Text → Value
call kind id =
    object (from_list ((codes "type", string (codes "tool_use")) ∷ (codes "id", string id) ∷ []))

abbrev continuation : ProviderContinuation Value
continuation = record {
  provider = codes "anthropic";
  data_value = array (
      item (call (codes "tool_use") (codes "c2"))
        (item (call (codes "tool_use") (codes "c1")) no_items));
}

abbrev step : ModelStepKind → Option (ProviderContinuation Value) → ModelStepTrace Value
step kind k = record {
  ordinal = 0;
  kind = kind;
  provider = codes "anthropic";
  model = codes "m";
  continuation = k;
}

abbrev result : Text → Text → ClientToolResult Value
result id text = record {
  tool_use_id = id;
  content = ClientToolResultContent.text text;
  is_error = false;
}

abbrev trace : Text → Text → ToolTrace Value
trace id text = ToolTrace.client (record {
  call = record { id = id; name = codes "search"; input = null };
  result = result id text;
  trace_response = null;
  usage = [];
})

-- Two stored results and a later result of the first call, which replaces it.
abbrev traces : List (ToolTrace Value)
traces =
    trace (codes "c1") (codes "old")
    ∷ trace (codes "c2") (codes "two")
    ∷ trace (codes "c1") (codes "new")
    ∷ []

abbrev steps : List (ModelStepTrace Value)
steps =
    step ModelStepKind.client_tools (some continuation)
    ∷ step ModelStepKind.client_tools none
    ∷ step ModelStepKind.final none
    ∷ []

abbrev empty : Transcript Value Unit
empty = record { id = none; turns = [] }

-- The ids named by the continuation are replayed once, in the order of the continuation; the older
-- step without one finds nothing left.
replays_named_results :
    turn_results Unit
      (append_model_step_replay readable empty steps traces (some (codes "done"))).0.turns
    ≡ result (codes "c2") (codes "two") ∷ result (codes "c1") (codes "new") ∷ []
unfolding append_model_step_replay turn_results text_lt shape lookup text_eq insert_ordered
replays_named_results = refl

append_model_step_replay-IsUnique_example :
    (added : List (TranscriptTurn Value Unit)) × ((append_model_step_replay readable empty steps
        traces
        (some (codes "done"))).0.turns
      ≡ [] ++ added)
    × IsUnique (map id_of (turn_results Unit added))
    × All (IsStored (client_tool_results_by_id traces)) (turn_results Unit added)
append_model_step_replay-IsUnique_example =
    append_model_step_replay-IsUnique Unit readable empty steps traces (some (codes "done"))
