-- ===== src/Agent/Run/Tests.antt =====
-- A run of the agent of crates/chudbot-api/src/agent.rs on a scripted backend, as its tests make
-- them: the first step calls a tool, the second answers.
use mathlib.Core.List.{Memᴰ}
use chudbot.Common.{
  ℕ, zero, suc, true, false, ◌≡◌, ◌≢◌, refl, none, some, List, [], ◌∷◌, map, Text, codes, text_eq,
  lookup, insert, contains_key, All, text_key, if◌then◌else◌, trim,
}
use chudbot.Model.{
  Transcript, TurnRole, ContentBlock, ModelStepDelta, ModelStepEvent, ModelStepKind, ClientToolCall,
  ClientToolResultContent, execution,
}
use chudbot.Collector.{Json, Parsed, StreamItem, item_id, push, finish}
use chudbot.Agent.{
  pos, AgentOutcome, AgentSpec, ClientToolDefinition, AgentRun, AgentRunEvent, AgentRunError,
}
use chudbot.Agent.Instructions.{prepare}
use chudbot.Agent.Instructions.Laws.{prepare-prepare}
use chudbot.Agent.Tools.{
  Executed, ok, err, Completed, enabled_tool_specs, execute_client_tool_calls, Stuck, hangs,
  stuck_calls,
}
use chudbot.Agent.Tools.Laws.{
  lookup-enabled_tool_specs, execute_client_tool_calls_order, execute_client_tool_calls_enabled,
}
use chudbot.Model.Images.{ImageEncoding}
use chudbot.Agent.Run.{Environment, finish_run}
use chudbot.Agent.Run.Loop.{Emitted, event, run, start, CollectedRun, broken, collect_agent_run}
use chudbot.Agent.Run.Ends.{Ends, run-Ends, collect_agent_run-run}
use chudbot.Fixtures.{Value, string, object, null, json_values, no_fields}
use chudbot.Agent.Run.Laws.{Adds, run-Adds}

-- A parser that keeps the text.
abbrev json_parser : Json Value
json_parser = record { from_str = λ t. Parsed.value (string t); empty_object = object no_fields }

abbrev agent_spec : AgentSpec
agent_spec = record {
  agent_instruction_parts =
      record { key = codes "b"; ordinal = pos 2; text = codes "second" }
      ∷ record { key = codes "a"; ordinal = pos 1; text = codes "first" }
      ∷ [];
  server_tools = some (codes "Web" ∷ []);
  client_tools = some (codes "echo" ∷ []);
  limits = record {
    max_iterations = 4;
    max_model_step_output_tokens = 100;
    text_generation_timeout_seconds = 30;
  };
}

abbrev definitions : List (ClientToolDefinition ℕ)
definitions =
    record { name = codes "echo"; spec = 1 }
    ∷ record { name = codes "echo"; spec = 2 }
    ∷ record { name = codes "other"; spec = 3 }
    ∷ []

abbrev echo : ClientToolCall Value → Executed Value ℕ Text
echo call = ok (record {
  result = ClientToolResultContent.text (codes "echoed");
  media = 7 ∷ [];
  is_error = false;
  trace_response = call.input;
  usage = [];
})

abbrev first_step : List (ℕ × StreamItem Value ℕ)
first_step =
    (
      1,
      StreamItem.event (
          ModelStepEvent.delta (
            ModelStepDelta.client_tool_call (codes "c") (codes "call-1") (some (codes "echo"))
              (codes "{}"))),
    )
    ∷ (2, StreamItem.event (ModelStepEvent.finished ModelStepKind.client_tools (codes "m")))
    ∷ []

abbrev second_step : List (ℕ × StreamItem Value ℕ)
second_step =
    (3, StreamItem.event (ModelStepEvent.delta (ModelStepDelta.text (codes "t") (codes "done"))))
    ∷ (4, StreamItem.event (ModelStepEvent.finished ModelStepKind.final (codes "m")))
    ∷ []

abbrev arrivals_of : ℕ → List (ℕ × StreamItem Value ℕ)
arrivals_of zero = first_step
arrivals_of (suc _) = second_step

abbrev env : Environment Value ℕ ℕ ℕ Text
env = record {
  parser = json_parser;
  values = json_values;
  spec = agent_spec;
  model = record {
    id = codes "m";
    server_tools = codes "web" ∷ codes "maps" ∷ [];
    sampling = record { max_output_tokens = none; temperature = none; top_p = none };
    image_encoding = ImageEncoding.disabled;
    provider_options = none;
  };
  provider = codes "p";
  tools = definitions;
  execute = λ iteration n call. echo call;
  stuck = λ iteration n call. none;
  latest = 1000000000000000000;
  show = λ t. t;
  step = λ iteration request. record { arrivals = arrivals_of iteration; ends = some 5 };
}

abbrev question : Transcript Value ℕ
question = record {
  id = some (codes "9");
  turns =
      record { role = TurnRole.user; blocks = ContentBlock.text (codes "hi") ∷ []; metadata = null }
      ∷ [];
}

abbrev call : ClientToolCall Value
call = record { id = codes "call-1"; name = codes "echo"; input = null }

abbrev echo_only : List (Text × ℕ)
echo_only = (codes "echo", 1) ∷ []

prepare-prepare_example :
    prepare json_values agent_spec.agent_instruction_parts
      (prepare json_values agent_spec.agent_instruction_parts question)
    ≡ prepare json_values agent_spec.agent_instruction_parts question
prepare-prepare_example = prepare-prepare json_values agent_spec.agent_instruction_parts question

lookup-enabled_tool_specs_example :
    lookup (codes "echo") (enabled_tool_specs agent_spec definitions) ≡ some 1
unfolding text_eq
lookup-enabled_tool_specs_example = lookup-enabled_tool_specs agent_spec definitions (codes "echo")

execute_client_tool_calls_order_example :
    (map
        (λ (c : Completed Value ℕ). c.1.call)
        (execute_client_tool_calls {S = ℕ} {X = Text} json_values
          (λ t. t)
          echo_only
          (λ n c. echo c)
          0
          (call ∷ call ∷ []))
      ≡ call ∷ call ∷ [])
    × All
        (λ (c : Completed Value ℕ). (c.0 ≡ c.1.result) × (c.0.tool_use_id ≡ c.1.call.id))
        (execute_client_tool_calls {S = ℕ} {X = Text} json_values
          (λ t. t)
          echo_only
          (λ n c. echo c)
          0
          (call ∷ call ∷ []))
execute_client_tool_calls_order_example =
    execute_client_tool_calls_order json_values (λ t. t) echo_only (λ n c. echo c) 0
      (call ∷ call ∷ [])

-- An executor that fails every call of another tool.
abbrev picky : ℕ → ClientToolCall Value → Executed Value ℕ Text
picky n c = if contains_key c.name echo_only then echo c else err (execution (codes "no"))

picky_same :
    (n : ℕ) (c : ClientToolCall Value) → contains_key c.name echo_only ≡ true → picky n c ≡ echo c
picky_same n c h = rw h refl

execute_client_tool_calls_enabled_example :
    execute_client_tool_calls {S = ℕ} json_values (λ t. t) echo_only picky 0 (call ∷ [])
    ≡ execute_client_tool_calls json_values (λ t. t) echo_only (λ n c. echo c) 0 (call ∷ [])
execute_client_tool_calls_enabled_example =
    execute_client_tool_calls_enabled json_values (λ t. t) echo_only picky (λ n c. echo c)
      picky_same 0 (call ∷ [])

run-Ends_example : Ends env (run env question)
run-Ends_example = run-Ends env question

collect_agent_run-run_example :
    (collect_agent_run (run env question) ≢ CollectedRun.err AgentRunError.run_stream_ended)
    × (collect_agent_run (run env question) ≢ CollectedRun.err AgentRunError.duplicate_run_finished)
    × (collect_agent_run (run env question) ≢ broken)
collect_agent_run-run_example = collect_agent_run-run env question

-- The run that a stream finishes with.
abbrev finished_with : AgentRun Value ℕ → List (Emitted Value ℕ ℕ) → AgentRun Value ℕ
finished_with r [] = r
finished_with r (event (AgentRunEvent.run_finished q) ∷ l) = q
finished_with r (_ ∷ l) = finished_with r l

abbrev nothing : AgentRun Value ℕ
nothing = finish_run (AgentOutcome.iteration_limit 0) (start env question)

run-Adds_example :
    Adds env.provider 4 0
      (start env (prepare json_values agent_spec.agent_instruction_parts question))
      (finished_with nothing (run env question).0)
unfolding run collect_agent_run text_eq lookup insert trim item_id finish_run push finish
run-Adds_example = run-Adds env question (finished_with nothing (run env question).0) (
    Memᴰ.tail (
      Memᴰ.tail (
        Memᴰ.tail (
          Memᴰ.tail (Memᴰ.tail (Memᴰ.tail (Memᴰ.tail (Memᴰ.tail (Memᴰ.tail (Memᴰ.head refl))))))))))

-- The same with a tool that never returns, or panics.
abbrev with_stuck : Stuck → Environment Value ℕ ℕ ℕ Text
with_stuck s = record env { stuck = λ iteration n call. some s }

hanging_tool_waits : collect_agent_run (run (with_stuck hangs) question) ≡ CollectedRun.waiting
unfolding run collect_agent_run text_eq lookup insert trim item_id finish_run push finish
    stuck_calls
hanging_tool_waits = refl

panicking_tool_panics :
    collect_agent_run (run (with_stuck Stuck.panics) question) ≡ CollectedRun.tool_broken
unfolding run collect_agent_run text_eq lookup insert trim item_id finish_run push finish
    stuck_calls
panicking_tool_panics = refl
