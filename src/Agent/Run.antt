-- ===== src/Agent/Run.antt =====
-- `Agent::run` of crates/chudbot-api/src/agent.rs: the folding of a step into the run, the loop over
-- the iterations, and `collect_agent_run`. A run is the list of what its stream yields, with how it
-- ends.
pub mod Loop
pub mod Folds
pub mod Ends
pub mod Laws
mod Tests
use chudbot.Common.{
  ℕ, zero, suc, ◌+◌, min, Bool, true, false, Option, none, some, List, [], ◌∷◌, ◌++◌, map, is_empty,
  if◌then◌else◌, Text, concat,
}
use chudbot.Model.{
  UsageRecord, ProviderContinuation, ClientToolCall, ClientToolResult, ClientToolTrace, ToolTrace,
  ModelStepKind, ModelStepTrace, ContentBlock, TurnRole, TranscriptTurn, Transcript,
  ModelStepOutput, ModelStep, ModelStepEvent,
}
use chudbot.Model.Output.{
  filter_map, transcript_blocks, answer_blocks, client_tool_calls, server_tool_uses, grounding,
  continuation,
}
use chudbot.Collector.{Json, empty}
use chudbot.Agent.{
  Values, AgentSpec, ClientToolDefinition, AssistantAnswer, AgentError, AgentOutcome, AgentRun,
  AgentRunEvent, AgentRunError,
}
use chudbot.Agent.Instructions.{prepare}
use chudbot.Agent.Tools.{
  enabled_tool_specs, enabled_server_tools, Executed, Completed, execute_client_tool_calls, Stuck,
  stuck_calls,
}
use chudbot.Agent.Read.{
  ModelSpec, ModelStepRequest, ProviderStream, StepResult, stepped, failed, timed_out, hung,
  panicked, sampling_with_agent_limits, text_generation_timeout, read_step,
}

-- The accumulators of the run.
pub record Progress (V M : Type 0) : Type 0 where
  pub transcript : Transcript V M
  pub trace : List (ToolTrace V)
  pub model_steps : List (ModelStepTrace V)
  pub last_model_id : Option Text
  pub final_continuation : Option (ProviderContinuation V)
  pub usage : List (UsageRecord V)

module _ {V M : Type 0} where
  unfoldable pub finish_run : AgentOutcome V M → Progress V M → AgentRun V M
  finish_run outcome p = record {
    outcome = outcome;
    transcript = p.transcript;
    trace = p.trace;
    model_steps = p.model_steps;
    last_model_id = p.last_model_id;
    final_continuation = p.final_continuation;
    usage = p.usage;
  }

  abbrev push_turn : TranscriptTurn V M → Transcript V M → Transcript V M
  push_turn turn t = record t { turns = t.turns ++ turn ∷ [] }

  abbrev as_text : ContentBlock V M → Option Text
  as_text (ContentBlock.text text) = some text
  as_text (ContentBlock.media _) = none
  as_text (ContentBlock.client_tool_call _) = none
  as_text (ContentBlock.client_tool_result _) = none
  as_text (ContentBlock.continuation _) = none

  unfoldable pub answer_from_content : List (ContentBlock V M) → AssistantAnswer V M
  unfolding filter_map
  answer_from_content content = record {
    text = concat (filter_map as_text content);
    blocks = content;
  }

-- `i32::try_from(iteration).unwrap_or(i32::MAX)` on the ordinal.
unfoldable pub model_step_trace :
    {V : Type 0} → ℕ → ModelStepKind → Text → ModelStepOutput V → ModelStepTrace V
unfolding continuation
model_step_trace iteration kind provider output = record {
  ordinal = min iteration 2147483647;
  kind = kind;
  provider = provider;
  model = output.model_id;
  continuation = continuation output;
}

unfoldable pub append_step_trace :
    {V : Type 0} → List (ToolTrace V) → ModelStepOutput V → List (ToolTrace V)
unfolding server_tool_uses grounding
append_step_trace trace output =
    (trace ++ map ToolTrace.server (server_tool_uses output))
    ++ map ToolTrace.grounding (grounding output)

-- The accumulators after a step, whatever its kind, before its turns are appended.
unfoldable pub record_step :
    {V M : Type 0} → ℕ → ModelStepKind → Text → ModelStepOutput V → Progress V M → Progress V M
unfolding model_step_trace append_step_trace continuation
record_step iteration kind provider output p = record p {
  model_steps = p.model_steps ++ model_step_trace iteration kind provider output ∷ [];
  trace = append_step_trace p.trace output;
  usage = p.usage ++ output.usage;
  last_model_id = some output.model_id;
  final_continuation = continuation output;
}

module _ {V M : Type 0} (values : Values V) where
  -- An assistant turn; a step with no blocks adds none.
  unfoldable pub append_assistant_step : ModelStepOutput V → Transcript V M → Transcript V M
  unfolding transcript_blocks
  append_assistant_step output t =
      let blocks : List (ContentBlock V M) = transcript_blocks output in
      if is_empty blocks
      then t
      else push_turn (record { role = TurnRole.assistant; blocks = blocks; metadata = values.null })
          t

  -- The blocks of one completed call: its result, then its media.
  unfoldable pub result_blocks : List (Completed V M) → List (ContentBlock V M)
  result_blocks [] = []
  result_blocks ((result, _, media) ∷ rest) =
      (ContentBlock.client_tool_result result ∷ map ContentBlock.media media) ++ result_blocks rest

  unfoldable pub append_results : List (Completed V M) → Progress V M → Progress V M
  unfolding result_blocks
  append_results completed p = record p {
    trace = p.trace ++ map (λ (c : Completed V M). ToolTrace.client c.1) completed;
    transcript =
        push_turn
          (record {
            role = TurnRole.user;
            blocks = result_blocks completed;
            metadata = values.null;
          })
          p.transcript;
  }

-- What the folding of a step leads to: the end of the run, the next iteration, or the events before a
-- call of a tool that does not return.
pub data Next (V M : Type 0) : Type 0 where
  stop : AgentRun V M → Next V M
  again : List (AgentRunEvent V M) → Progress V M → Next V M
  halted : List (AgentRunEvent V M) → Stuck → Next V M

abbrev pub finished_event : {V M : Type 0} → Completed V M → AgentRunEvent V M
finished_event (result, trace, media) = AgentRunEvent.client_tool_finished result trace media

-- What surrounds a run: the parser and the values of `serde_json`, the agent's spec and model, the
-- executor's definitions, its calls and the text of its errors, and the backend. The number given to
-- `step` is the iteration; those given to `execute` tell an iteration's calls apart. `stuck` says which
-- calls do not return; what `execute` gives for those is not read. `latest` is the last `Instant`.
pub record Environment (V M S B X : Type 0) : Type 0 where
  pub parser : Json V
  pub values : Values V
  pub spec : AgentSpec
  pub model : ModelSpec V
  pub provider : Text
  pub tools : List (ClientToolDefinition S)
  pub execute : ℕ → ℕ → ClientToolCall V → Executed V M X
  pub stuck : ℕ → ℕ → ClientToolCall V → Option Stuck
  pub show : X → Text
  pub latest : ℕ
  pub step : ℕ → ModelStepRequest V M S → ProviderStream V B

module _ {V M S B X : Type 0} (env : Environment V M S B X) where
  unfoldable pub completed_calls : ℕ → List (ClientToolCall V) → List (Completed V M)
  unfolding execute_client_tool_calls enabled_tool_specs
  completed_calls iteration calls =
      execute_client_tool_calls env.values env.show (enabled_tool_specs env.spec env.tools)
        (env.execute iteration) 0 calls

  -- The events and the progress after the calls, if they return.
  abbrev pub after_calls :
      Option Stuck → List (AgentRunEvent V M) → List (Completed V M) → Progress V M → Next V M
  after_calls (some s) started completed p = halted started s
  after_calls none started completed p =
      again (started ++ map finished_event completed) (append_results env.values completed p)

  -- Step 2 of the loop, by the kind of the step.
  unfoldable pub fold_step : ℕ → ModelStepKind → ModelStepOutput V → Progress V M → Next V M
  unfolding record_step answer_blocks answer_from_content finish_run append_assistant_step
      client_tool_calls completed_calls append_results stuck_calls
  fold_step iteration ModelStepKind.final output p =
      let q = record_step iteration ModelStepKind.final env.provider output p in
      let blocks : List (ContentBlock V M) = answer_blocks output in
      stop (
        finish_run (AgentOutcome.completed (answer_from_content blocks)) (record q {
          transcript =
              push_turn
                (record { role = TurnRole.assistant; blocks = blocks; metadata = env.values.null })
                q.transcript;
        }))
  fold_step iteration ModelStepKind.continue output p =
      let q = record_step iteration ModelStepKind.continue env.provider output p in
      again [] (record q { transcript = append_assistant_step env.values output q.transcript })
  fold_step iteration ModelStepKind.client_tools output p =
      let q = record_step iteration ModelStepKind.client_tools env.provider output p in
      let calls = client_tool_calls output in
      let completed = completed_calls iteration calls in
      after_calls
        (stuck_calls (enabled_tool_specs env.spec env.tools) (env.stuck iteration) 0 calls)
        (map AgentRunEvent.client_tool_started calls) completed
        (record q { transcript = append_assistant_step env.values output q.transcript })
