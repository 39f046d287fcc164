-- ===== src/Agent/Run/Loop.antt =====
-- The loop of `Agent::run` and `collect_agent_run` in crates/chudbot-api/src/agent.rs.
use chudbot.Common.{ℕ, zero, suc, ◌+◌, Option, none, some, List, [], ◌∷◌, ◌++◌, map, codes, decimal}
use chudbot.Model.{Transcript, ModelStepEvent}
use chudbot.Collector.{empty}
use chudbot.Agent.{AgentError, AgentOutcome, AgentRun, AgentRunEvent, AgentRunError}
use chudbot.Agent.Instructions.{prepare}
use chudbot.Agent.Tools.{enabled_tool_specs, enabled_server_tools, Stuck, hangs}
use chudbot.Agent.Read.{
  ModelStepRequest, StepResult, stepped, failed, timed_out, hung, panicked,
  sampling_with_agent_limits, text_generation_timeout, read_step,
}
use chudbot.Agent.Run.{Progress, stop, again, halted, Environment, finish_run, fold_step}

-- What the run's stream yields.
pub data Emitted (V M B : Type 0) : Type 0 where
  event : AgentRunEvent V M → Emitted V M B
  error : AgentRunError B → Emitted V M B

-- The stream ends, or it waits for ever, or it panics, or a tool panics in it.
pub data Ending : Type 0 where
  ended waits panics tool_panics : Ending

abbrev pub stuck_ending : Stuck → Ending
stuck_ending hangs = waits
stuck_ending Stuck.panics = tool_panics

abbrev pub Stream : Type 0 → Type 0 → Type 0 → Type 0
Stream V M B = List (Emitted V M B) × Ending

module _ {V M S B X : Type 0} (env : Environment V M S B X) where
  unfoldable pub request : Transcript V M → ModelStepRequest V M S
  unfolding sampling_with_agent_limits enabled_tool_specs enabled_server_tools
  request transcript = record {
    model = env.model.id;
    transcript = transcript;
    client_tools = enabled_tool_specs env.spec env.tools;
    server_tools = enabled_server_tools env.model.server_tools env.spec.server_tools;
    sampling = sampling_with_agent_limits env.model.sampling env.spec.limits;
    image_encoding = env.model.image_encoding;
    provider_options = env.model.provider_options;
  }

  -- The run that a timeout gives.
  unfoldable pub timed_out_run : Progress V M → AgentRun V M
  unfolding finish_run decimal
  timed_out_run = finish_run (
      AgentOutcome.failed
        (AgentError.model (
          codes "model text generation exceeded timeout ("
          ++ decimal env.spec.limits.text_generation_timeout_seconds
          ++ codes "s)"))
        none)

  unfoldable pub limit_run : Progress V M → AgentRun V M
  unfolding finish_run
  limit_run = finish_run (AgentOutcome.iteration_limit env.spec.limits.max_iterations)

  abbrev events : List (AgentRunEvent V M) → List (Emitted V M B)
  events = map Emitted.event

  abbrev before : List (Emitted V M B) → Stream V M B → Stream V M B
  before l s = (l ++ s.0, s.1)

  abbrev last_event : AgentRun V M → Stream V M B
  last_event run = (Emitted.event (AgentRunEvent.run_finished run) ∷ [], ended)

  unfoldable pub read : ℕ → Progress V M → List (ModelStepEvent V) × StepResult V B
  unfolding request read_step text_generation_timeout
  read iteration p =
      let stream = env.step iteration (request p.transcript) in
      read_step env.parser env.latest (text_generation_timeout env.spec.limits) empty none
        stream.arrivals stream.ends

  -- The iterations that are left, from the one numbered `iteration` on.
  unfoldable pub loop : ℕ → ℕ → Progress V M → Stream V M B
  loop zero iteration p = last_event (limit_run p)
  loop (suc left) iteration p =
      before
        (Emitted.event (AgentRunEvent.model_step_started iteration)
          ∷ events (map (AgentRunEvent.model_event iteration) (read iteration p).0))
        (elim (read iteration p).1 [
          | stepped step ↦ elim (fold_step env iteration step.kind step.output p) [
            | stop run ↦ last_event run
            | again emitted q ↦ before (events emitted) (loop left (iteration + 1) q)
            | halted emitted s ↦ (events emitted, stuck_ending s)
          ]
          | failed e ↦ (Emitted.error e ∷ [], ended)
          | timed_out ↦ last_event (timed_out_run p)
          | hung ↦ ([], waits)
          | panicked ↦ ([], panics)
        ])

  abbrev pub start : Transcript V M → Progress V M
  start transcript = record {
    transcript = transcript;
    trace = [];
    model_steps = [];
    last_model_id = none;
    final_continuation = none;
    usage = [];
  }

  -- `Agent::run`.
  unfoldable pub run : Transcript V M → Stream V M B
  unfolding loop prepare read fold_step timed_out_run limit_run
  run transcript = before (Emitted.event AgentRunEvent.run_started ∷ []) (
      loop env.spec.limits.max_iterations 0
        (start (prepare env.values env.spec.agent_instruction_parts transcript)))

-- The result of collecting a run; the last ones where the stream never ends or panics, itself or in a
-- tool.
pub data CollectedRun (V M B : Type 0) : Type 0 where
  ok : AgentRun V M → CollectedRun V M B
  err : AgentRunError B → CollectedRun V M B
  waiting broken tool_broken : CollectedRun V M B

module _ {V M B : Type 0} where
  -- At the end of the stream.
  unfoldable pub collected_end : Option (AgentRun V M) → Ending → CollectedRun V M B
  collected_end none ended = err AgentRunError.run_stream_ended
  collected_end (some run) ended = ok run
  collected_end finished waits = waiting
  collected_end finished panics = broken
  collected_end finished tool_panics = tool_broken

  unfoldable pub collect_from :
      Option (AgentRun V M) → List (Emitted V M B) → Ending → CollectedRun V M B
  unfolding collected_end
  collect_from finished [] ending = collected_end finished ending
  collect_from finished (Emitted.error e ∷ rest) ending = err e
  collect_from none (Emitted.event (AgentRunEvent.run_finished run) ∷ rest) ending =
      collect_from (some run) rest ending
  collect_from (some _) (Emitted.event (AgentRunEvent.run_finished run) ∷ rest) ending =
      err AgentRunError.duplicate_run_finished
  collect_from finished (Emitted.event AgentRunEvent.run_started ∷ rest) ending =
      collect_from finished rest ending
  collect_from finished (Emitted.event (AgentRunEvent.model_step_started _) ∷ rest) ending =
      collect_from finished rest ending
  collect_from finished (Emitted.event (AgentRunEvent.model_event _ _) ∷ rest) ending =
      collect_from finished rest ending
  collect_from finished (Emitted.event (AgentRunEvent.client_tool_started _) ∷ rest) ending =
      collect_from finished rest ending
  collect_from finished (Emitted.event (AgentRunEvent.client_tool_finished _ _ _) ∷ rest) ending =
      collect_from finished rest ending

  unfoldable pub collect_agent_run : Stream V M B → CollectedRun V M B
  unfolding collect_from
  collect_agent_run s = collect_from none s.0 s.1
