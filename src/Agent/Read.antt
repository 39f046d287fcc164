-- ===== src/Agent/Read.antt =====
-- The requests of crates/chudbot-api/src/agent.rs, and the inner loop of `Agent::run` that reads
-- one provider stream. A stream is what it yields and when, in nanoseconds on the run's clock; an
-- item that is ready after the deadline is not received, as `tokio::time::timeout_at` documents.
-- A stream has finitely many items; after the last one it ends, or yields no more for ever.
pub mod Results
use chudbot.Common.{
  ℕ, ◌+◌, ◌*◌, min, Bool, true, false, not, ◌&&◌, Option, none, some, List, [], ◌∷◌, if◌then◌else◌,
  ltb, leb, Text,
}
use chudbot.Model.Images.{ImageEncoding}
use chudbot.Model.{ModelStepDelta, ModelStepEvent, ModelStep, Transcript}
use chudbot.Collector.{Collector, StreamItem, Json, Finished, ok, err, push, finish, empty, is_some}
use chudbot.Agent.{AgentLimits, AgentRunError}

pub record SamplingOptions : Type 0 where
  pub max_output_tokens : Option ℕ
  pub temperature : Option Text
  pub top_p : Option Text

pub record ModelStepRequest (V M S : Type 0) : Type 0 where
  pub model : Text
  pub transcript : Transcript V M
  pub client_tools : List (Text × S)
  pub server_tools : List Text
  pub sampling : SamplingOptions
  pub image_encoding : ImageEncoding
  pub provider_options : Option V

-- The model's spec, as far as the agent reads it.
pub record ModelSpec (V : Type 0) : Type 0 where
  pub id : Text
  pub server_tools : List Text
  pub sampling : SamplingOptions
  pub image_encoding : ImageEncoding
  pub provider_options : Option V

unfoldable pub sampling_with_agent_limits : SamplingOptions → AgentLimits → SamplingOptions
sampling_with_agent_limits sampling limits = record sampling {
  max_output_tokens = some (elim sampling.max_output_tokens [
    | none ↦ limits.max_model_step_output_tokens
    | some configured ↦ min configured limits.max_model_step_output_tokens
  ]);
}

unfoldable pub text_generation_timeout : AgentLimits → Option ℕ
text_generation_timeout limits =
    if ltb 0 limits.text_generation_timeout_seconds
    then some (limits.text_generation_timeout_seconds * 1000000000)
    else none

abbrev pub text_generation_started : {V : Type 0} → ModelStepEvent V → Bool
text_generation_started (ModelStepEvent.delta _) = true
text_generation_started _ = false

-- When each item of the stream is ready, and when its end is (`none`: it never ends).
pub record ProviderStream (V B : Type 0) : Type 0 where
  pub arrivals : List (ℕ × StreamItem V B)
  pub ends : Option ℕ

-- How the reading of one step ends.
pub data StepResult (V B : Type 0) : Type 0 where
  stepped : ModelStep V → StepResult V B
  failed : AgentRunError B → StepResult V B
  timed_out hung panicked : StepResult V B

abbrev pub is_late : Option ℕ → ℕ → Bool
is_late none time = false
is_late (some deadline) time = ltb deadline time

-- `Instant::now().checked_add(timeout).unwrap_or_else(Instant::now)`; no `Instant` is after `latest`.
unfoldable pub text_generation_deadline_from : ℕ → ℕ → ℕ → ℕ
text_generation_deadline_from latest timeout time =
    if leb (time + timeout) latest then time + timeout else time

-- The deadline after an event that is ready at the time.
unfoldable pub next_deadline :
    {V : Type 0} → ℕ → Option ℕ → Option ℕ → ℕ → ModelStepEvent V → Option ℕ
unfolding text_generation_deadline_from
next_deadline latest timeout (some deadline) time event = some deadline
next_deadline latest none none time event = none
next_deadline latest (some timeout) none time event =
    if text_generation_started event
    then some (text_generation_deadline_from latest timeout time)
    else none

module _ {V B : Type 0} (parser : Json V) (latest : ℕ) (timeout : Option ℕ) where
  -- After the last item: the end of the stream, or the deadline, or nothing.
  unfoldable pub read_end : Collector V → Option ℕ → Option ℕ → StepResult V B
  read_end c (some deadline) none = timed_out
  read_end c none none = hung
  read_end c deadline (some time) =
      if is_late deadline time then timed_out else (elim (finish parser c) [
        | ok step ↦ stepped step
        | err e ↦ failed (AgentRunError.model_step e)
      ])

  -- The loop: the events that are passed on, and how it ends.
  unfoldable pub read_step :
      Collector V
      → Option ℕ
      → List (ℕ × StreamItem V B)
      → Option ℕ
      → List (ModelStepEvent V) × StepResult V B
  unfolding read_end next_deadline
  read_step c deadline [] ends = ([], read_end c deadline ends)
  read_step c deadline ((time, StreamItem.failed e) ∷ rest) ends =
      ([], (if is_late deadline time then timed_out else failed (AgentRunError.model e)))
  read_step c deadline ((time, StreamItem.event e) ∷ rest) ends =
      if is_late deadline time then ([], timed_out) else (elim (push e c) [
        | none ↦ ([], panicked)
        | some (c', error) ↦ elim error [
          | none ↦
              (let next = read_step c' (next_deadline latest timeout deadline time e) rest ends in
                (e ∷ next.0, next.1))
          | some x ↦ ([], failed (AgentRunError.model_step x))
        ]
      ])
