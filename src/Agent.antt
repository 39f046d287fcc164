-- ===== src/Agent.antt =====
-- crates/chudbot-api/src/agent.rs: the types of the agent runtime. The loop and its parts are in
-- the child modules. `V` is `serde_json::Value`, `M` a media handle, `S` a `ClientToolSpec`, `B` the
-- error of the backend and `X` that of the tool executor.
pub mod Instructions
pub mod Tools
pub mod Leading
pub mod Read
pub mod Run
use chudbot.Common.{ℕ, Bool, true, Option, List, Text, ◌≡◌, some, lookup, text_key, leb, false}
use chudbot.Model.{
  UsageRecord, ProviderContinuation, ClientToolCall, ClientToolResult, ClientToolTrace, ToolTrace,
  ModelStepTrace, ContentBlock, Transcript, ModelStepEvent,
}
use chudbot.Collector.{ReducerError}

-- An `i32`: `negsuc n` is -(n + 1).
pub data ℤ : Type 0 where
  pos : ℕ → ℤ
  negsuc : ℕ → ℤ

unfoldable pub leb_ℤ : ℤ → ℤ → Bool
leb_ℤ (pos a) (pos b) = leb a b
leb_ℤ (pos a) (negsuc b) = false
leb_ℤ (negsuc a) (pos b) = true
leb_ℤ (negsuc a) (negsuc b) = leb b a

-- What the agent builds and reads of `serde_json::Value`, with the behaviour it relies on.
pub record Values (V : Type 0) : Type 0 where
  pub null : V
  pub bool : Bool → V
  pub number : ℤ → V
  pub string : Text → V
  pub object : List (Text × V) → V
  pub get : V → Text → Option V
  pub as_bool : V → Option Bool
  pub get-object : (m : List (Text × V)) (key : Text) → get (object m) key ≡ lookup key m
  pub as_bool-bool : (b : Bool) → as_bool (bool b) ≡ some b

pub record AgentInstructionPart : Type 0 where
  pub key : Text
  pub ordinal : ℤ
  pub text : Text

pub record AgentLimits : Type 0 where
  pub max_iterations : ℕ
  pub max_model_step_output_tokens : ℕ
  pub text_generation_timeout_seconds : ℕ

-- `server_tools` is a set of names, here in any order.
pub record AgentSpec : Type 0 where
  pub agent_instruction_parts : List AgentInstructionPart
  pub server_tools : Option (List Text)
  pub client_tools : Option (List Text)
  pub limits : AgentLimits

pub record ClientToolDefinition (S : Type 0) : Type 0 where
  pub name : Text
  pub spec : S

pub record AssistantAnswer (V M : Type 0) : Type 0 where
  pub text : Text
  pub blocks : List (ContentBlock V M)

pub data AgentError : Type 0 where
  model tool_loop : Text → AgentError

pub data AgentOutcome (V M : Type 0) : Type 0 where
  completed : AssistantAnswer V M → AgentOutcome V M
  failed : AgentError → Option (AssistantAnswer V M) → AgentOutcome V M
  iteration_limit : ℕ → AgentOutcome V M
  cancelled : Text → AgentOutcome V M

pub record AgentRun (V M : Type 0) : Type 0 where
  pub outcome : AgentOutcome V M
  pub transcript : Transcript V M
  pub trace : List (ToolTrace V)
  pub model_steps : List (ModelStepTrace V)
  pub last_model_id : Option Text
  pub final_continuation : Option (ProviderContinuation V)
  pub usage : List (UsageRecord V)

pub data AgentRunEvent (V M : Type 0) : Type 0 where
  run_started : AgentRunEvent V M
  model_step_started : ℕ → AgentRunEvent V M
  model_event : ℕ → ModelStepEvent V → AgentRunEvent V M
  client_tool_started : ClientToolCall V → AgentRunEvent V M
  client_tool_finished : ClientToolResult V → ClientToolTrace V → List M → AgentRunEvent V M
  run_finished : AgentRun V M → AgentRunEvent V M

pub data AgentRunError (B : Type 0) : Type 0 where
  model : B → AgentRunError B
  model_step : ReducerError → AgentRunError B
  run_stream_ended duplicate_run_finished : AgentRunError B
