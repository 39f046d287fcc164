-- ===== src/Model.antt =====
-- The shared contracts of crates/chudbot-api: steps, deltas and events (src/llm.rs), tools
-- (src/tool.rs), transcripts (src/transcript.rs), usage (src/usage.rs), reasoning
-- (src/reasoning.rs) and the step traces of src/storage.rs.
-- The newtypes of src/ids.rs over `String` are texts. `V` stands for `serde_json::Value` and `M`
-- for a boxed media handle, which the code only carries.
pub mod Output
pub mod Images
use chudbot.Common.{ℕ, Bool, Option, List, Text}

pub data UsageSubject : Type 0 where
  model_step : UsageSubject
  server_tool client_tool sub_agent : Text → UsageSubject
  image_generation video_generation audio_transcription : UsageSubject

pub record CostAmount : Type 0 where
  pub amount : Text
  pub unit : Text
  pub estimated : Bool

pub record UsageRecord (V : Type 0) : Type 0 where
  pub provider : Text
  pub model : Option Text
  pub subject : UsageSubject
  pub input_tokens : Option ℕ
  pub cached_input_tokens : Option ℕ
  pub output_tokens : Option ℕ
  pub reasoning_tokens : Option ℕ
  pub total_tokens : Option ℕ
  pub cost : Option CostAmount
  pub raw : Option V

pub record ReasoningSummary : Type 0 where
  pub kind : Option Text
  pub text : Text

pub record ReasoningItem : Type 0 where
  pub provider : Text
  pub model : Option Text
  pub id : Option Text
  pub status : Option Text
  pub summary : List ReasoningSummary

-- The field `data` of the source is `data_value` here.
pub record ProviderContinuation (V : Type 0) : Type 0 where
  pub provider : Text
  pub data_value : V

pub record ClientToolCall (V : Type 0) : Type 0 where
  pub id : Text
  pub name : Text
  pub input : V

pub data ClientToolResultContent (V : Type 0) : Type 0 where
  json : V → ClientToolResultContent V
  text : Text → ClientToolResultContent V

pub record ClientToolResult (V : Type 0) : Type 0 where
  pub tool_use_id : Text
  pub content : ClientToolResultContent V
  pub is_error : Bool

pub record ClientToolOutput (V M : Type 0) : Type 0 where
  pub result : ClientToolResultContent V
  pub media : List M
  pub is_error : Bool
  pub trace_response : V
  pub usage : List (UsageRecord V)

pub record ClientToolTrace (V : Type 0) : Type 0 where
  pub call : ClientToolCall V
  pub result : ClientToolResult V
  pub trace_response : V
  pub usage : List (UsageRecord V)

pub record ServerToolUse (V : Type 0) : Type 0 where
  pub provider : Text
  pub name : Text
  pub id : Option Text
  pub status : Option Text
  pub raw : V
  pub usage : List (UsageRecord V)

pub record GroundingMetadata (V : Type 0) : Type 0 where
  pub provider : Text
  pub raw : V

pub data ToolTrace (V : Type 0) : Type 0 where
  client : ClientToolTrace V → ToolTrace V
  server : ServerToolUse V → ToolTrace V
  grounding : GroundingMetadata V → ToolTrace V

-- An execution error `E` of the executor, or a tool that it does not know.
pub data ClientToolExecutorError (E : Type 0) : Type 0 where
  unknown : Text → ClientToolExecutorError E
  execution : E → ClientToolExecutorError E

pub data ModelStepKind : Type 0 where
  final continue client_tools : ModelStepKind

pub record ModelStepTrace (V : Type 0) : Type 0 where
  pub ordinal : ℕ
  pub kind : ModelStepKind
  pub provider : Text
  pub model : Text
  pub continuation : Option (ProviderContinuation V)

pub data ContentBlock (V M : Type 0) : Type 0 where
  text : Text → ContentBlock V M
  media : M → ContentBlock V M
  client_tool_call : ClientToolCall V → ContentBlock V M
  client_tool_result : ClientToolResult V → ContentBlock V M
  continuation : ProviderContinuation V → ContentBlock V M

pub data TurnRole : Type 0 where
  user assistant system : TurnRole

pub record TranscriptTurn (V M : Type 0) : Type 0 where
  pub role : TurnRole
  pub blocks : List (ContentBlock V M)
  pub metadata : V

pub record Transcript (V M : Type 0) : Type 0 where
  pub id : Option Text
  pub turns : List (TranscriptTurn V M)

pub data ModelOutputBlock (V : Type 0) : Type 0 where
  text : Text → ModelOutputBlock V
  client_tool_call : ClientToolCall V → ModelOutputBlock V
  continuation : ProviderContinuation V → ModelOutputBlock V

pub data ModelStepItem (V : Type 0) : Type 0 where
  output_block : ModelOutputBlock V → ModelStepItem V
  reasoning : ReasoningItem → ModelStepItem V
  server_tool_use : ServerToolUse V → ModelStepItem V
  grounding : GroundingMetadata V → ModelStepItem V

pub record ModelStepOutput (V : Type 0) : Type 0 where
  pub model_id : Text
  pub items : List (ModelStepItem V)
  pub usage : List (UsageRecord V)

pub record ModelStep (V : Type 0) : Type 0 where
  pub kind : ModelStepKind
  pub output : ModelStepOutput V

-- `text item_id delta`, `reasoning_summary item_id provider kind delta` and
-- `client_tool_call item_id id name arguments_delta`.
pub data ModelStepDelta : Type 0 where
  text : Text → Text → ModelStepDelta
  reasoning_summary : Text → Text → Option Text → Text → ModelStepDelta
  client_tool_call : Text → Text → Option Text → Text → ModelStepDelta

pub data ModelStepEvent (V : Type 0) : Type 0 where
  delta : ModelStepDelta → ModelStepEvent V
  continuation : ProviderContinuation V → ModelStepEvent V
  server_tool_use : ServerToolUse V → ModelStepEvent V
  grounding : GroundingMetadata V → ModelStepEvent V
  usage : UsageRecord V → ModelStepEvent V
  finished : ModelStepKind → Text → ModelStepEvent V
