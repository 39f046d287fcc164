-- ===== src/Agent/Tools.antt =====
-- Tool surfaces and tool calls in crates/chudbot-api/src/agent.rs.
pub mod Laws
pub mod Stopped
use chudbot.Common.{
  ℕ, ◌+◌, Bool, true, false, not, ◌&&◌, Option, none, some, List, [], ◌∷◌, ◌++◌, map, if◌then◌else◌,
  is_empty, any, select, Text, codes, text_eq, text_key, lookup, contains_key, trim, leb,
}
use chudbot.Model.{
  ClientToolCall, ClientToolOutput, ClientToolResult, ClientToolResultContent, ClientToolTrace,
  ClientToolExecutorError, unknown, execution,
}
use chudbot.Model.Output.{filter_map}
use chudbot.Agent.{Values, AgentSpec, ClientToolDefinition}

-- `to_ascii_lowercase`.
unfoldable pub ascii_lowercase : Text → Text
ascii_lowercase [] = []
ascii_lowercase (c ∷ t) = (if leb b'A' c && leb c b'Z' then c + 32 else c) ∷ ascii_lowercase t

unfoldable pub normalize_server_tool : Text → Option Text
unfolding trim ascii_lowercase
normalize_server_tool tool =
    let trimmed = trim tool in if is_empty trimmed then none else some (ascii_lowercase trimmed)

unfoldable pub normalized_server_tools : List Text → List Text
unfolding normalize_server_tool filter_map
normalized_server_tools tools = filter_map normalize_server_tool tools

abbrev pub contains : Text → List Text → Bool
contains t l = any (text_eq t) l

-- `enabled_server_tools`; the sets are lists whose order does not matter.
unfoldable pub enabled_server_tools : List Text → Option (List Text) → List Text
unfolding normalized_server_tools
enabled_server_tools model_tools none = normalized_server_tools model_tools
enabled_server_tools model_tools (some agent_tools) =
    select (λ tool. contains tool (normalized_server_tools agent_tools))
      (normalized_server_tools model_tools)

module _ {S : Type 0} where
  -- The loop of `tool_specs`: the first definition of a name wins.
  unfoldable pub tool_specs_from : List (Text × S) → List (ClientToolDefinition S) → List (Text × S)
  unfolding lookup
  tool_specs_from specs [] = specs
  tool_specs_from specs (d ∷ rest) =
      tool_specs_from (if contains_key d.name specs then specs else specs ++ (d.name, d.spec) ∷ [])
        rest

  unfoldable pub tool_specs : List (ClientToolDefinition S) → List (Text × S)
  unfolding tool_specs_from
  tool_specs definitions = tool_specs_from [] definitions

  unfoldable pub enabled_tool_specs : AgentSpec → List (ClientToolDefinition S) → List (Text × S)
  unfolding tool_specs
  enabled_tool_specs spec definitions = elim spec.client_tools [
    | none ↦ tool_specs definitions
    | some enabled ↦
        select (λ (t : Text × S). any (λ e. text_eq e t.0) enabled) (tool_specs definitions)
  ]

-- What a call of the executor yields.
pub data Executed (V M X : Type 0) : Type 0 where
  ok : ClientToolOutput V M → Executed V M X
  err : ClientToolExecutorError X → Executed V M X

module _ {X : Type 0} (show : X → Text) where
  -- The `Display` of `ClientToolExecutorError`.
  unfoldable pub error_text : ClientToolExecutorError X → Text
  error_text (unknown name) = codes "unknown tool `" ++ name ++ codes "`"
  error_text (execution source) = codes "execution failed: " ++ show source

module _ {V M X : Type 0} (values : Values V) (show : X → Text) where
  -- A failure becomes a result that the model sees.
  unfoldable pub tool_output : ClientToolCall V → Executed V M X → ClientToolOutput V M
  unfolding error_text
  tool_output call (ok output) = output
  tool_output call (err error) = record {
    result =
        ClientToolResultContent.text
          (codes "tool `" ++ call.name ++ codes "` failed: " ++ error_text show error);
    media = [];
    is_error = true;
    trace_response = values.object ((codes "error", values.string (error_text show error)) ∷ []);
    usage = [];
  }

-- A call whose future never resolves, or panics.
pub data Stuck : Type 0 where
  hangs panics : Stuck

-- The calls run together: a panic of one reaches the run, whatever the others do.
abbrev pub worse : Option Stuck → Option Stuck → Option Stuck
worse none later = later
worse (some panics) later = some panics
worse (some hangs) none = some hangs
worse (some hangs) (some later) = some later

module _ {V S : Type 0} (enabled_tools : List (Text × S))
    (stuck : ℕ → ClientToolCall V → Option Stuck) where
  -- Whether and how the calls of a step keep the run from going on; a tool that is not enabled is not
  -- called.
  unfoldable pub stuck_calls : ℕ → List (ClientToolCall V) → Option Stuck
  unfolding lookup
  stuck_calls n [] = none
  stuck_calls n (call ∷ rest) =
      let later = stuck_calls (n + 1) rest in
      if contains_key call.name enabled_tools then worse (stuck n call) later else later

-- What a completed call gives to the run: its result, its trace and its media.
abbrev pub Completed : Type 0 → Type 0 → Type 0
Completed V M = ClientToolResult V × ClientToolTrace V × List M

unfoldable pub complete : {V M : Type 0} → ClientToolCall V → ClientToolOutput V M → Completed V M
complete {V = W} call output =
    let result : ClientToolResult W = record {
      tool_use_id = call.id;
      content = output.result;
      is_error = output.is_error;
    } in
    (
      result,
      record {
        call = call;
        result = result;
        trace_response = output.trace_response;
        usage = output.usage;
      },
      output.media,
    )

module _ {V M S X : Type 0} (values : Values V) (show : X → Text) (enabled_tools : List (Text × S))
    (execute : ℕ → ClientToolCall V → Executed V M X) where
  unfoldable pub call_client_tool : ℕ → ClientToolCall V → Executed V M X
  unfolding lookup
  call_client_tool n call =
      if contains_key call.name enabled_tools then execute n call else err (unknown call.name)

  -- `execute_client_tool_calls`: `FuturesOrdered` yields in the order of the calls. The number tells
  -- the executions apart, so that equal calls may have different results.
  unfoldable pub execute_client_tool_calls : ℕ → List (ClientToolCall V) → List (Completed V M)
  unfolding call_client_tool tool_output complete
  execute_client_tool_calls n [] = []
  execute_client_tool_calls n (call ∷ rest) =
      complete call (tool_output values show call (call_client_tool n call))
      ∷ execute_client_tool_calls (n + 1) rest
