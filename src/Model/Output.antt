-- ===== src/Model/Output.antt =====
-- The views of a collected step: `impl ModelStepOutput` in crates/chudbot-api/src/llm.rs.
use chudbot.Common.{Option, none, some, List, [], ◌∷◌}
use chudbot.Model.{
  ClientToolCall, ServerToolUse, GroundingMetadata, ProviderContinuation, ContentBlock,
  ModelOutputBlock, ModelStepItem, ModelStepOutput,
}

-- `Iterator::filter_map`.
unfoldable pub filter_map {ℓ κ} : {A : Type ℓ} {B : Type κ} → (A → Option B) → List A → List B
filter_map f [] = []
filter_map f (x ∷ xs) = elim (f x) [ none ↦ filter_map f xs | some y ↦ y ∷ filter_map f xs ]

-- `Iterator::last`.
unfoldable pub last {ℓ} : {A : Type ℓ} → List A → Option A
last [] = none
last (x ∷ xs) = elim (last xs) [ none ↦ some x | some y ↦ some y ]

module _ {V : Type 0} where
  abbrev pub as_output_block : ModelStepItem V → Option (ModelOutputBlock V)
  as_output_block (ModelStepItem.output_block block) = some block
  as_output_block (ModelStepItem.reasoning _) = none
  as_output_block (ModelStepItem.server_tool_use _) = none
  as_output_block (ModelStepItem.grounding _) = none

  unfoldable pub output_blocks : ModelStepOutput V → List (ModelOutputBlock V)
  output_blocks output = filter_map as_output_block output.items

  abbrev pub as_client_tool_call : ModelOutputBlock V → Option (ClientToolCall V)
  as_client_tool_call (ModelOutputBlock.client_tool_call call) = some call
  as_client_tool_call (ModelOutputBlock.text _) = none
  as_client_tool_call (ModelOutputBlock.continuation _) = none

  unfoldable pub client_tool_calls : ModelStepOutput V → List (ClientToolCall V)
  unfolding output_blocks
  client_tool_calls output = filter_map as_client_tool_call (output_blocks output)

  abbrev pub as_server_tool_use : ModelStepItem V → Option (ServerToolUse V)
  as_server_tool_use (ModelStepItem.server_tool_use tool) = some tool
  as_server_tool_use (ModelStepItem.output_block _) = none
  as_server_tool_use (ModelStepItem.reasoning _) = none
  as_server_tool_use (ModelStepItem.grounding _) = none

  unfoldable pub server_tool_uses : ModelStepOutput V → List (ServerToolUse V)
  server_tool_uses output = filter_map as_server_tool_use output.items

  abbrev pub as_grounding : ModelStepItem V → Option (GroundingMetadata V)
  as_grounding (ModelStepItem.grounding metadata) = some metadata
  as_grounding (ModelStepItem.output_block _) = none
  as_grounding (ModelStepItem.reasoning _) = none
  as_grounding (ModelStepItem.server_tool_use _) = none

  unfoldable pub grounding : ModelStepOutput V → List (GroundingMetadata V)
  grounding output = filter_map as_grounding output.items

  abbrev pub as_continuation : ModelOutputBlock V → Option (ProviderContinuation V)
  as_continuation (ModelOutputBlock.continuation continuation) = some continuation
  as_continuation (ModelOutputBlock.text _) = none
  as_continuation (ModelOutputBlock.client_tool_call _) = none

  unfoldable pub continuation : ModelStepOutput V → Option (ProviderContinuation V)
  unfolding output_blocks
  continuation output = last (filter_map as_continuation (output_blocks output))

module _ {V M : Type 0} where
  unfoldable pub into_content_block : ModelOutputBlock V → ContentBlock V M
  into_content_block (ModelOutputBlock.text text) = ContentBlock.text text
  into_content_block (ModelOutputBlock.client_tool_call call) = ContentBlock.client_tool_call call
  into_content_block (ModelOutputBlock.continuation c) = ContentBlock.continuation c

  unfoldable pub transcript_blocks : ModelStepOutput V → List (ContentBlock V M)
  unfolding output_blocks into_content_block
  transcript_blocks output =
      filter_map (λ block. some (into_content_block block)) (output_blocks output)

  abbrev pub as_answer : ModelOutputBlock V → Option (ContentBlock V M)
  as_answer (ModelOutputBlock.text text) = some (ContentBlock.text text)
  as_answer (ModelOutputBlock.client_tool_call _) = none
  as_answer (ModelOutputBlock.continuation _) = none

  unfoldable pub answer_blocks : ModelStepOutput V → List (ContentBlock V M)
  unfolding output_blocks
  answer_blocks output = filter_map as_answer (output_blocks output)
