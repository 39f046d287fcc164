-- ===== src/Agent/Leading.antt =====
-- The leading system turns of a transcript in crates/chudbot-api/src/transcript.rs, which providers with one
-- field for instructions take out of the stream of messages.
use chudbot.Common.{
  ℕ, suc, Bool, false, ◌&&◌, Option, none, some, List, [], ◌∷◌, ◌++◌, if◌then◌else◌, is_empty, take,
  Text,
}
use chudbot.Model.{TranscriptTurn, Transcript, ContentBlock}
use chudbot.Agent.{Values}
use chudbot.Agent.Instructions.{agent_instructions_key, is_system}

module _ {V M : Type 0} (values : Values V) where
  unfoldable pub is_agent_instruction_turn : TranscriptTurn V M → Bool
  is_agent_instruction_turn turn = elim (values.get turn.metadata agent_instructions_key) [
    | none ↦ false
    | some value ↦ elim (values.as_bool value) [ none ↦ false | some b ↦ b ]
  ]

  -- `take_while` and `count`.
  unfoldable pub marked_count : List (TranscriptTurn V M) → ℕ
  unfolding is_agent_instruction_turn
  marked_count [] = 0
  marked_count (turn ∷ turns) =
      let rest = marked_count turns in
      if is_system turn.role && is_agent_instruction_turn turn then suc rest else 0

  unfoldable pub leading_count : List (TranscriptTurn V M) → ℕ
  unfolding marked_count is_agent_instruction_turn
  leading_count [] = 0
  leading_count (first ∷ turns) =
      if is_system first.role
      then if is_agent_instruction_turn first then marked_count (first ∷ turns) else 1
      else 0

  unfoldable pub leading_system_turn_count : Transcript V M → ℕ
  unfolding leading_count
  leading_system_turn_count transcript = leading_count transcript.turns

-- The text blocks that are not empty.
unfoldable pub block_texts : {V M : Type 0} → List (ContentBlock V M) → List Text
block_texts [] = []
block_texts (ContentBlock.text text ∷ blocks) =
    if is_empty text then block_texts blocks else text ∷ block_texts blocks
block_texts (ContentBlock.media _ ∷ blocks) = block_texts blocks
block_texts (ContentBlock.client_tool_call _ ∷ blocks) = block_texts blocks
block_texts (ContentBlock.client_tool_result _ ∷ blocks) = block_texts blocks
block_texts (ContentBlock.continuation _ ∷ blocks) = block_texts blocks

unfoldable pub turn_texts : {V M : Type 0} → List (TranscriptTurn V M) → List Text
unfolding block_texts
turn_texts [] = []
turn_texts (turn ∷ turns) = block_texts turn.blocks ++ turn_texts turns

-- `join("\n\n")`.
unfoldable pub join_paragraphs : List Text → Text
join_paragraphs [] = []
join_paragraphs (text ∷ []) = text
join_paragraphs (text ∷ next ∷ texts) = text ++ (10 ∷ 10 ∷ join_paragraphs (next ∷ texts))

unfoldable pub leading_system_text : {V M : Type 0} → Values V → Transcript V M → Option Text
unfolding leading_system_turn_count turn_texts join_paragraphs
leading_system_text values transcript =
    let text =
      join_paragraphs
        (turn_texts (take (leading_system_turn_count values transcript) transcript.turns)) in
    if is_empty text then none else some text
