-- ===== src/Agent/Instructions.antt =====
-- Prompt instructions in crates/chudbot-api/src/agent.rs: the turns that carry them, and how a run
-- puts them in front of a transcript that has none.
pub mod Laws
use chudbot.Common.{
  ℕ, Bool, true, false, not, ◌&&◌, Option, none, some, List, [], ◌∷◌, ◌++◌, map, if◌then◌else◌,
  is_empty, any, select, Text, codes,
}
use chudbot.Model.{TurnRole, TranscriptTurn, Transcript, ContentBlock}
use chudbot.Agent.{ℤ, leb_ℤ, Values, AgentInstructionPart}

abbrev pub agent_instructions_key : Text
agent_instructions_key = codes "agent_instructions"

abbrev pub agent_instruction_part_key : Text
agent_instruction_part_key = codes "agent_instruction_part"

abbrev pub is_system : TurnRole → Bool
is_system TurnRole.system = true
is_system _ = false

abbrev unwrap_or_false : Option Bool → Bool
unwrap_or_false none = false
unwrap_or_false (some b) = b

-- `sort_by_key`: a stable insertion sort by ordinal.
unfoldable pub insert_part :
    AgentInstructionPart → List AgentInstructionPart → List AgentInstructionPart
insert_part p [] = p ∷ []
insert_part p (q ∷ rest) =
    if leb_ℤ p.ordinal q.ordinal then p ∷ q ∷ rest else q ∷ insert_part p rest

unfoldable pub sort_parts : List AgentInstructionPart → List AgentInstructionPart
unfolding insert_part
sort_parts [] = []
sort_parts (p ∷ rest) = insert_part p (sort_parts rest)

-- The metadata `id`, when the transcript has one.
abbrev pub id_entry : {V : Type 0} → Values V → Option Text → Text → List (Text × V)
id_entry values none key = []
id_entry values (some id) key =
    (codes "id", values.string (codes "chudbot_conversation_" ++ id ++ codes "_system_" ++ key))
    ∷ []

module _ {V M : Type 0} (values : Values V) where
  unfoldable pub is_agent_instructions_turn : TranscriptTurn V M → Bool
  is_agent_instructions_turn turn =
      is_system turn.role && (elim (values.get turn.metadata agent_instructions_key) [
        | none ↦ false
        | some value ↦ unwrap_or_false (values.as_bool value)
      ])

  unfoldable pub agent_instruction_part_turn : Option Text → Text → ℤ → Text → TranscriptTurn V M
  agent_instruction_part_turn transcript_id key ordinal text = record {
    role = TurnRole.system;
    blocks = ContentBlock.text text ∷ [];
    metadata = values.object (
        (agent_instructions_key, values.bool true)
        ∷ (agent_instruction_part_key, values.bool true)
        ∷ (codes "agent_instruction_part_key", values.string key)
        ∷ (codes "agent_instruction_part_ordinal", values.number ordinal)
        ∷ id_entry values transcript_id key);
  }

  -- The turns put in front: the parts that are not empty, by ordinal.
  unfoldable pub prompt_turns : Option Text → List AgentInstructionPart → List (TranscriptTurn V M)
  unfolding sort_parts agent_instruction_part_turn
  prompt_turns id parts =
      map
        (λ (part : AgentInstructionPart).
          agent_instruction_part_turn id part.key part.ordinal part.text)
        (select (λ part. not (is_empty part.text)) (sort_parts parts))

  -- The first lines of `Agent::run`.
  unfoldable pub prepare : List AgentInstructionPart → Transcript V M → Transcript V M
  unfolding prompt_turns is_agent_instructions_turn
  prepare parts transcript =
      if any is_agent_instructions_turn transcript.turns
      then transcript
      else record transcript { turns = prompt_turns transcript.id parts ++ transcript.turns }
