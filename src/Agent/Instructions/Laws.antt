-- ===== src/Agent/Instructions/Laws.antt =====
-- The laws of prompt instructions in crates/chudbot-api/src/agent.rs.
use chudbot.Common.{
  true, false, not, ◌≡◌, refl, List, [], ◌∷◌, ◌++◌, map, any, select, Bool-cases, inl, inr,
  is_empty, Option, Text, lookup, text_eq, ◌⊎◌,
}
use chudbot.Model.{Transcript, TranscriptTurn}
use chudbot.Agent.{ℤ, Values, AgentInstructionPart}
use chudbot.Agent.Instructions.{
  prepare, prompt_turns, is_agent_instructions_turn, agent_instruction_part_turn, sort_parts,
  agent_instructions_key,
}

-- A turn that the agent makes is one that it recognises.
recognised :
    {V : Type 0} (M : Type 0) (values : Values V) (id : Option Text) (key : Text) (ordinal : ℤ)
    (text : Text)
    → is_agent_instructions_turn {M = M} values
        (agent_instruction_part_turn values id key ordinal text)
      ≡ true
unfolding is_agent_instructions_turn agent_instruction_part_turn lookup text_eq
recognised M values id key ordinal text =
    rw (values.get-object _ agent_instructions_key) (rw (values.as_bool-bool true) refl)

module _ {V M : Type 0} (values : Values V) where
  abbrev part_turn : Option Text → AgentInstructionPart → TranscriptTurn V M
  part_turn id part = agent_instruction_part_turn values id part.key part.ordinal part.text

  none_or_recognised :
      (id : Option Text) (parts : List AgentInstructionPart) (turns : List (TranscriptTurn V M))
      → any (is_agent_instructions_turn values) turns ≡ false
      → (prompt_turns {M = M} values id parts ≡ [])
        ⊎ (any (is_agent_instructions_turn values) (prompt_turns values id parts ++ turns) ≡ true)
  unfolding prompt_turns
  none_or_recognised id parts turns h =
      go (select (λ (part : AgentInstructionPart). not (is_empty part.text)) (sort_parts parts))
    where
      go :
          (l : List AgentInstructionPart)
          → (map (part_turn id) l ≡ [])
            ⊎ (any (is_agent_instructions_turn values) (map (part_turn id) l ++ turns) ≡ true)
      go [] = inl refl
      go (part ∷ l) = inr (rw (recognised M values id part.key part.ordinal part.text) refl)

  -- A run puts the prompt in front once: preparing a transcript that a run has prepared, with the
  -- same instructions, changes nothing, so a conversation that is continued keeps one prompt.
  pub prepare-prepare :
      (parts : List AgentInstructionPart) (transcript : Transcript V M)
      → prepare values parts (prepare values parts transcript) ≡ prepare values parts transcript
  unfolding prepare
  prepare-prepare parts transcript =
      elim (Bool-cases (any (is_agent_instructions_turn values) transcript.turns)) [
        | inl has ↦ simp (has)
        | inr hasnt ↦ elim (none_or_recognised transcript.id parts transcript.turns hasnt) [
          | inl nothing ↦ simp (hasnt, nothing)
          | inr something ↦ simp (hasnt, something)
        ]
      ]
