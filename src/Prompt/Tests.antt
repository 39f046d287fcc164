-- ===== src/Prompt/Tests.antt =====
-- Prompt changes on concrete values: crates/chudbot-bot/src/turns.rs and
-- crates/chudbot-storage-sqlx/src/snapshots.rs.
use chudbot.Common.{
  text_lt, true, ◌≡◌, refl, none, some, List, [], ◌∷◌, ◌++◌, map, All, Text, codes, text_eq, select,
}
use chudbot.Model.{TranscriptTurn}
use chudbot.Agent.{ℤ}
use chudbot.Fixtures.{Value, prompt_json}
use chudbot.Prompt.{
  is_i32, RenderedAgentInstructionPart, AgentInstructionSnapshot, StoredAgentInstructionState,
}
use chudbot.Prompt.Changes.{prompt_turns, stored_agent_instruction_state}
use chudbot.Prompt.Markers.{
  StoredPromptMarker, PromptStateBoundary, stored_prompt_marker, turn_row,
  stored_agent_instruction_state_at_boundary, prompt_marker_is_visible_at_boundary, apply_markers,
  into_snapshot,
}
use chudbot.Prompt.Shown.{IsDistinct}
use chudbot.Prompt.After.{Shows}
use chudbot.Prompt.Laws.{at_attempt, prompt_turns-Shows}

abbrev marker : ℤ → Text → ℤ → Text → StoredPromptMarker
marker turn key ordinal text = record {
  turn_ordinal = turn;
  attempt_ordinal = ℤ.pos 0;
  part_key = some key;
  part_ordinal = ordinal;
  text = text;
}

-- The markers of the test `stored_agent_instruction_state_keeps_latest_marker_per_part_key`.
abbrev markers : List StoredPromptMarker
markers =
    marker (ℤ.pos 1) (codes "operator_policy") (ℤ.pos 0) (codes "policy")
    ∷ marker (ℤ.pos 1) (codes "bot_version") (ℤ.pos 1) (codes "v1")
    ∷ marker (ℤ.pos 2) (codes "bot_version") (ℤ.pos 1) (codes "v2")
    ∷ marker (ℤ.pos 3) (codes "bot_version") (ℤ.pos 1) (codes "v3")
    ∷ []

abbrev boundary : PromptStateBoundary
boundary = record { turn_id = codes "t4"; turn_ordinal = ℤ.pos 4; attempt_ordinal = none }

latest_marker_per_part_key :
    stored_agent_instruction_state_at_boundary markers boundary
    ≡ some (
        AgentInstructionSnapshot.parts (
          record { key = codes "operator_policy"; ordinal = ℤ.pos 0; text = codes "policy" }
          ∷ record { key = codes "bot_version"; ordinal = ℤ.pos 1; text = codes "v3" }
          ∷ []))
unfolding stored_agent_instruction_state_at_boundary prompt_marker_is_visible_at_boundary
    apply_markers into_snapshot text_eq text_lt
latest_marker_per_part_key = refl

abbrev parts : List RenderedAgentInstructionPart
parts =
    record {
      key = codes "operator_policy";
      ordinal = ℤ.pos 0;
      text = codes "policy";
      update_text = none;
    }
    ∷ record {
      key = codes "bot_version";
      ordinal = ℤ.pos 1;
      text = codes "is v4";
      update_text = some (codes "now v4");
    }
    ∷ record { key = codes "persona"; ordinal = ℤ.pos 2; text = codes "kind"; update_text = none }
    ∷ []

abbrev previous : StoredAgentInstructionState
previous =
    stored_agent_instruction_state (stored_agent_instruction_state_at_boundary markers boundary)

parts-IsDistinct : IsDistinct parts
unfolding IsDistinct text_eq
parts-IsDistinct = (refl, (refl, (refl, tt)))

parts_small : All (λ (part : RenderedAgentInstructionPart). is_i32 part.ordinal ≡ true) parts
unfolding is_i32
parts_small = (refl, (refl, (refl, tt)))

same_markers :
    select
      (prompt_marker_is_visible_at_boundary (at_attempt (codes "t4") (ℤ.pos 4) (ℤ.pos 0)))
      markers
    ≡ select (prompt_marker_is_visible_at_boundary boundary) markers
unfolding prompt_marker_is_visible_at_boundary
same_markers = refl

-- A change of one part and a new part, stored before the fourth turn.
prompt_turns-Shows_example : Shows parts (
    stored_agent_instruction_state (
      stored_agent_instruction_state_at_boundary
        (markers
          ++ map (stored_prompt_marker prompt_json) (
              map
                (λ (turn : TranscriptTurn Value Unit). turn_row (ℤ.pos 4) (ℤ.pos 0) (ℤ.pos 7) turn)
                (prompt_turns prompt_json (some (codes "c1")) (codes "t4") previous parts)))
        (at_attempt (codes "t4") (ℤ.pos 4) (ℤ.pos 0))))
prompt_turns-Shows_example =
    prompt_turns-Shows Unit prompt_json (some (codes "c1")) (codes "t4") parts markers boundary
      (ℤ.pos 4) (ℤ.pos 0) (λ turn. ℤ.pos 7) parts-IsDistinct parts_small same_markers
