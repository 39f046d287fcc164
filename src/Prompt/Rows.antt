-- ===== src/Prompt/Rows.antt =====
-- Reading back the turn of a changed part: crates/chudbot-bot/src/turns.rs writes it and
-- crates/chudbot-storage-sqlx/src/snapshots.rs makes a marker of its row.
use chudbot.Common.{
  true, false, ◌≡◌, refl, ◌∙◌, sym, Option, some, [], ◌∷◌, lookup, insert, lookup-insert, text_eq,
  Text, codes, text_key, Bool-cases, Option-cases, inl, inr,
}
use chudbot.Model.{ContentBlock, TranscriptTurn}
use chudbot.Agent.{ℤ}
use chudbot.Agent.Instructions.{
  agent_instruction_part_turn, agent_instruction_part_key, id_entry, agent_instructions_key,
}
use chudbot.Prompt.{Json, is_i32, RenderedAgentInstructionPart, StoredAgentInstructionState}
use chudbot.Prompt.Changes.{
  prompt_turn, set_transcript_message_id, agent_instruction_part_marker_text, use_turn_scoped_ids,
}
use chudbot.Prompt.Markers.{
  turn_row, first_text, StoredPromptMarker, stored_prompt_marker, row_part_key, row_part_ordinal,
  row_is_part,
}

-- The marker of a labeled part.
abbrev pub labeled : ℤ → ℤ → Text → ℤ → Text → StoredPromptMarker
labeled turn_ordinal attempt_ordinal key ordinal text = record {
  turn_ordinal = turn_ordinal;
  attempt_ordinal = attempt_ordinal;
  part_key = some key;
  part_ordinal = ordinal;
  text = text;
}

module _ {V : Type 0} (M : Type 0) (json : Json V) where
  get_of_set :
      (turn : TranscriptTurn V M) (id key : Text)
      → text_eq (codes "id") key ≡ false
      → json.values.get (set_transcript_message_id json turn id).metadata key
        ≡ json.values.get turn.metadata key
  unfolding set_transcript_message_id
  get_of_set turn id key other = elim (Option-cases (json.as_object turn.metadata)) [
    | inl e ↦ rw (e, set_transcript_message_id) refl
    | inr (m, e) ↦
        rw
          (
            e,
            set_transcript_message_id,
            json.values.get-object (insert (codes "id") (json.values.string id) m) key,
            lookup-insert (codes "id") key (json.values.string id) m,
            other,
          )
          (sym (json.as_object-get turn.metadata m key e))
  ]

  blocks_of_set :
      (turn : TranscriptTurn V M) (id : Text)
      → (set_transcript_message_id json turn id).blocks ≡ turn.blocks
  unfolding set_transcript_message_id
  blocks_of_set turn id = elim (Option-cases (json.as_object turn.metadata)) [
    | inl e ↦ rw (e, set_transcript_message_id) refl
    | inr (m, e) ↦ rw (e, set_transcript_message_id) refl
  ]

  -- What the metadata of a prompt turn has under another key than `id`.
  get_of_prompt_turn :
      (id : Option Text) (turn_id : Text) (previous : StoredAgentInstructionState)
      (part : RenderedAgentInstructionPart) (key : Text)
      → text_eq (codes "id") key ≡ false
      → json.values.get (prompt_turn {M = M} json id turn_id previous part).metadata key
        ≡ lookup key (
            (agent_instructions_key, json.values.bool true)
            ∷ (agent_instruction_part_key, json.values.bool true)
            ∷ (codes "agent_instruction_part_key", json.values.string part.key)
            ∷ (codes "agent_instruction_part_ordinal", json.values.number part.ordinal)
            ∷ id_entry json.values id part.key)
  unfolding prompt_turn agent_instruction_part_turn
  get_of_prompt_turn id turn_id previous part key other =
      elim (Bool-cases (use_turn_scoped_ids previous)) [
        | inl scoped ↦
            rw (scoped, prompt_turn) (get_of_set _ _ key other ∙ json.values.get-object _ key)
        | inr plain ↦ rw (plain, prompt_turn) (json.values.get-object _ key)
      ]

  blocks_of_prompt_turn :
      (id : Option Text) (turn_id : Text) (previous : StoredAgentInstructionState)
      (part : RenderedAgentInstructionPart)
      → (prompt_turn {M = M} json id turn_id previous part).blocks
        ≡ ContentBlock.text (agent_instruction_part_marker_text part previous) ∷ []
  unfolding prompt_turn agent_instruction_part_turn
  blocks_of_prompt_turn id turn_id previous part =
      elim (Bool-cases (use_turn_scoped_ids previous)) [
        | inl scoped ↦ rw (scoped, prompt_turn) (blocks_of_set _ _)
        | inr plain ↦ rw (plain, prompt_turn) refl
      ]

  pub stored_prompt_marker-turn_row :
      (id : Option Text) (turn_id : Text) (previous : StoredAgentInstructionState) (t a m : ℤ)
      (part : RenderedAgentInstructionPart)
      → is_i32 part.ordinal ≡ true
      → stored_prompt_marker json
          (turn_row t a m (prompt_turn {M = M} json id turn_id previous part))
        ≡ labeled t a part.key part.ordinal (agent_instruction_part_marker_text part previous)
  unfolding stored_prompt_marker row_part_key row_part_ordinal row_is_part lookup text_eq first_text
  stored_prompt_marker-turn_row id turn_id previous t a m part small =
      rw
        (
          stored_prompt_marker,
          row_part_key,
          row_part_ordinal,
          row_is_part,
          blocks_of_prompt_turn id turn_id previous part,
          get_of_prompt_turn id turn_id previous part agent_instruction_part_key refl,
          get_of_prompt_turn id turn_id previous part (codes "agent_instruction_part_key") refl,
          get_of_prompt_turn id turn_id previous part (codes "agent_instruction_part_ordinal") refl,
          json.values.as_bool-bool true,
          json.as_str-string part.key,
          json.as_i64-number part.ordinal small,
          small,
        )
        refl
