-- ===== src/Prompt/Changes.antt =====
-- Prompt changes in crates/chudbot-bot/src/turns.rs: the parts of the prompt that differ from the
-- stored state, and the system turns that are put before the current turn for them. The ids of
-- turns are those of crates/chudbot-bot/src/transcript.rs.
use chudbot.Common.{
  ℕ, suc, Bool, true, false, not, ◌||◌, Option, none, some, List, [], ◌∷◌, ◌++◌, map, if◌then◌else◌,
  is_empty, select, Text, codes, text_eq, option_text_eq, concat, take, drop, length, insert,
  insert_ordered, sort, lookup, text_key,
}
use chudbot.Model.{TurnRole, TranscriptTurn, Transcript}
use chudbot.Agent.{leb_ℤ}
use chudbot.Agent.Instructions.{agent_instruction_part_turn, is_system}
use chudbot.Prompt.{
  Json, AgentInstructionPartSnapshot, AgentInstructionSnapshot, RenderedAgentInstructionPart,
  StoredAgentInstructionState, eq_ℤ,
}

unfoldable pub turn_transcript_message_id : Text → Text → Text
turn_transcript_message_id turn_id role = codes "chudbot_turn_" ++ turn_id ++ codes "_" ++ role

unfoldable pub turn_agent_instruction_message_id : Text → Option Text → Text
turn_agent_instruction_message_id turn_id (some key) =
    codes "chudbot_turn_" ++ turn_id ++ codes "_system_" ++ key
turn_agent_instruction_message_id turn_id none = codes "chudbot_turn_" ++ turn_id ++ codes "_system"

-- `RenderedAgentInstructionPart::matches_persisted_text`.
unfoldable pub matches_persisted_text : RenderedAgentInstructionPart → Text → Bool
unfolding option_text_eq
matches_persisted_text part text =
    text_eq part.text text || option_text_eq part.update_text (some text)

unfoldable pub join_agent_instruction_parts : List RenderedAgentInstructionPart → Text
join_agent_instruction_parts parts =
    concat (map (λ (part : RenderedAgentInstructionPart). part.text) parts)

unfoldable pub find_part :
    Text → List AgentInstructionPartSnapshot → Option AgentInstructionPartSnapshot
find_part key [] = none
find_part key (part ∷ rest) = if text_eq part.key key then some part else find_part key rest

-- `StoredAgentInstructionState::labeled_part`.
unfoldable pub labeled_part :
    StoredAgentInstructionState → Text → Option AgentInstructionPartSnapshot
unfolding find_part
labeled_part (StoredAgentInstructionState.labeled_parts parts) key = find_part key parts
labeled_part (StoredAgentInstructionState.none) key = none
labeled_part (StoredAgentInstructionState.legacy_text _) key = none

-- What `stored_agent_instruction_state_before_turn` gives for the snapshot it finds, or for none.
unfoldable pub stored_agent_instruction_state :
    Option AgentInstructionSnapshot → StoredAgentInstructionState
stored_agent_instruction_state none = StoredAgentInstructionState.none
stored_agent_instruction_state (some (AgentInstructionSnapshot.parts parts)) =
    StoredAgentInstructionState.labeled_parts parts
stored_agent_instruction_state (some (AgentInstructionSnapshot.legacy_text text)) =
    StoredAgentInstructionState.legacy_text text

-- `collect::<BTreeMap<_, _>>`: a later part of a key replaces an earlier one.
unfoldable pub by_key :
    List (Text × AgentInstructionPartSnapshot)
    → List AgentInstructionPartSnapshot
    → List (Text × AgentInstructionPartSnapshot)
by_key m [] = m
by_key m (part ∷ rest) = by_key (insert_ordered part.key part m) rest

-- The test of the filter for labeled parts.
unfoldable pub is_changed :
    List (Text × AgentInstructionPartSnapshot) → RenderedAgentInstructionPart → Bool
unfolding lookup matches_persisted_text eq_ℤ
is_changed previous_by_key part = elim (lookup part.key previous_by_key) [
  | none ↦ true
  | some previous ↦
      not (eq_ℤ previous.ordinal part.ordinal) || not (matches_persisted_text part previous.text)
]

unfoldable pub changed_agent_instruction_parts :
    List RenderedAgentInstructionPart
    → StoredAgentInstructionState
    → List RenderedAgentInstructionPart
unfolding by_key is_changed join_agent_instruction_parts text_eq
changed_agent_instruction_parts current (StoredAgentInstructionState.labeled_parts parts) =
    select (is_changed (by_key [] parts)) current
changed_agent_instruction_parts current (StoredAgentInstructionState.legacy_text previous) =
    if text_eq previous (join_agent_instruction_parts current)
    then []
    else select (λ (part : RenderedAgentInstructionPart). not (is_empty part.text)) current
changed_agent_instruction_parts current (StoredAgentInstructionState.none) =
    select (λ (part : RenderedAgentInstructionPart). not (is_empty part.text)) current

unfoldable pub agent_instruction_part_marker_text :
    RenderedAgentInstructionPart → StoredAgentInstructionState → Text
unfolding labeled_part matches_persisted_text
agent_instruction_part_marker_text part previous_state =
    elim (labeled_part previous_state part.key) [
      | none ↦ part.text
      | some previous ↦
          if matches_persisted_text part previous.text
          then part.text
          else elim part.update_text [ none ↦ part.text | some update_text ↦ update_text ]
    ]

unfoldable pub use_turn_scoped_ids : StoredAgentInstructionState → Bool
use_turn_scoped_ids (StoredAgentInstructionState.none) = false
use_turn_scoped_ids (StoredAgentInstructionState.legacy_text _) = true
use_turn_scoped_ids (StoredAgentInstructionState.labeled_parts _) = true

-- `iter().position`.
unfoldable pub position {ℓ} : {A : Type ℓ} → (A → Bool) → List A → Option ℕ
position p [] = none
position p (x ∷ xs) =
    let rest = position p xs in
    if p x then some 0 else elim rest [ none ↦ none | some i ↦ some (suc i) ]

abbrev pub is_user : TurnRole → Bool
is_user TurnRole.user = true
is_user _ = false

abbrev pub ordinal_le : RenderedAgentInstructionPart → RenderedAgentInstructionPart → Bool
ordinal_le a b = leb_ℤ a.ordinal b.ordinal

module _ {V M : Type 0} (json : Json V) where
  unfoldable pub set_transcript_message_id : TranscriptTurn V M → Text → TranscriptTurn V M
  unfolding insert
  set_transcript_message_id turn id = elim (json.as_object turn.metadata) [
    | none ↦ turn
    | some metadata ↦ record turn {
      metadata = json.values.object (insert (codes "id") (json.values.string id) metadata);
    }
  ]

  -- The turn of a changed part, as the closure of the `map` makes it.
  unfoldable pub prompt_turn :
      Option Text
      → Text
      → StoredAgentInstructionState
      → RenderedAgentInstructionPart
      → TranscriptTurn V M
  unfolding agent_instruction_part_turn agent_instruction_part_marker_text set_transcript_message_id
      turn_agent_instruction_message_id use_turn_scoped_ids
  prompt_turn id current_turn_id previous_state part =
      let turn =
        agent_instruction_part_turn json.values id part.key part.ordinal
          (agent_instruction_part_marker_text part previous_state) in
      if use_turn_scoped_ids previous_state
      then set_transcript_message_id turn
          (turn_agent_instruction_message_id current_turn_id (some part.key))
      else turn

  unfoldable pub prompt_turns :
      Option Text
      → Text
      → StoredAgentInstructionState
      → List RenderedAgentInstructionPart
      → List (TranscriptTurn V M)
  unfolding prompt_turn sort changed_agent_instruction_parts
  prompt_turns id current_turn_id previous_state current_parts =
      map (prompt_turn id current_turn_id previous_state)
        (sort ordinal_le (changed_agent_instruction_parts current_parts previous_state))

  -- The metadata id of a turn is one of two.
  unfoldable pub is_current : Text → TranscriptTurn V M → Bool
  unfolding turn_transcript_message_id text_eq
  is_current current_turn_id turn = elim (json.values.get turn.metadata (codes "id")) [
    | none ↦ false
    | some value ↦ elim (json.as_str value) [
      | none ↦ false
      | some id ↦
          text_eq id (turn_transcript_message_id current_turn_id (codes "system"))
          || text_eq id (turn_transcript_message_id current_turn_id (codes "user"))
    ]
  ]

  -- The number of turns left when the system turns at the front of a reversed prefix are dropped.
  unfoldable pub before_systems : List (TranscriptTurn V M) → ℕ
  before_systems [] = 0
  before_systems (turn ∷ earlier) =
      if is_system turn.role then before_systems earlier else suc (length earlier)

  -- The last user turn, and the system turns right before it: `earlier` is reversed.
  unfoldable pub without_metadata_from :
      List (TranscriptTurn V M) → List (TranscriptTurn V M) → Option ℕ
  unfolding before_systems
  without_metadata_from earlier [] = none
  without_metadata_from earlier (turn ∷ turns) =
      let rest = without_metadata_from (turn ∷ earlier) turns in
      elim rest [
        | some index ↦ some index
        | none ↦ if is_user turn.role then some (before_systems earlier) else none
      ]

  unfoldable pub current_context_start_index_without_metadata : Transcript V M → Option ℕ
  unfolding without_metadata_from
  current_context_start_index_without_metadata transcript =
      without_metadata_from [] transcript.turns

  unfoldable pub current_turn_context_start_index : Transcript V M → Text → ℕ
  unfolding position is_current current_context_start_index_without_metadata
  current_turn_context_start_index transcript current_turn_id =
      elim (position (is_current current_turn_id) transcript.turns) [
        | some index ↦ index
        | none ↦ elim (current_context_start_index_without_metadata transcript) [
          | some index ↦ index
          | none ↦ length transcript.turns
        ]
      ]

  unfoldable pub insert_prompt_turns_before_current_turn :
      Transcript V M → Text → List (TranscriptTurn V M) → Transcript V M
  unfolding current_turn_context_start_index
  insert_prompt_turns_before_current_turn transcript current_turn_id [] = transcript
  insert_prompt_turns_before_current_turn transcript current_turn_id (turn ∷ more) =
      let index = current_turn_context_start_index transcript current_turn_id in
      record transcript {
        turns = take index transcript.turns ++ (turn ∷ more) ++ drop index transcript.turns;
      }

  -- The transcript, and how many turns were put into it. With no part to write the code returns
  -- before it makes the empty list of turns, which changes nothing either.
  unfoldable pub insert_agent_instruction_part_changes_before_current_turn :
      Transcript V M
      → List RenderedAgentInstructionPart
      → StoredAgentInstructionState
      → Text
      → Transcript V M × ℕ
  unfolding prompt_turns insert_prompt_turns_before_current_turn
  insert_agent_instruction_part_changes_before_current_turn transcript current_parts previous_state
        current_turn_id =
      (
        insert_prompt_turns_before_current_turn transcript current_turn_id
            (prompt_turns transcript.id current_turn_id previous_state current_parts),
        length (changed_agent_instruction_parts current_parts previous_state),
      )
