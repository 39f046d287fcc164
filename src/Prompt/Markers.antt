-- ===== src/Prompt/Markers.antt =====
-- The stored prompt in crates/chudbot-storage-sqlx/src/snapshots.rs: a row of the query is a
-- marker, and the markers that a turn sees are reduced to its prompt.
use chudbot.Common.{
  Bool, true, false, ◌&&◌, ◌||◌, Option, none, some, List, [], ◌∷◌, map, if◌then◌else◌, select,
  Text, codes, insert_ordered, sort,
}
use chudbot.Model.{ContentBlock, TranscriptTurn}
use chudbot.Agent.{ℤ, leb_ℤ}
use chudbot.Agent.Instructions.{agent_instruction_part_key}
use chudbot.Prompt.{
  Json, AgentInstructionPartSnapshot, AgentInstructionSnapshot, eq_ℤ, lt_ℤ, is_i32,
}

pub record PromptStateBoundary : Type 0 where
  pub turn_id : Text
  pub turn_ordinal : ℤ
  pub attempt_ordinal : Option ℤ

pub record StoredPromptMarker : Type 0 where
  pub turn_ordinal : ℤ
  pub attempt_ordinal : ℤ
  pub part_key : Option Text
  pub part_ordinal : ℤ
  pub text : Text

-- A row of the query.
pub record MarkerRow (V : Type 0) : Type 0 where
  pub turn_ordinal : ℤ
  pub attempt_ordinal : ℤ
  pub message_ordinal : ℤ
  pub metadata : V
  pub text_content : Text

-- The text of the first text block.
unfoldable pub first_text : {V M : Type 0} → List (ContentBlock V M) → Text
first_text [] = []
first_text (ContentBlock.text text ∷ rest) = text
first_text (block ∷ rest) = first_text rest

-- The row of a system turn that has a text.
abbrev pub turn_row : {V M : Type 0} → ℤ → ℤ → ℤ → TranscriptTurn V M → MarkerRow V
turn_row turn_ordinal attempt_ordinal message_ordinal turn = record {
  turn_ordinal = turn_ordinal;
  attempt_ordinal = attempt_ordinal;
  message_ordinal = message_ordinal;
  metadata = turn.metadata;
  text_content = first_text turn.blocks;
}

module _ {V : Type 0} (json : Json V) where
  unfoldable pub row_part_key : V → Option Text
  row_part_key metadata = elim (json.values.get metadata (codes "agent_instruction_part_key")) [
    | none ↦ none
    | some value ↦ json.as_str value
  ]

  -- `i32::try_from` of the number, or the ordinal of the message.
  unfoldable pub row_part_ordinal : V → ℤ → ℤ
  unfolding is_i32
  row_part_ordinal metadata message_ordinal =
      elim (json.values.get metadata (codes "agent_instruction_part_ordinal")) [
        | none ↦ message_ordinal
        | some value ↦ elim (json.as_i64 value) [
          | none ↦ message_ordinal
          | some n ↦ if is_i32 n then n else message_ordinal
        ]
      ]

  unfoldable pub row_is_part : V → Bool
  row_is_part metadata = elim (json.values.get metadata agent_instruction_part_key) [
    | none ↦ false
    | some value ↦ elim (json.values.as_bool value) [ none ↦ false | some b ↦ b ]
  ]

  unfoldable pub stored_prompt_marker : MarkerRow V → StoredPromptMarker
  unfolding row_part_key row_part_ordinal row_is_part
  stored_prompt_marker row = record {
    turn_ordinal = row.turn_ordinal;
    attempt_ordinal = row.attempt_ordinal;
    part_key = if row_is_part row.metadata then row_part_key row.metadata else none;
    part_ordinal = row_part_ordinal row.metadata row.message_ordinal;
    text = row.text_content;
  }

unfoldable pub prompt_marker_is_visible_at_boundary :
    PromptStateBoundary → StoredPromptMarker → Bool
unfolding eq_ℤ lt_ℤ
prompt_marker_is_visible_at_boundary boundary marker =
    lt_ℤ marker.turn_ordinal boundary.turn_ordinal
    || (eq_ℤ marker.turn_ordinal boundary.turn_ordinal && (elim boundary.attempt_ordinal [
      | none ↦ false
      | some attempt_ordinal ↦ leb_ℤ marker.attempt_ordinal attempt_ordinal
    ]))

-- The variables of the loop.
pub record PromptState : Type 0 where
  pub legacy_text : Option Text
  pub modern_parts : List (Text × AgentInstructionPartSnapshot)
  pub using_modern_parts : Bool

abbrev pub start : PromptState
start = record { legacy_text = none; modern_parts = []; using_modern_parts = false }

unfoldable pub apply_marker : PromptState → StoredPromptMarker → PromptState
unfolding insert_ordered
apply_marker state marker = elim marker.part_key [
  | some key ↦ record {
    legacy_text = none;
    modern_parts =
        insert_ordered key (record { key = key; ordinal = marker.part_ordinal; text = marker.text })
          state.modern_parts;
    using_modern_parts = true;
  }
  | none ↦ record { legacy_text = some marker.text; modern_parts = []; using_modern_parts = false }
]

unfoldable pub apply_markers : PromptState → List StoredPromptMarker → PromptState
unfolding apply_marker
apply_markers state [] = state
apply_markers state (marker ∷ rest) = apply_markers (apply_marker state marker) rest

abbrev pub snapshot_ordinal_le : AgentInstructionPartSnapshot → AgentInstructionPartSnapshot → Bool
snapshot_ordinal_le a b = leb_ℤ a.ordinal b.ordinal

abbrev pub into_values :
    List (Text × AgentInstructionPartSnapshot) → List AgentInstructionPartSnapshot
into_values m = map (λ (entry : Text × AgentInstructionPartSnapshot). entry.1) m

unfoldable pub into_snapshot : PromptState → Option AgentInstructionSnapshot
unfolding sort
into_snapshot state =
    if state.using_modern_parts
    then some
        (AgentInstructionSnapshot.parts (sort snapshot_ordinal_le (into_values state.modern_parts)))
    else (elim state.legacy_text [
      | none ↦ none
      | some text ↦ some (AgentInstructionSnapshot.legacy_text text)
    ])

unfoldable pub stored_agent_instruction_state_at_boundary :
    List StoredPromptMarker → PromptStateBoundary → Option AgentInstructionSnapshot
unfolding apply_markers into_snapshot prompt_marker_is_visible_at_boundary
stored_agent_instruction_state_at_boundary markers boundary =
    into_snapshot
      (apply_markers start (select (prompt_marker_is_visible_at_boundary boundary) markers))
