-- ===== src/Anthropic/Messages.antt =====
-- `to_anthropic_messages` in crates/chudbot-anthropic/src/llm.rs: the messages of a transcript, with the places
-- of system messages.
pub mod Placed
pub mod Kept
pub mod Tests
use chudbot.Common.{
  ℕ, zero, suc, ◌-◌, Bool, true, false, ◌&&◌, ◌||◌, Option, none, some, List, [], ◌∷◌, ◌++◌,
  if◌then◌else◌, is_empty, leb, ◌==◌, all, take, drop, length, Text, codes, text_eq, Result, ok,
  err, ◌>>=◌,
}
use chudbot.Model.{TurnRole, TranscriptTurn, Transcript}
use chudbot.Model.Output.{last}
use chudbot.Agent.Leading.{leading_system_text, leading_system_turn_count}
use chudbot.Anthropic.{Wire, AnthropicError}
use chudbot.Anthropic.Content.{Rendering, anthropic_content_for_turn, str, obj}

abbrev pub is_ascii_digit : ℕ → Bool
is_ascii_digit c = leb 48 c && leb c 57

abbrev pub is_dated : Text → Bool
is_dated [] = false
is_dated (c ∷ digits) = c == 45 && all is_ascii_digit digits

-- The model without a suffix `-YYYYMMDD`.
unfoldable pub strip_compact_date_suffix : Text → Option Text
strip_compact_date_suffix model =
    if leb 9 (length model) && is_dated (drop (length model - 9) model)
    then some (take (length model - 9) model)
    else none

unfoldable pub supports_native_mid_conversation_system : Text → Bool
unfolding strip_compact_date_suffix text_eq
supports_native_mid_conversation_system model =
    let name : Text = elim (strip_compact_date_suffix model) [ none ↦ model | some name ↦ name ] in
    text_eq name (codes "claude-opus-4-8")
    || text_eq name (codes "claude-opus-4.8")
    || text_eq name (codes "opus-4-8")
    || text_eq name (codes "opus-4.8")

module _ {V : Type 0} (wire : Wire V) where
  unfoldable pub field_str : V → Text → Option Text
  field_str value key = elim (wire.json.values.get value key) [
    | none ↦ none
    | some v ↦ wire.json.as_str v
  ]

  unfoldable pub message_content : V → List V
  message_content message = elim (wire.json.values.get message (codes "content")) [
    | none ↦ []
    | some v ↦ elim (wire.as_array v) [ none ↦ [] | some items ↦ items ]
  ]

  unfoldable pub has_role : Text → V → Bool
  unfolding field_str text_eq
  has_role role message = elim (field_str message (codes "role")) [
    | none ↦ false
    | some r ↦ text_eq r role
  ]

  unfoldable pub assistant_message_ends_with_server_tool_use : V → Bool
  unfolding message_content field_str text_eq last
  assistant_message_ends_with_server_tool_use message = elim (last (message_content message)) [
    | none ↦ false
    | some block ↦ elim (field_str block (codes "type")) [
      | none ↦ false
      | some kind ↦ text_eq kind (codes "server_tool_use")
    ]
  ]

  -- Whether a system message may follow the message.
  unfoldable pub may_precede_system : V → Bool
  unfolding has_role assistant_message_ends_with_server_tool_use
  may_precede_system previous =
      has_role (codes "user") previous
      || (has_role (codes "assistant") previous
          && assistant_message_ends_with_server_tool_use previous)

  unfoldable pub can_append_anthropic_system_message : List V → Bool
  unfolding last may_precede_system
  can_append_anthropic_system_message messages = elim (last messages) [
    | none ↦ false
    | some previous ↦ may_precede_system previous
  ]

  abbrev pub message : Text → List V → V
  message role content =
      wire.json.values.object
        ((codes "role", wire.json.values.string role) ∷ (codes "content", wire.array content) ∷ [])

-- The variables of the loop.
pub record Rendered (V : Type 0) : Type 0 where
  pub messages : List V
  pub pending_system_content : List V

module _ {V : Type 0} (wire : Wire V) where
  abbrev pub push_message : Text → List V → Rendered V → Rendered V
  push_message role content s = record s { messages = s.messages ++ message wire role content ∷ [] }

  unfoldable pub flush_anthropic_system_content : Rendered V → Rendered V
  unfolding can_append_anthropic_system_message
  flush_anthropic_system_content s = if is_empty s.pending_system_content then s else record {
    messages =
        s.messages
        ++ message wire
            (if can_append_anthropic_system_message wire s.messages
              then codes "system"
              else codes "user")
            s.pending_system_content
          ∷ [];
    pending_system_content = [];
  }

  -- What the loop does with a turn's content that is not empty.
  unfoldable pub add_content : Bool → TurnRole → List V → Rendered V → Rendered V
  unfolding flush_anthropic_system_content
  add_content true TurnRole.system content s = record s {
    pending_system_content = s.pending_system_content ++ content;
  }
  add_content false TurnRole.system content s = push_message (codes "user") content s
  add_content native TurnRole.user content s = push_message (codes "user") content s
  add_content true TurnRole.assistant content s =
      push_message (codes "assistant") content (flush_anthropic_system_content s)
  add_content false TurnRole.assistant content s = push_message (codes "assistant") content s

  unfoldable pub add_turn : Bool → TurnRole → List V → Rendered V → Rendered V
  unfolding add_content
  add_turn native role content s = if is_empty content then s else add_content native role content s

module _ {V M : Type 0} (rendering : Rendering V M) where
  unfoldable pub render_turns :
      Bool → List (TranscriptTurn V M) → Rendered V → Result AnthropicError (Rendered V)
  unfolding anthropic_content_for_turn add_turn
  render_turns native [] s = ok s
  render_turns native (turn ∷ turns) s = anthropic_content_for_turn rendering turn >>= λ content.
      render_turns native turns (add_turn rendering.wire native turn.role content s)

  unfoldable pub rendered_messages :
      Bool → List (TranscriptTurn V M) → Result AnthropicError (List V)
  unfolding render_turns flush_anthropic_system_content
  rendered_messages native turns =
      render_turns native turns (record { messages = []; pending_system_content = [] }) >>= λ s.
      ok (if native then flush_anthropic_system_content rendering.wire s else s).messages

  -- The cached `system` block.
  unfoldable pub system_block : Transcript V M → Option V
  unfolding leading_system_text
  system_block transcript = elim (leading_system_text rendering.wire.json.values transcript) [
    | none ↦ none
    | some instructions ↦ some (
        rendering.wire.array (
          obj rendering (
            (codes "type", str rendering (codes "text"))
            ∷ (codes "text", str rendering instructions)
            ∷ (
              codes "cache_control",
              obj rendering ((codes "type", str rendering (codes "ephemeral")) ∷ []),
            )
            ∷ [])
          ∷ []))
  ]

  unfoldable pub to_anthropic_messages :
      Transcript V M → Text → Result AnthropicError (Option V × List V)
  unfolding system_block rendered_messages supports_native_mid_conversation_system
      leading_system_turn_count
  to_anthropic_messages transcript model =
      rendered_messages (supports_native_mid_conversation_system model)
        (drop (leading_system_turn_count rendering.wire.json.values transcript) transcript.turns)
      >>= λ messages. ok (system_block transcript, messages)
