-- ===== src/Anthropic/Messages/Tests.antt =====
-- Messages of crates/chudbot-anthropic/src/llm.rs on a concrete transcript.
use mathlib.Core.List.{Perm}
use chudbot.Common.{
  ◌≡◌, refl, false, none, List, [], ◌∷◌, All, Text, codes, text_eq, lookup, starts_with, drop,
  is_empty, ok, err,
}
use chudbot.Model.{TurnRole, TranscriptTurn, Transcript, ContentBlock}
use chudbot.Model.Output.{last}
use chudbot.Model.Images.{ImageEncoding}
use chudbot.Agent.Leading.{leading_system_turn_count}
use chudbot.Fixtures.{Value, anthropic_wire, string, null, object, from_list}
use chudbot.Anthropic.Content.{Rendering, anthropic_content_for_turn}
use chudbot.Anthropic.Messages.{message, message_content, to_anthropic_messages, system_block}
use chudbot.Anthropic.Messages.Placed.{IsPlacedAfter}
use chudbot.Anthropic.Messages.Placed.Turns.{to_anthropic_messages-IsPlacedAfter}
use chudbot.Anthropic.Messages.Kept.{contents}
use chudbot.Anthropic.Messages.Kept.Turns.{turn_contents, to_anthropic_messages-Perm}

abbrev rendering : Rendering Value (Unit {0})
rendering = record {
  wire = anthropic_wire;
  media = record {
    uri = λ m. codes "m";
    mime_type = λ m. codes "text/plain";
    public_url = λ m. err (codes "none");
    embedded_base64 = λ m. err (codes "none");
  };
  show = λ e. codes "error";
  provider = codes "anthropic";
  image_encoding = ImageEncoding.disabled;
}

abbrev turn : TurnRole → Text → TranscriptTurn Value (Unit {0})
turn role text = record { role = role; blocks = ContentBlock.text text ∷ []; metadata = null }

abbrev transcript : Transcript Value (Unit {0})
transcript = record {
  id = none;
  turns =
      turn TurnRole.system (codes "lead")
      ∷ turn TurnRole.user (codes "hi")
      ∷ turn TurnRole.system (codes "note")
      ∷ turn TurnRole.user (codes "more")
      ∷ turn TurnRole.assistant (codes "yes")
      ∷ turn TurnRole.system (codes "end")
      ∷ [];
}

abbrev native_model : Text
native_model = codes "claude-opus-4-8-20260101"

abbrev block : Text → Value
block text =
    object (from_list ((codes "type", string (codes "text")) ∷ (codes "text", string text) ∷ []))

-- The note waits for the user's next message; the last one may not follow the assistant's.
abbrev native_messages : List Value
native_messages =
    message anthropic_wire (codes "user") (block (codes "hi") ∷ [])
    ∷ message anthropic_wire (codes "user") (block (codes "more") ∷ [])
    ∷ message anthropic_wire (codes "system") (block (codes "note") ∷ [])
    ∷ message anthropic_wire (codes "assistant") (block (codes "yes") ∷ [])
    ∷ message anthropic_wire (codes "user") (block (codes "end") ∷ [])
    ∷ []

native_run :
    to_anthropic_messages rendering transcript native_model
    ≡ ok (system_block rendering transcript, native_messages)
unfolding to_anthropic_messages text_eq lookup starts_with last
native_run = refl

turn_contents_run :
    turn_contents rendering
      (drop (leading_system_turn_count anthropic_wire.json.values transcript) transcript.turns)
    ≡ ok (
        block (codes "hi")
        ∷ block (codes "note")
        ∷ block (codes "more")
        ∷ block (codes "yes")
        ∷ block (codes "end")
        ∷ [])
unfolding turn_contents leading_system_turn_count anthropic_content_for_turn text_eq lookup
turn_contents_run = refl

to_anthropic_messages-IsPlacedAfter_example :
    IsPlacedAfter anthropic_wire none native_messages
    × All (λ m. is_empty (message_content anthropic_wire m) ≡ false) native_messages
to_anthropic_messages-IsPlacedAfter_example =
    to_anthropic_messages-IsPlacedAfter rendering transcript native_model
      (system_block rendering transcript) native_messages native_run

to_anthropic_messages-Perm_example :
    (messages : List Value) × (to_anthropic_messages rendering transcript native_model
      ≡ ok (system_block rendering transcript, messages))
    × Perm (contents anthropic_wire messages) (
        block (codes "hi")
        ∷ block (codes "note")
        ∷ block (codes "more")
        ∷ block (codes "yes")
        ∷ block (codes "end")
        ∷ [])
to_anthropic_messages-Perm_example =
    to_anthropic_messages-Perm rendering transcript native_model
      (block (codes "hi")
        ∷ block (codes "note")
        ∷ block (codes "more")
        ∷ block (codes "yes")
        ∷ block (codes "end")
        ∷ [])
      turn_contents_run
