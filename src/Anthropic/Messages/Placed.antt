-- ===== src/Anthropic/Messages/Placed.antt =====
-- Where crates/chudbot-anthropic/src/llm.rs puts system messages.
pub mod Turns
use chudbot.Common.{
  Bool, true, false, ◌≡◌, refl, sym, ap, ◌∙◌, Option, none, some, List, [], ◌∷◌, ◌++◌,
  if◌then◌else◌, is_empty, Text, codes, text_eq, lookup, ok, drop, >>=-ok, eq_of_ok, Bool-cases,
  Option-cases, inl, inr, All, All-append,
}
use chudbot.Model.{TurnRole, TranscriptTurn, Transcript}
use chudbot.Model.Output.{last}
use chudbot.Anthropic.{Wire}
use chudbot.Anthropic.Content.{Rendering, anthropic_content_for_turn}
use chudbot.Agent.Leading.{leading_system_turn_count}
use chudbot.Anthropic.Messages.{
  field_str, has_role, message_content, may_precede_system, can_append_anthropic_system_message,
  message, Rendered, flush_anthropic_system_content, add_content, add_turn, render_turns,
  rendered_messages, push_message, to_anthropic_messages, supports_native_mid_conversation_system,
  system_block,
}

module _ {V : Type 0} (wire : Wire V) where
  abbrev pub is_system_message : V → Bool
  is_system_message m = has_role wire (codes "system") m

  abbrev pub is_assistant_message : V → Bool
  is_assistant_message m = has_role wire (codes "assistant") m

  -- The message after one, if any, is the assistant's.
  unfoldable pub IsBeforeAssistant : List V → Type 0
  IsBeforeAssistant [] = Unit
  IsBeforeAssistant (m ∷ messages) = is_assistant_message m ≡ true

  -- The messages after `previous`: a system message follows one that may precede it, and comes last or before
  -- one of the assistant.
  unfoldable pub IsPlacedAfter : Option V → List V → Type 0
  unfolding IsBeforeAssistant
  IsPlacedAfter previous [] = Unit
  IsPlacedAfter previous (m ∷ messages) =
      (is_system_message m ≡ true
        → (elim previous [ none ↦ false | some p ↦ may_precede_system wire p ]) ≡ true
          × IsBeforeAssistant messages)
      × IsPlacedAfter (some m) messages

  role_of_message :
      (role : Text) (content : List V) (r : Text)
      → has_role wire r (message wire role content) ≡ text_eq role r
  unfolding has_role field_str lookup text_eq
  role_of_message role content r =
      rw
        (
          has_role,
          field_str,
          wire.json.values.get-object _ (codes "role"),
          wire.json.as_str-string role,
        )
        refl

  pub content_of_message :
      (role : Text) (content : List V) → message_content wire (message wire role content) ≡ content
  unfolding message_content lookup text_eq
  content_of_message role content =
      rw
        (
          message_content,
          wire.json.values.get-object _ (codes "content"),
          wire.as_array-array content,
        )
        refl

  abbrev last_after : Option V → List V → Option V
  last_after previous [] = previous
  last_after previous (m ∷ messages) = last_after (some m) messages

  last_after-snoc :
      (previous : Option V) (messages : List V) (m : V)
      → last_after previous (messages ++ m ∷ []) ≡ some m
  last_after-snoc previous [] m = refl
  last_after-snoc previous (a ∷ messages) m = last_after-snoc (some a) messages m

  last_after-last :
      (previous : V) (messages : List V)
      → last_after (some previous) messages
        ≡ some (elim (last messages) [ none ↦ previous | some m ↦ m ])
  unfolding last
  last_after-last previous [] = refl
  last_after-last previous (a ∷ messages) =
      last_after-last a messages
      ∙ elim (Option-cases (last messages)) [ inl e ↦ rw (e) refl | inr (m, e) ↦ rw (e) refl ]

  abbrev may_follow : Option V → Bool
  may_follow previous = elim previous [ none ↦ false | some p ↦ may_precede_system wire p ]

  can_append-may_follow :
      (messages : List V)
      → can_append_anthropic_system_message wire messages ≡ may_follow (last_after none messages)
  unfolding can_append_anthropic_system_message last
  can_append-may_follow [] = refl
  can_append-may_follow (a ∷ messages) = elim (Option-cases (last messages)) [
    | inl e ↦ rw (last_after-last a messages, can_append_anthropic_system_message, last, e) refl
    | inr (m, e) ↦
        rw (last_after-last a messages, can_append_anthropic_system_message, last, e) refl
  ]

  abbrev ends_with_system : Option V → Bool
  ends_with_system previous = elim previous [ none ↦ false | some m ↦ is_system_message m ]

  snoc-IsPlacedAfter :
      (previous : Option V) (messages : List V) (m : V)
      → IsPlacedAfter previous messages
      → (is_system_message m ≡ true → may_follow (last_after previous messages) ≡ true)
      → (ends_with_system (last_after previous messages) ≡ true → is_assistant_message m ≡ true)
      → IsPlacedAfter previous (messages ++ m ∷ [])
  unfolding IsPlacedAfter IsBeforeAssistant
  snoc-IsPlacedAfter previous [] m h follows before = (λ s. (follows s, tt), tt)
  snoc-IsPlacedAfter previous (a ∷ []) m (h, _) follows before =
      (λ s. ((h s).0, before s), snoc-IsPlacedAfter (some a) [] m tt follows before)
  snoc-IsPlacedAfter previous (a ∷ b ∷ messages) m (h, rest) follows before =
      (h, snoc-IsPlacedAfter (some a) (b ∷ messages) m rest follows before)

  -- The messages so far are placed, none is empty, and the last is not the system's.
  abbrev IsFilled : List V → Type 0
  IsFilled messages = All (λ m. is_empty (message_content wire m) ≡ false) messages

  IsReady : Rendered V → Type 0
  IsReady s =
      IsPlacedAfter none s.messages
      × IsFilled s.messages
      × (ends_with_system (last_after none s.messages) ≡ false)
