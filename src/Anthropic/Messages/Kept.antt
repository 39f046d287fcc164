-- ===== src/Anthropic/Messages/Kept.antt =====
-- What crates/chudbot-anthropic/src/llm.rs puts in messages, against the content of the turns.
pub mod Turns
use mathlib.Core.List.{Perm, append_assoc, append-nil, perm_append_comm}
use mathlib.Core.List.Perm
use chudbot.Common.{
  Bool, true, false, ◌≡◌, refl, sym, ap, ◌∙◌, List, [], ◌∷◌, ◌++◌, if◌then◌else◌, is_empty, Text,
  codes, drop, Result, ok, ◌>>=◌, >>=-ok, eq_of_ok, Bool-cases, is_empty-eq_nil, inl, inr,
}
use chudbot.Model.{TurnRole, TranscriptTurn, Transcript}
use chudbot.Agent.Leading.{leading_system_turn_count}
use chudbot.Anthropic.{Wire, AnthropicError}
use chudbot.Anthropic.Content.{Rendering, anthropic_content_for_turn}
use chudbot.Anthropic.Messages.{
  message_content, message, Rendered, flush_anthropic_system_content, add_content, add_turn,
  render_turns, rendered_messages, push_message, supports_native_mid_conversation_system,
  system_block, to_anthropic_messages,
}
use chudbot.Anthropic.Messages.Placed.{content_of_message}

module _ {V : Type 0} (wire : Wire V) where
  -- The content of messages, one after the other.
  unfoldable pub contents : List V → List V
  contents [] = []
  contents (m ∷ messages) = message_content wire m ++ contents messages

  contents-append : (xs ys : List V) → contents (xs ++ ys) ≡ contents xs ++ contents ys
  unfolding contents
  contents-append [] ys = refl
  contents-append (x ∷ xs) ys =
      rw (contents-append xs ys)
        (sym (append_assoc (message_content wire x) (contents xs) (contents ys)))

  contents-snoc :
      (xs : List V) (role : Text) (content : List V)
      → contents (xs ++ message wire role content ∷ []) ≡ contents xs ++ content
  unfolding contents
  contents-snoc xs role content =
      rw
        (
          contents-append xs (message wire role content ∷ []),
          content_of_message wire role content,
          append-nil content,
        )
        refl

  abbrev held : Rendered V → List V
  held s = contents s.messages ++ s.pending_system_content

  push-Perm :
      (role : Text) (content : List V) (s : Rendered V)
      → Perm (held (push_message wire role content s)) (held s ++ content)
  push-Perm role content s =
      rw
        (
          contents-snoc s.messages role content,
          append_assoc (contents s.messages) content s.pending_system_content,
          append_assoc (contents s.messages) s.pending_system_content content,
        )
        (Perm.append_left (contents s.messages) (perm_append_comm content s.pending_system_content))

  flush-held : (s : Rendered V) → contents (flush_anthropic_system_content wire s).messages ≡ held s
  unfolding flush_anthropic_system_content
  flush-held s = elim (Bool-cases (is_empty s.pending_system_content)) [
    | inl e ↦
        rw (e, is_empty-eq_nil s.pending_system_content e) (sym (append-nil (contents s.messages)))
    | inr full ↦ rw (full) (contents-snoc s.messages _ s.pending_system_content)
  ]

  flush-pending :
      (s : Rendered V) → (flush_anthropic_system_content wire s).pending_system_content ≡ []
  unfolding flush_anthropic_system_content
  flush-pending s = elim (Bool-cases (is_empty s.pending_system_content)) [
    | inl e ↦ rw (e) (is_empty-eq_nil s.pending_system_content e)
    | inr full ↦ rw (full) refl
  ]

  add_content-Perm :
      (native : Bool) (role : TurnRole) (content : List V) (s : Rendered V)
      → Perm (held (add_content wire native role content s)) (held s ++ content)
  unfolding add_content
  add_content-Perm true TurnRole.system content s =
      rw (append_assoc (contents s.messages) s.pending_system_content content) (Perm.refl _)
  add_content-Perm false TurnRole.system content s = push-Perm (codes "user") content s
  add_content-Perm true TurnRole.user content s = push-Perm (codes "user") content s
  add_content-Perm false TurnRole.user content s = push-Perm (codes "user") content s
  add_content-Perm true TurnRole.assistant content s =
      let flushed = flush_anthropic_system_content wire s in
      let same : held flushed ≡ held s =
        rw (flush-pending s, append-nil (contents flushed.messages)) (flush-held s) in
      rw (← same) (push-Perm (codes "assistant") content flushed)
  add_content-Perm false TurnRole.assistant content s = push-Perm (codes "assistant") content s

  add_turn-Perm :
      (native : Bool) (role : TurnRole) (content : List V) (s : Rendered V)
      → Perm (held (add_turn wire native role content s)) (held s ++ content)
  unfolding add_turn
  add_turn-Perm native role content s = elim (Bool-cases (is_empty content)) [
    | inl e ↦ rw (e, is_empty-eq_nil content e, append-nil (held s)) (Perm.refl _)
    | inr e ↦ rw (e) (add_content-Perm native role content s)
  ]

  -- Without native system messages nothing waits.
  add_turn-pending :
      (role : TurnRole) (content : List V) (s : Rendered V)
      → (add_turn wire false role content s).pending_system_content ≡ s.pending_system_content
  unfolding add_turn add_content
  add_turn-pending role content s = elim (Bool-cases (is_empty content)) [
    | inl e ↦ rw (e) refl
    | inr e ↦
        rw (e)
          (elim role
            as (λ r.
              (add_content wire false r content s).pending_system_content
              ≡ s.pending_system_content) [
                | TurnRole.system ↦ refl
                | TurnRole.user ↦ refl
                | TurnRole.assistant ↦ refl
              ])
  ]
