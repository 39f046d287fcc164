-- ===== src/Anthropic/Messages/Placed/Turns.antt =====
-- Where the messages of a transcript are placed in crates/chudbot-anthropic/src/llm.rs.
use chudbot.Common.{
  Bool, true, false, ◌≡◌, refl, sym, ap, ◌∙◌, Option, none, List, [], ◌∷◌, if◌then◌else◌, is_empty,
  Text, codes, text_eq, ok, drop, >>=-ok, eq_of_ok, Bool-cases, inl, inr, All-append,
}
use chudbot.Model.{TurnRole, TranscriptTurn, Transcript}
use chudbot.Anthropic.{Wire}
use chudbot.Anthropic.Content.{Rendering, anthropic_content_for_turn}
use chudbot.Agent.Leading.{leading_system_turn_count}
use chudbot.Anthropic.Messages.{
  message_content, can_append_anthropic_system_message, message, Rendered,
  flush_anthropic_system_content, add_content, add_turn, render_turns, rendered_messages,
  push_message, to_anthropic_messages, supports_native_mid_conversation_system, system_block,
}
use chudbot.Anthropic.Messages.Placed.{
  is_system_message, IsPlacedAfter, role_of_message, content_of_message, last_after,
  last_after-snoc, can_append-may_follow, ends_with_system, snoc-IsPlacedAfter, IsFilled, IsReady,
}

module _ {V : Type 0} (wire : Wire V) where
  push-IsReady :
      (role : Text) (content : List V) (s : Rendered V)
      → text_eq role (codes "system") ≡ false
      → is_empty content ≡ false
      → IsPlacedAfter wire none s.messages
      → IsFilled wire s.messages
      → (ends_with_system wire (last_after wire none s.messages) ≡ true
          → text_eq role (codes "assistant") ≡ true)
      → IsReady wire (push_message wire role content s)
  unfolding IsReady
  push-IsReady role content s other full placed filled before =
      let m = message wire role content in
      let plain : is_system_message wire m ≡ false =
        role_of_message wire role content (codes "system") ∙ other in
      (
        snoc-IsPlacedAfter wire none s.messages m placed (λ h. cc)
            (λ h. role_of_message wire role content (codes "assistant") ∙ before h),
        All-append (λ m. is_empty (message_content wire m) ≡ false) s.messages (m ∷ []) filled
            (rw (content_of_message wire role content) full, tt),
        rw (last_after-snoc wire none s.messages m) plain,
      )

  flush-IsPlacedAfter :
      (s : Rendered V)
      → IsReady wire s
      → IsPlacedAfter wire none (flush_anthropic_system_content wire s).messages
        × IsFilled wire (flush_anthropic_system_content wire s).messages
  unfolding IsReady flush_anthropic_system_content text_eq
  flush-IsPlacedAfter s (placed, filled, plain) =
      elim (Bool-cases (is_empty s.pending_system_content)) [
        | inl e ↦ rw (e) (placed, filled)
        | inr full ↦ elim (Bool-cases (can_append_anthropic_system_message wire s.messages)) [
          | inl can ↦
              (let m = message wire (codes "system") s.pending_system_content in
                rw (full, can)
                  (
                    snoc-IsPlacedAfter wire none s.messages m placed
                        (λ h. sym (can_append-may_follow wire s.messages) ∙ can) (λ h. cc),
                    All-append (λ m. is_empty (message_content wire m) ≡ false) s.messages (m ∷ [])
                        filled
                        (
                          rw (content_of_message wire (codes "system") s.pending_system_content)
                              full,
                          tt,
                        ),
                  ))
          | inr cannot ↦
              (let (p, f, _) : IsReady wire
                    (push_message wire (codes "user") s.pending_system_content s) =
                  push-IsReady (codes "user") s.pending_system_content s refl full placed filled
                    (λ h. cc) in
                rw (full, cannot) (p, f))
        ]
      ]

  add_content-IsReady :
      (native : Bool) (role : TurnRole) (content : List V) (s : Rendered V)
      → is_empty content ≡ false
      → IsReady wire s
      → IsReady wire (add_content wire native role content s)
  unfolding add_content IsReady text_eq
  add_content-IsReady true TurnRole.system content s full ready = ready
  add_content-IsReady false TurnRole.system content s full (placed, filled, plain) =
      push-IsReady (codes "user") content s refl full placed filled (λ h. cc)
  add_content-IsReady true TurnRole.user content s full (placed, filled, plain) =
      push-IsReady (codes "user") content s refl full placed filled (λ h. cc)
  add_content-IsReady false TurnRole.user content s full (placed, filled, plain) =
      push-IsReady (codes "user") content s refl full placed filled (λ h. cc)
  add_content-IsReady true TurnRole.assistant content s full ready =
      let (placed, filled) = flush-IsPlacedAfter s ready in
      push-IsReady (codes "assistant") content (flush_anthropic_system_content wire s) refl full
        placed filled (λ h. refl)
  add_content-IsReady false TurnRole.assistant content s full (placed, filled, plain) =
      push-IsReady (codes "assistant") content s refl full placed filled (λ h. refl)

  add_turn-IsReady :
      (native : Bool) (role : TurnRole) (content : List V) (s : Rendered V)
      → IsReady wire s
      → IsReady wire (add_turn wire native role content s)
  unfolding add_turn
  add_turn-IsReady native role content s ready = elim (Bool-cases (is_empty content)) [
    | inl e ↦ rw (e) ready
    | inr e ↦ rw (e) (add_content-IsReady native role content s e ready)
  ]

module _ {V M : Type 0} (rendering : Rendering V M) where
  render_turns-IsReady :
      (native : Bool) (turns : List (TranscriptTurn V M)) (s : Rendered V) {after : Rendered V}
      → IsReady rendering.wire s
      → render_turns rendering native turns s ≡ ok after
      → IsReady rendering.wire after
  unfolding render_turns
  render_turns-IsReady native [] s ready e = rw (sym (eq_of_ok _ _ e)) ready
  render_turns-IsReady native (turn ∷ turns) s ready e =
      let (content, _, later) =
        >>=-ok (anthropic_content_for_turn rendering turn)
          (λ content.
            render_turns rendering native turns
              (add_turn rendering.wire native turn.role content s))
          e in
      render_turns-IsReady native turns (add_turn rendering.wire native turn.role content s)
        (add_turn-IsReady rendering.wire native turn.role content s ready) later

  rendered_messages-IsPlacedAfter :
      (native : Bool) (turns : List (TranscriptTurn V M)) {messages : List V}
      → rendered_messages rendering native turns ≡ ok messages
      → IsPlacedAfter rendering.wire none messages × IsFilled rendering.wire messages
  unfolding rendered_messages IsReady IsPlacedAfter
  rendered_messages-IsPlacedAfter native turns e =
      let (s, run, ends) =
        >>=-ok
          (render_turns rendering native turns
            (record { messages = []; pending_system_content = [] }))
          (λ s. ok (if native then flush_anthropic_system_content rendering.wire s else s).messages)
          e in
      let ready =
        render_turns-IsReady native turns (record { messages = []; pending_system_content = [] })
          (tt, tt, refl) run in
      elim (Bool-cases native) [
        | inl e ↦ rw (sym (eq_of_ok _ _ ends), e) (flush-IsPlacedAfter rendering.wire s ready)
        | inr e ↦ rw (sym (eq_of_ok _ _ ends), e) (ready.0, ready.1)
      ]

  -- Of the messages that are built from a transcript, each of role `system` comes right after
  -- one of role `user`, or of role `assistant` with a server tool use at its end, and is the
  -- last or right before one of role `assistant`; and none has empty content.
  pub to_anthropic_messages-IsPlacedAfter :
      (transcript : Transcript V M) (model : Text) (system : Option V) (messages : List V)
      → to_anthropic_messages rendering transcript model ≡ ok (system, messages)
      → IsPlacedAfter rendering.wire none messages × IsFilled rendering.wire messages
  unfolding to_anthropic_messages
  to_anthropic_messages-IsPlacedAfter transcript model system messages e =
      let native = supports_native_mid_conversation_system model in
      let turns =
        drop (leading_system_turn_count rendering.wire.json.values transcript) transcript.turns in
      let (rendered, run, ends) =
        >>=-ok (rendered_messages rendering native turns)
          (λ messages. ok (system_block rendering transcript, messages)) e in
      rw (← ap (λ r. r.1) (eq_of_ok _ _ ends)) (rendered_messages-IsPlacedAfter native turns run)
