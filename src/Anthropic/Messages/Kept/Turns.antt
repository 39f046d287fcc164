-- ===== src/Anthropic/Messages/Kept/Turns.antt =====
-- What the messages of a transcript hold in crates/chudbot-anthropic/src/llm.rs.
use mathlib.Core.List.{Perm, append_assoc, append-nil}
use mathlib.Core.List.Perm
use chudbot.Common.{
  Bool, true, false, ◌≡◌, refl, sym, ap, ◌∙◌, List, [], ◌∷◌, ◌++◌, if◌then◌else◌, Text, drop,
  Result, ok, ◌>>=◌, >>=-ok, eq_of_ok,
}
use chudbot.Model.{TranscriptTurn, Transcript}
use chudbot.Agent.Leading.{leading_system_turn_count}
use chudbot.Anthropic.{AnthropicError}
use chudbot.Anthropic.Content.{Rendering, anthropic_content_for_turn}
use chudbot.Anthropic.Messages.{
  Rendered, flush_anthropic_system_content, add_turn, render_turns, rendered_messages,
  supports_native_mid_conversation_system, system_block, to_anthropic_messages,
}
use chudbot.Anthropic.Messages.Kept.{contents, held, flush-held, add_turn-Perm, add_turn-pending}

module _ {V M : Type 0} (rendering : Rendering V M) where
  -- The content of turns, one after the other.
  unfoldable pub turn_contents : List (TranscriptTurn V M) → Result AnthropicError (List V)
  turn_contents [] = ok []
  turn_contents (turn ∷ turns) = anthropic_content_for_turn rendering turn >>= λ content.
      turn_contents turns >>= λ rest. ok (content ++ rest)

  render_turns-Perm :
      (native : Bool) (turns : List (TranscriptTurn V M)) (s : Rendered V) (after : Rendered V)
      → render_turns rendering native turns s ≡ ok after
      → (cs : List V) × (turn_contents turns ≡ ok cs)
        × Perm (held rendering.wire after) (held rendering.wire s ++ cs)
  unfolding render_turns turn_contents
  render_turns-Perm native [] s after e =
      ([], refl, rw (sym (eq_of_ok s after e), append-nil (held rendering.wire s)) (Perm.refl _))
  render_turns-Perm native (turn ∷ turns) s after e =
      let (content, one, later) =
        >>=-ok (anthropic_content_for_turn rendering turn)
          (λ content.
            render_turns rendering native turns
              (add_turn rendering.wire native turn.role content s))
          e in
      let (rest, many, perm) =
        render_turns-Perm native turns (add_turn rendering.wire native turn.role content s) after
          later in
      (
        content ++ rest,
        rw (one, many) refl,
        rw (sym (append_assoc (held rendering.wire s) content rest)) (
            Perm.trans perm
              (Perm.append_right rest (add_turn-Perm rendering.wire native turn.role content s))),
      )

  render_turns-pending :
      (turns : List (TranscriptTurn V M)) (s : Rendered V) (after : Rendered V)
      → render_turns rendering false turns s ≡ ok after
      → after.pending_system_content ≡ s.pending_system_content
  unfolding render_turns
  render_turns-pending [] s after e = rw (eq_of_ok s after e) refl
  render_turns-pending (turn ∷ turns) s after e =
      let (content, _, later) =
        >>=-ok (anthropic_content_for_turn rendering turn)
          (λ content.
            render_turns rendering false turns (add_turn rendering.wire false turn.role content s))
          e in
      render_turns-pending turns (add_turn rendering.wire false turn.role content s) after later
      ∙ add_turn-pending rendering.wire turn.role content s

  finished-contents :
      (native : Bool) (s : Rendered V)
      → (native ≡ false → s.pending_system_content ≡ [])
      → contents rendering.wire
          (if native then flush_anthropic_system_content rendering.wire s else s).messages
        ≡ held rendering.wire s
  finished-contents true s h = flush-held rendering.wire s
  finished-contents false s h = rw (h refl) (sym (append-nil (contents rendering.wire s.messages)))

  rendered_messages-Perm :
      (native : Bool) (turns : List (TranscriptTurn V M)) (messages : List V)
      → rendered_messages rendering native turns ≡ ok messages
      → (cs : List V) × (turn_contents turns ≡ ok cs) × Perm (contents rendering.wire messages) cs
  unfolding rendered_messages contents
  rendered_messages-Perm native turns messages e =
      let start : Rendered V = record { messages = []; pending_system_content = [] } in
      let finish : Rendered V → List V =
        λ s. (if native then flush_anthropic_system_content rendering.wire s else s).messages in
      let (s, run, ends) =
        >>=-ok (render_turns rendering native turns start) (λ s. ok (finish s)) e in
      let (cs, same, perm) = render_turns-Perm native turns start s run in
      (
        cs,
        same,
        rw
            (
              ← eq_of_ok (finish s) messages ends,
              finished-contents native s (λ n.
                  render_turns-pending turns start s
                    (ap (λ b. render_turns rendering b turns start) (sym n) ∙ run)),
            )
            perm,
      )

  render_turns-ok :
      (native : Bool) (turns : List (TranscriptTurn V M)) (s : Rendered V) (cs : List V)
      → turn_contents turns ≡ ok cs
      → (after : Rendered V) × (render_turns rendering native turns s ≡ ok after)
  unfolding render_turns turn_contents
  render_turns-ok native [] s cs e = (s, refl)
  render_turns-ok native (turn ∷ turns) s cs e =
      let (content, one, more) =
        >>=-ok (anthropic_content_for_turn rendering turn)
          (λ content. turn_contents turns >>= λ rest. ok (content ++ rest)) e in
      let (rest, many, _) = >>=-ok (turn_contents turns) (λ rest. ok (content ++ rest)) more in
      let (after, run) =
        render_turns-ok native turns (add_turn rendering.wire native turn.role content s) rest
          many in
      (after, rw (one) run)

  -- Where the content of each turn after the leading system turns can be built, so can the
  -- messages, and with the hoisted system block; their contents joined are a permutation of
  -- those of the turns joined: nothing is lost, repeated or made up.
  pub to_anthropic_messages-Perm :
      (transcript : Transcript V M) (model : Text) (cs : List V)
      → turn_contents
          (drop (leading_system_turn_count rendering.wire.json.values transcript) transcript.turns)
        ≡ ok cs
      → (messages : List V) × (to_anthropic_messages rendering transcript model
          ≡ ok (system_block rendering transcript, messages))
        × Perm (contents rendering.wire messages) cs
  unfolding to_anthropic_messages rendered_messages
  to_anthropic_messages-Perm transcript model cs e =
      let native = supports_native_mid_conversation_system model in
      let turns =
        drop (leading_system_turn_count rendering.wire.json.values transcript) transcript.turns in
      let start : Rendered V = record { messages = []; pending_system_content = [] } in
      let (after, run) = render_turns-ok native turns start cs e in
      let messages =
        (if native then flush_anthropic_system_content rendering.wire after else after).messages in
      let done : rendered_messages rendering native turns ≡ ok messages = rw (run) refl in
      let (ds, same, perm) = rendered_messages-Perm native turns messages done in
      (messages, rw (run) refl, rw (eq_of_ok cs ds (sym e ∙ same)) perm)
