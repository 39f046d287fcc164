-- ===== src/Replay/Results.antt =====
-- The results of client tools in the turns that crates/chudbot-bot/src/transcript.rs makes of a step.
use chudbot.Common.{
  Bool, true, false, ◌≡◌, refl, ap, sym, ◌∙◌, Option, none, some, List, [], ◌∷◌, ◌++◌, map, Text,
  text_key,
}
use mathlib.Core.List.{append_assoc, append-nil}
use chudbot.Model.{
  TurnRole, TranscriptTurn, ContentBlock, ModelStepTrace, ClientToolResult, ProviderContinuation,
}
use chudbot.Replay.{Readable, step_turns, turn_of, continuation_blocks, answer_blocks_of}

module _ {V : Type 0} where
  module _ (M : Type 0) where
    -- The results that blocks and turns carry.
    unfoldable pub block_results : List (ContentBlock V M) → List (ClientToolResult V)
    block_results [] = []
    block_results (ContentBlock.client_tool_result result ∷ blocks) = result ∷ block_results blocks
    block_results (ContentBlock.text _ ∷ blocks) = block_results blocks
    block_results (ContentBlock.media _ ∷ blocks) = block_results blocks
    block_results (ContentBlock.client_tool_call _ ∷ blocks) = block_results blocks
    block_results (ContentBlock.continuation _ ∷ blocks) = block_results blocks

    unfoldable pub turn_results : List (TranscriptTurn V M) → List (ClientToolResult V)
    unfolding block_results
    turn_results [] = []
    turn_results (turn ∷ turns) = block_results turn.blocks ++ turn_results turns

    pub turn_results-append :
        (xs ys : List (TranscriptTurn V M))
        → turn_results (xs ++ ys) ≡ turn_results xs ++ turn_results ys
    unfolding turn_results
    turn_results-append [] ys = refl
    turn_results-append (x ∷ xs) ys =
        ap (λ l. block_results x.blocks ++ l) (turn_results-append xs ys)
        ∙ sym (append_assoc (block_results x.blocks) (turn_results xs) (turn_results ys))

    block_results-map :
        (results : List (ClientToolResult V))
        → block_results (map ContentBlock.client_tool_result results) ≡ results
    unfolding block_results
    block_results-map [] = refl
    block_results-map (result ∷ results) = ap (λ l. result ∷ l) (block_results-map results)

    module _ (readable : Readable V) where
      turn_results-turn_of :
          (role : TurnRole) (blocks : List (ContentBlock V M))
          → turn_results (turn_of readable role blocks) ≡ block_results blocks
      unfolding turn_results block_results
      turn_results-turn_of role [] = refl
      turn_results-turn_of role (block ∷ blocks) = append-nil (block_results (block ∷ blocks))

      no_results :
          (continuation : Option (ProviderContinuation V)) (final : Bool) (answer : Option Text)
          → block_results
              (continuation_blocks readable continuation ++ answer_blocks_of readable final answer)
            ≡ []
      unfolding block_results
      no_results none false answer = refl
      no_results none true none = refl
      no_results none true (some []) = refl
      no_results none true (some (c ∷ t)) = refl
      no_results (some k) false answer = refl
      no_results (some k) true none = refl
      no_results (some k) true (some []) = refl
      no_results (some k) true (some (c ∷ t)) = refl

      pub turn_results-step_turns :
          (final : Bool) (answer : Option Text) (step : ModelStepTrace V)
          (results : List (ClientToolResult V))
          → turn_results (step_turns readable final answer step results) ≡ results
      unfolding step_turns
      turn_results-step_turns final answer step results =
          turn_results-append
            (turn_of readable TurnRole.assistant (
              continuation_blocks readable step.continuation
              ++ answer_blocks_of readable final answer))
            (turn_of readable TurnRole.user (map ContentBlock.client_tool_result results))
          ∙ rw
              (
                turn_results-turn_of TurnRole.assistant (
                    continuation_blocks readable step.continuation
                    ++ answer_blocks_of readable final answer),
                no_results step.continuation final answer,
                turn_results-turn_of TurnRole.user (map ContentBlock.client_tool_result results),
              )
              (block_results-map results)
