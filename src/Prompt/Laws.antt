-- ===== src/Prompt/Laws.antt =====
-- The prompt that storage shows a turn after the changes of that turn were stored:
-- crates/chudbot-bot/src/turns.rs and crates/chudbot-storage-sqlx/src/snapshots.rs.
use chudbot.Common.{
  true, ◌≡◌, refl, ap, ◌∙◌, Option, some, List, [], ◌∷◌, ◌++◌, map, select, All, All-sort,
  select-append, Text, text_key, sort, arith,
}
use chudbot.Model.{TranscriptTurn}
use chudbot.Agent.{ℤ, leb_ℤ}
use chudbot.Prompt.{Json, is_i32, eq_ℤ, RenderedAgentInstructionPart, StoredAgentInstructionState}
use chudbot.Prompt.Changes.{
  prompt_turn, prompt_turns, changed_agent_instruction_parts, ordinal_le,
  stored_agent_instruction_state,
}
use chudbot.Prompt.Markers.{
  turn_row, StoredPromptMarker, PromptStateBoundary, stored_prompt_marker, start, apply_markers,
  into_snapshot, prompt_marker_is_visible_at_boundary, stored_agent_instruction_state_at_boundary,
}
use chudbot.Prompt.Rows.{stored_prompt_marker-turn_row}
use chudbot.Prompt.Shown.{IsDistinct}
use chudbot.Prompt.After.{Shows, marker_of}
use chudbot.Prompt.Reduced.{
  start-IsSound, apply_markers-IsSound, changed-All, apply_markers-append, after-Shows,
}

leb_ℤ_refl : (a : ℤ) → leb_ℤ a a ≡ true
unfolding leb_ℤ
leb_ℤ_refl (ℤ.pos a) = ground arith
leb_ℤ_refl (ℤ.negsuc a) = ground arith

eq_ℤ_refl : (a : ℤ) → eq_ℤ a a ≡ true
unfolding eq_ℤ
eq_ℤ_refl (ℤ.pos a) = ground arith
eq_ℤ_refl (ℤ.negsuc a) = ground arith

-- The boundary of an attempt, which sees the markers of the attempt.
abbrev pub at_attempt : Text → ℤ → ℤ → PromptStateBoundary
at_attempt turn_id t a = record { turn_id = turn_id; turn_ordinal = t; attempt_ordinal = some a }

visible_at_attempt :
    (turn_id : Text) (t a : ℤ) (previous : StoredAgentInstructionState)
    (l : List RenderedAgentInstructionPart)
    → select
        (prompt_marker_is_visible_at_boundary (at_attempt turn_id t a))
        (map (marker_of t a previous) l)
      ≡ map (marker_of t a previous) l
unfolding prompt_marker_is_visible_at_boundary
visible_at_attempt turn_id t a previous [] = refl
visible_at_attempt turn_id t a previous (part ∷ l) =
    rw (visible, visible_at_attempt turn_id t a previous l) refl
  where
    visible :
        prompt_marker_is_visible_at_boundary (at_attempt turn_id t a) (marker_of t a previous part)
        ≡ true
    visible = rw (prompt_marker_is_visible_at_boundary, eq_ℤ_refl t, leb_ℤ_refl a) (ground arith)

module _ {V : Type 0} (M : Type 0) (json : Json V) where
  -- The markers that storage makes of the turns of some parts.
  stored-prompt_turns :
      (id : Option Text) (turn_id : Text) (previous : StoredAgentInstructionState) (t a : ℤ)
      (message_ordinal : TranscriptTurn V M → ℤ) (l : List RenderedAgentInstructionPart)
      → All (λ (part : RenderedAgentInstructionPart). is_i32 part.ordinal ≡ true) l
      → map (stored_prompt_marker json) (
          map
            (λ (turn : TranscriptTurn V M). turn_row t a (message_ordinal turn) turn)
            (map (prompt_turn json id turn_id previous) l))
        ≡ map (marker_of t a previous) l
  stored-prompt_turns id turn_id previous t a message_ordinal [] _ = refl
  stored-prompt_turns id turn_id previous t a message_ordinal (part ∷ l) (small, rest) =
      rw
        (
          stored_prompt_marker-turn_row M json id turn_id previous t a
              (message_ordinal (prompt_turn json id turn_id previous part)) part small,
          stored-prompt_turns id turn_id previous t a message_ordinal l rest,
        )
        refl

  -- Storing only the changed parts of the prompt loses nothing: for the current parts, whose keys
  -- differ and whose ordinals are i32, when no marker is seen by only one of the boundary before
  -- and the current attempt, the markers that storage makes of the turns written for the attempt,
  -- after the earlier ones, give the attempt a prompt that shows the current parts. Labeled parts
  -- show it when each part has its ordinal and its text or update text, or no text and nothing
  -- stored; a legacy text shows it when it is the joined text or no part has text; no prompt shows
  -- it when no part has text.
  pub prompt_turns-Shows :
      (id : Option Text) (turn_id : Text) (parts : List RenderedAgentInstructionPart)
      (markers : List StoredPromptMarker) (boundary : PromptStateBoundary) (t a : ℤ)
      (message_ordinal : TranscriptTurn V M → ℤ)
      → IsDistinct parts
      → All (λ (part : RenderedAgentInstructionPart). is_i32 part.ordinal ≡ true) parts
      → select (prompt_marker_is_visible_at_boundary (at_attempt turn_id t a)) markers
        ≡ select (prompt_marker_is_visible_at_boundary boundary) markers
      → (let previous =
            stored_agent_instruction_state
              (stored_agent_instruction_state_at_boundary markers boundary) in
          let rows =
            map
              (λ (turn : TranscriptTurn V M). turn_row t a (message_ordinal turn) turn)
              (prompt_turns json id turn_id previous parts) in
          Shows parts (
            stored_agent_instruction_state (
              stored_agent_instruction_state_at_boundary
                (markers ++ map (stored_prompt_marker json) rows)
                (at_attempt turn_id t a))))
  unfolding stored_agent_instruction_state_at_boundary prompt_turns
  prompt_turns-Shows id turn_id parts markers boundary t a message_ordinal distinct small same =
      let before = select (prompt_marker_is_visible_at_boundary boundary) markers in
      let state = apply_markers start before in
      let previous = stored_agent_instruction_state (into_snapshot state) in
      let l = sort ordinal_le (changed_agent_instruction_parts parts previous) in
      let new = map (stored_prompt_marker json) (
        map (λ (turn : TranscriptTurn V M). turn_row t a (message_ordinal turn) turn)
          (map (prompt_turn json id turn_id previous) l)) in
      let e : new ≡ map (marker_of t a previous) l =
        stored-prompt_turns id turn_id previous t a message_ordinal l
          (All-sort ordinal_le _ _ (changed-All _ parts previous small)) in
      let sees : select (prompt_marker_is_visible_at_boundary (at_attempt turn_id t a))
            (markers ++ new)
          ≡ select (prompt_marker_is_visible_at_boundary boundary) markers
            ++ map (marker_of t a previous) l =
        select-append _ markers new
        ∙ rw (same, e, visible_at_attempt turn_id t a previous l) refl in
      let applied : apply_markers start (
            select (prompt_marker_is_visible_at_boundary (at_attempt turn_id t a)) (markers ++ new))
          ≡ apply_markers state (map (marker_of t a previous) l) =
        ap (apply_markers start) sees
        ∙ apply_markers-append before (map (marker_of t a previous) l) start in
      rw (applied) (
        after-Shows t a parts distinct state.legacy_text state.modern_parts state.using_modern_parts
          (apply_markers-IsSound before start start-IsSound))
