-- ===== src/Prompt/After.antt =====
-- The prompt that the reducer of crates/chudbot-storage-sqlx/src/snapshots.rs shows after the markers
-- of changed parts.
use chudbot.Common.{
  Bool, true, false, not, ◌≡◌, refl, sym, Option, none, List, [], ◌∷◌, map, select, All, All-imp,
  sort_cons, Bool-cases, inl, inr, ◌⊎◌, is_empty, Text, lookup, text_key, sort, IsOrdered,
}
use chudbot.Agent.{ℤ}
use chudbot.Prompt.{
  RenderedAgentInstructionPart, AgentInstructionPartSnapshot, StoredAgentInstructionState,
}
use chudbot.Prompt.Changes.{
  agent_instruction_part_marker_text, join_agent_instruction_parts, ordinal_le,
  stored_agent_instruction_state, by_key, find_part,
}
use chudbot.Prompt.Markers.{
  StoredPromptMarker, PromptState, apply_marker, apply_markers, into_snapshot, into_values,
  snapshot_ordinal_le,
}
use chudbot.Prompt.Maps.{IsKeyed, find_part-sorted_values, by_key-IsKeyed}
use chudbot.Prompt.Rows.{labeled}
use chudbot.Prompt.Shown.{IsShown, IsDistinct, snapshot_of, written, written-IsShown}

-- A stored prompt shows the current parts.
unfoldable pub Shows : List RenderedAgentInstructionPart → StoredAgentInstructionState → Type 0
unfolding IsShown join_agent_instruction_parts
Shows parts (StoredAgentInstructionState.labeled_parts stored) =
    All (λ (part : RenderedAgentInstructionPart). IsShown part (find_part part.key stored)) parts
Shows parts (StoredAgentInstructionState.legacy_text text) =
    (text ≡ join_agent_instruction_parts parts)
    ⊎ All (λ (part : RenderedAgentInstructionPart). part.text ≡ []) parts
Shows parts (StoredAgentInstructionState.none) =
    All (λ (part : RenderedAgentInstructionPart). part.text ≡ []) parts

module _ (turn_ordinal attempt_ordinal : ℤ) (previous : StoredAgentInstructionState) where
  abbrev pub marker_of : RenderedAgentInstructionPart → StoredPromptMarker
  marker_of part =
      labeled turn_ordinal attempt_ordinal part.key part.ordinal
        (agent_instruction_part_marker_text part previous)

  apply-labeled :
      (part : RenderedAgentInstructionPart) (rest : List RenderedAgentInstructionPart)
      (state : PromptState)
      → apply_markers state (map marker_of (part ∷ rest)) ≡ record {
        legacy_text = none;
        modern_parts = by_key state.modern_parts (map (snapshot_of previous) (part ∷ rest));
        using_modern_parts = true;
      }
  unfolding apply_markers apply_marker snapshot_of by_key
  apply-labeled part [] state = refl
  apply-labeled part (next ∷ rest) state =
      apply-labeled next rest (apply_marker state (marker_of part))

  apply-sorted :
      (part : RenderedAgentInstructionPart) (rest : List RenderedAgentInstructionPart)
      (state : PromptState)
      → apply_markers state (map marker_of (sort ordinal_le (part ∷ rest))) ≡ record {
        legacy_text = none;
        modern_parts =
            by_key state.modern_parts (map (snapshot_of previous) (sort ordinal_le (part ∷ rest)));
        using_modern_parts = true;
      }
  apply-sorted part rest state =
      let (first, others, e) = sort_cons ordinal_le part rest in
      rw (e) (apply-labeled first others state)

  -- The prompt after the markers of the parts `l`.
  abbrev pub after : PromptState → List RenderedAgentInstructionPart → StoredAgentInstructionState
  after state l =
      stored_agent_instruction_state
        (into_snapshot (apply_markers state (map marker_of (sort ordinal_le l))))

  module _ (parts : List RenderedAgentInstructionPart) (distinct : IsDistinct parts) where
    abbrev pub by_key_after :
        List (Text × AgentInstructionPartSnapshot)
        → List RenderedAgentInstructionPart
        → List (Text × AgentInstructionPartSnapshot)
    by_key_after m l = by_key m (map (snapshot_of previous) (sort ordinal_le l))

    pub written-Shows :
        (m : List (Text × AgentInstructionPartSnapshot))
        (changed : RenderedAgentInstructionPart → Bool)
        → IsKeyed m
        → ((part : RenderedAgentInstructionPart)
            → changed part ≡ false
            → IsShown part (lookup part.key m))
        → Shows parts (
            StoredAgentInstructionState.labeled_parts
              (sort snapshot_ordinal_le (into_values (by_key_after m (select changed parts)))))
    unfolding Shows
    written-Shows m changed keyed unchanged =
        All-imp _ _ parts
          (λ (part : RenderedAgentInstructionPart) shown.
            rw
              (find_part-sorted_values part.key _
                (by_key-IsKeyed (written previous changed parts) m keyed))
              shown)
          (written-IsShown previous changed parts m distinct unchanged)

    -- Some marker makes the prompt one of labeled parts.
    after_some :
        (state : PromptState) (part : RenderedAgentInstructionPart)
        (rest : List RenderedAgentInstructionPart)
        → after state (part ∷ rest)
          ≡ StoredAgentInstructionState.labeled_parts (
              sort snapshot_ordinal_le
                (into_values (by_key_after state.modern_parts (part ∷ rest))))
    unfolding stored_agent_instruction_state into_snapshot
    after_some state part rest = rw (apply-sorted part rest state) refl

    pub after_labeled :
        (legacy : Option Text) (m : List (Text × AgentInstructionPartSnapshot))
        (l : List RenderedAgentInstructionPart)
        → after (record { legacy_text = legacy; modern_parts = m; using_modern_parts = true }) l
          ≡ StoredAgentInstructionState.labeled_parts
              (sort snapshot_ordinal_le (into_values (by_key_after m l)))
    unfolding stored_agent_instruction_state into_snapshot sort by_key apply_markers
    after_labeled legacy m [] = refl
    after_labeled legacy m (part ∷ rest) = after_some _ part rest

    -- With no labeled part before, the parts that have text are written.
    abbrev pub has_text : RenderedAgentInstructionPart → Bool
    has_text part = not (is_empty part.text)

    without_text : (part : RenderedAgentInstructionPart) → has_text part ≡ false → part.text ≡ []
    without_text part h = go part.text h
      where
        go : (t : Text) → not (is_empty t) ≡ false → t ≡ []
        go [] h = refl
        go (c ∷ t) h = cc

    pub all_without_text :
        (l : List RenderedAgentInstructionPart)
        → select has_text l ≡ []
        → All (λ (part : RenderedAgentInstructionPart). part.text ≡ []) l
    all_without_text [] h = tt
    all_without_text (part ∷ l) h = elim (Bool-cases (has_text part)) [
      | inl t ↦ cc (rw (t) at h)
      | inr f ↦ (without_text part f, all_without_text l (rw (f) at h))
    ]

    empty-IsShown :
        (part : RenderedAgentInstructionPart)
        → has_text part ≡ false
        → IsShown part (lookup part.key [])
    unfolding IsShown lookup
    empty-IsShown part h = without_text part h

    pub fresh-Shows :
        (legacy : Option Text)
        → (select has_text parts ≡ []
            → Shows parts (
                after
                  (record { legacy_text = legacy; modern_parts = []; using_modern_parts = false })
                  []))
        → Shows parts (
            after
              (record { legacy_text = legacy; modern_parts = []; using_modern_parts = false })
              (select has_text parts))
    unfolding IsKeyed IsOrdered
    fresh-Shows legacy nothing = go (select has_text parts) refl
      where
        go :
            (l : List RenderedAgentInstructionPart)
            → select has_text parts ≡ l
            → Shows parts (
                after
                  (record { legacy_text = legacy; modern_parts = []; using_modern_parts = false })
                  l)
        go [] e = nothing e
        go (part ∷ rest) e =
            rw
              (
                after_some
                    (record { legacy_text = legacy; modern_parts = []; using_modern_parts = false })
                    part rest,
                sym e,
              )
              (written-Shows [] has_text (tt, tt) empty-IsShown)
