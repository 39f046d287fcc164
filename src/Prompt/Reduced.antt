-- ===== src/Prompt/Reduced.antt =====
-- The reducer of crates/chudbot-storage-sqlx/src/snapshots.rs, and what it shows after the markers of
-- the parts that crates/chudbot-bot/src/turns.rs finds changed.
use chudbot.Common.{
  Bool, true, false, ◌≡◌, refl, ◌∙◌, sym, Option, none, some, List, [], ◌∷◌, ◌++◌, select, All,
  All-select, Bool-cases, Option-cases, inl, inr, Text, text_eq, text_eq_iff, lookup, text_key,
  sort, IsOrdered,
}
use chudbot.Agent.{ℤ}
use chudbot.Prompt.{
  RenderedAgentInstructionPart, AgentInstructionPartSnapshot, StoredAgentInstructionState,
}
use chudbot.Prompt.Changes.{
  changed_agent_instruction_parts, is_changed, join_agent_instruction_parts,
  stored_agent_instruction_state, by_key,
}
use chudbot.Prompt.Markers.{
  StoredPromptMarker, PromptState, start, apply_marker, apply_markers, into_snapshot, into_values,
  snapshot_ordinal_le,
}
use chudbot.Prompt.Maps.{IsKeyed, insert_ordered-IsKeyed, lookup-by_key-sorted_values}
use chudbot.Prompt.Shown.{IsDistinct, unchanged-IsShown}
use chudbot.Prompt.After.{Shows, after, after_labeled, fresh-Shows, written-Shows, all_without_text}

-- What holds of the variables of the loop.
unfoldable pub IsSound : PromptState → Type 0
IsSound state =
    IsKeyed state.modern_parts × (state.using_modern_parts ≡ false → state.modern_parts ≡ [])

apply_marker-IsSound :
    (marker : StoredPromptMarker) (state : PromptState)
    → IsSound state
    → IsSound (apply_marker state marker)
unfolding IsSound apply_marker IsKeyed IsOrdered
apply_marker-IsSound marker state (keyed, fresh) = elim (Option-cases marker.part_key) [
  | inl e ↦ rw (e) ((tt, tt), λ _. refl)
  | inr (key, e) ↦ rw (e) (insert_ordered-IsKeyed _ state.modern_parts keyed, λ h. cc)
]

pub apply_markers-IsSound :
    (markers : List StoredPromptMarker) (state : PromptState)
    → IsSound state
    → IsSound (apply_markers state markers)
unfolding apply_markers
apply_markers-IsSound [] state h = h
apply_markers-IsSound (marker ∷ rest) state h =
    apply_markers-IsSound rest (apply_marker state marker) (apply_marker-IsSound marker state h)

pub start-IsSound : IsSound start
unfolding IsSound IsKeyed IsOrdered
start-IsSound = ((tt, tt), λ _. refl)

pub changed-All :
    (P : RenderedAgentInstructionPart → Type 0) (parts : List RenderedAgentInstructionPart)
    (previous : StoredAgentInstructionState)
    → All P parts
    → All P (changed_agent_instruction_parts parts previous)
unfolding changed_agent_instruction_parts
changed-All P parts (StoredAgentInstructionState.labeled_parts stored) h = All-select P _ parts h
changed-All P parts (StoredAgentInstructionState.none) h = All-select P _ parts h
changed-All P parts (StoredAgentInstructionState.legacy_text text) h =
    elim (Bool-cases (text_eq text (join_agent_instruction_parts parts))) [
      | inl same ↦ rw (same) tt
      | inr other ↦ rw (other) (All-select P _ parts h)
    ]

pub apply_markers-append :
    (xs ys : List StoredPromptMarker) (state : PromptState)
    → apply_markers state (xs ++ ys) ≡ apply_markers (apply_markers state xs) ys
unfolding apply_markers
apply_markers-append [] ys state = refl
apply_markers-append (x ∷ xs) ys state = apply_markers-append xs ys (apply_marker state x)

is_changed-lookup :
    (m n : List (Text × AgentInstructionPartSnapshot)) (part : RenderedAgentInstructionPart)
    → lookup part.key m ≡ lookup part.key n
    → is_changed m part ≡ is_changed n part
unfolding is_changed
is_changed-lookup m n part e = rw (is_changed, e) refl

module _ (t a : ℤ) (parts : List RenderedAgentInstructionPart) (distinct : IsDistinct parts) where
  labeled-Shows :
      (legacy : Option Text) (m : List (Text × AgentInstructionPartSnapshot))
      → IsKeyed m
      → (let previous =
            StoredAgentInstructionState.labeled_parts (sort snapshot_ordinal_le (into_values m)) in
          Shows parts (
            after t a previous
              (record { legacy_text = legacy; modern_parts = m; using_modern_parts = true })
              (changed_agent_instruction_parts parts previous)))
  unfolding changed_agent_instruction_parts
  labeled-Shows legacy m keyed =
      let shown = sort snapshot_ordinal_le (into_values m) in
      let previous = StoredAgentInstructionState.labeled_parts shown in
      rw
        (after_labeled t a previous parts distinct legacy m
          (select (is_changed (by_key [] shown)) parts))
        (written-Shows t a previous parts distinct m (is_changed (by_key [] shown)) keyed (λ part h.
          unchanged-IsShown m part (
            is_changed-lookup m (by_key [] shown) part
              (sym (lookup-by_key-sorted_values part.key m keyed))
            ∙ h)))

  legacy-Shows :
      (text : Text)
      → (let previous = StoredAgentInstructionState.legacy_text text in
          Shows parts (
            after t a previous
              (record { legacy_text = some text; modern_parts = []; using_modern_parts = false })
              (changed_agent_instruction_parts parts previous)))
  unfolding changed_agent_instruction_parts Shows stored_agent_instruction_state into_snapshot sort
      apply_markers
  legacy-Shows text =
      let previous = StoredAgentInstructionState.legacy_text text in
      elim (Bool-cases (text_eq text (join_agent_instruction_parts parts))) [
        | inl same ↦
            rw (same) (inl ((text_eq_iff text (join_agent_instruction_parts parts)).0 same))
        | inr other ↦ rw (other) (
            fresh-Shows t a previous parts distinct (some text)
              (λ nothing. inr (all_without_text t a previous parts distinct parts nothing)))
      ]

  none-Shows : Shows parts (
      after t a StoredAgentInstructionState.none
        (record { legacy_text = none; modern_parts = []; using_modern_parts = false })
        (changed_agent_instruction_parts parts StoredAgentInstructionState.none))
  unfolding changed_agent_instruction_parts Shows stored_agent_instruction_state into_snapshot sort
      apply_markers
  none-Shows = fresh-Shows t a StoredAgentInstructionState.none parts distinct none (λ nothing.
      all_without_text t a StoredAgentInstructionState.none parts distinct parts nothing)

  -- The reducer's state before, and the markers of the parts that changed since.
  pub after-Shows :
      (legacy : Option Text) (m : List (Text × AgentInstructionPartSnapshot)) (using : Bool)
      → IsSound (record { legacy_text = legacy; modern_parts = m; using_modern_parts = using })
      → (let state : PromptState = record {
        legacy_text = legacy;
        modern_parts = m;
        using_modern_parts = using;
      } in
          let previous = stored_agent_instruction_state (into_snapshot state) in
          Shows parts (after t a previous state (changed_agent_instruction_parts parts previous)))
  unfolding IsSound stored_agent_instruction_state into_snapshot
  after-Shows legacy m true sound = labeled-Shows legacy m sound.0
  after-Shows none m false sound = rw (sound.1 refl) none-Shows
  after-Shows (some text) m false sound = rw (sound.1 refl) (legacy-Shows text)
