-- ===== src/Prompt/Shown.antt =====
-- A stored part that shows a part of the prompt (crates/chudbot-bot/src/turns.rs), and that every
-- part of the prompt is shown once the changed ones were put into the stored map.
use chudbot.Common.{
  Bool, true, false, not, ◌||◌, ◌≡◌, refl, ap, ◌∙◌, Option, none, some, List, [], ◌∷◌, map, select,
  All, All-imp, select-select, select-map, if◌then◌else◌, Bool-cases, Option-cases, inl, inr, Text,
  text_eq, text_eq_refl, option_text_eq, lookup, text_key, sort, select-sort, IsSingle, arith,
  ==_iff,
}
use chudbot.Agent.{ℤ}
use chudbot.Prompt.{
  eq_ℤ, RenderedAgentInstructionPart, AgentInstructionPartSnapshot, StoredAgentInstructionState,
}
use chudbot.Prompt.Changes.{
  agent_instruction_part_marker_text, is_changed, matches_persisted_text, labeled_part, ordinal_le,
  by_key,
}
use chudbot.Prompt.Maps.{has_key, lookup-by_key_only, by_key_absent}

-- A stored part shows a part of the prompt; a part without text need not be stored.
unfoldable pub IsShown : RenderedAgentInstructionPart → Option AgentInstructionPartSnapshot → Type 0
IsShown part none = part.text ≡ []
IsShown part (some stored) =
    (stored.ordinal ≡ part.ordinal) × (matches_persisted_text part stored.text ≡ true)

abbrev pub is_part : Text → RenderedAgentInstructionPart → Bool
is_part key part = text_eq part.key key

-- No two parts have one key.
unfoldable pub IsDistinct : List RenderedAgentInstructionPart → Type 0
IsDistinct parts =
    All (λ (part : RenderedAgentInstructionPart). select (is_part part.key) parts ≡ part ∷ []) parts

eq_ℤ_eq : (a b : ℤ) → eq_ℤ a b ≡ true → a ≡ b
unfolding eq_ℤ
eq_ℤ_eq (ℤ.pos a) (ℤ.pos b) h = ap ℤ.pos ((==_iff a b).0 h)
eq_ℤ_eq (ℤ.negsuc a) (ℤ.negsuc b) h = ap ℤ.negsuc ((==_iff a b).0 h)
eq_ℤ_eq (ℤ.pos a) (ℤ.negsuc b) h = cc
eq_ℤ_eq (ℤ.negsuc a) (ℤ.pos b) h = cc

marker_text_matches :
    (part : RenderedAgentInstructionPart) (previous : StoredAgentInstructionState)
    → matches_persisted_text part (agent_instruction_part_marker_text part previous) ≡ true
unfolding agent_instruction_part_marker_text matches_persisted_text option_text_eq
marker_text_matches part previous = elim (Option-cases (labeled_part previous part.key)) [
  | inl e ↦
      rw (agent_instruction_part_marker_text, e, matches_persisted_text, text_eq_refl part.text)
        refl
  | inr (stored, e) ↦ elim (Bool-cases (matches_persisted_text part stored.text)) [
    | inl h ↦ ground (arith, e, h, text_eq_refl part.text)
    | inr h ↦ elim (Option-cases part.update_text) [
      | inl u ↦ ground (arith, e, h, u, text_eq_refl part.text)
      | inr (t, u) ↦ ground (arith, e, h, u, text_eq_refl t)
    ]
  ]
]

-- A part that did not change is shown by what was stored before.
pub unchanged-IsShown :
    (m : List (Text × AgentInstructionPartSnapshot)) (part : RenderedAgentInstructionPart)
    → is_changed m part ≡ false
    → IsShown part (lookup part.key m)
unfolding IsShown is_changed
unchanged-IsShown m part h = elim (Option-cases (lookup part.key m)) [
  | inl e ↦ cc (rw (is_changed, e) at h)
  | inr (stored, e) ↦
      (let k : not (eq_ℤ stored.ordinal part.ordinal)
              || not (matches_persisted_text part stored.text)
            ≡ false =
          rw (is_changed, e) at h in
        rw (e) (eq_ℤ_eq stored.ordinal part.ordinal (ground (arith, k)), ground (arith, k)))
]

unfoldable pub snapshot_of :
    StoredAgentInstructionState → RenderedAgentInstructionPart → AgentInstructionPartSnapshot
snapshot_of previous part = record {
  key = part.key;
  ordinal = part.ordinal;
  text = agent_instruction_part_marker_text part previous;
}

module _ (previous : StoredAgentInstructionState) (changed : RenderedAgentInstructionPart → Bool)
    (parts : List RenderedAgentInstructionPart) where
  abbrev pub written : List AgentInstructionPartSnapshot
  written = map (snapshot_of previous) (sort ordinal_le (select changed parts))

  select-written :
      (part : RenderedAgentInstructionPart)
      → select (is_part part.key) parts ≡ part ∷ []
      → select (has_key part.key) written
        ≡ (if changed part then snapshot_of previous part ∷ [] else [])
  unfolding snapshot_of IsSingle
  select-written part only =
      let l = select changed parts in
      let c : select (is_part part.key) l ≡ (if changed part then part ∷ [] else []) =
        select-select (is_part part.key) changed parts ∙ rw (only) refl in
      let kept : select (has_key part.key) written
          ≡ map (snapshot_of previous) (select (is_part part.key) (sort ordinal_le l)) =
        select-map (snapshot_of previous) (has_key part.key) (sort ordinal_le l) in
      elim (Bool-cases (changed part)) [
        | inl t ↦
            (let d : select (is_part part.key) l ≡ part ∷ [] = c ∙ rw (t) refl in
              kept ∙ rw (select-sort ordinal_le (is_part part.key) l (inr (part, d)), d, t) refl)
        | inr f ↦
            (let d : select (is_part part.key) l ≡ [] = c ∙ rw (f) refl in
              kept ∙ rw (select-sort ordinal_le (is_part part.key) l (inl d), d, f) refl)
      ]

  pub written-IsShown :
      (m : List (Text × AgentInstructionPartSnapshot))
      → IsDistinct parts
      → ((part : RenderedAgentInstructionPart)
          → changed part ≡ false
          → IsShown part (lookup part.key m))
      → All
          (λ (part : RenderedAgentInstructionPart).
            IsShown part (lookup part.key (by_key m written)))
          parts
  unfolding IsDistinct IsShown snapshot_of
  written-IsShown m distinct unchanged = All-imp _ _ parts go distinct
    where
      go :
          (part : RenderedAgentInstructionPart)
          → select (is_part part.key) parts ≡ part ∷ []
          → IsShown part (lookup part.key (by_key m written))
      go part only = elim (Bool-cases (changed part)) [
        | inl t ↦
            rw
              (lookup-by_key_only part.key written m (snapshot_of previous part)
                (rw (select-written part only, t) refl))
              (refl, marker_text_matches part previous)
        | inr f ↦
            rw (by_key_absent part.key written m (rw (select-written part only, f) refl))
              (unchanged part f)
      ]
