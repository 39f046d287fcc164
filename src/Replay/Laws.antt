-- ===== src/Replay/Laws.antt =====
-- What the replay of model steps in crates/chudbot-bot/src/transcript.rs adds to a transcript.
use chudbot.Common.{
  ◌&&◌, ◌≡◌, refl, ap, sym, ◌∙◌, Option, List, [], ◌∷◌, ◌++◌, map, All, All-append, is_empty, Text,
  text_key, IsOrdered, lookup_entries, Bool-cases, inl, inr,
}
use mathlib.Core.List.{append_assoc, append-nil, map-append}
use chudbot.Model.{TranscriptTurn, Transcript, ToolTrace, ModelStepTrace, ClientToolResult}
use chudbot.Replay.{
  Readable, take_results, step_results, step_turns, replay_steps, append_model_step_replay,
  client_tool_results_by_id, call_ids, is_client_tools, is_none,
}
use chudbot.Replay.Steps.{
  IsUnique, IsStored, IsTaken, IsIndexed, id_of, results_from-IsIndexed, take_results-IsTaken,
  take_rest-IsTaken,
}
use chudbot.Replay.Results.{turn_results, turn_results-append, turn_results-step_turns}

nothing-IsTaken :
    {V : Type 0} (stored : List (Text × ClientToolResult V)) (before : List Text)
    → IsUnique before
    → IsTaken stored before (record { consumed = before; results = [] })
unfolding IsTaken
nothing-IsTaken stored before unique = (sym (append-nil before), unique, tt)

stored-IsIndexed :
    {V : Type 0} (traces : List (ToolTrace V)) → IsIndexed (client_tool_results_by_id traces)
unfolding IsIndexed IsOrdered client_tool_results_by_id
stored-IsIndexed traces = results_from-IsIndexed traces [] (tt, tt)

module _ {V : Type 0} (readable : Readable V) where
  step_results-IsTaken :
      (stored : List (Text × ClientToolResult V)) (before : List Text) (step : ModelStepTrace V)
      → IsIndexed stored
      → IsUnique before
      → IsTaken stored before (step_results readable stored before step)
  unfolding step_results IsIndexed
  step_results-IsTaken stored before step (keyed, ordered) unique =
      let named =
        take_results stored (record { consumed = before; results = [] })
          (call_ids readable step.continuation) in
      let taken : IsTaken stored before named =
        take_results-IsTaken stored before (call_ids readable step.continuation) _ keyed
          (nothing-IsTaken stored before unique) in
      elim (Bool-cases
        (is_client_tools step.kind && is_none step.continuation && is_empty named.results)) [
          | inl old ↦ rw (old) (
              take_rest-IsTaken stored before stored named keyed (lookup_entries stored ordered)
                taken)
          | inr new ↦ rw (new) taken
        ]

module _ {V : Type 0} (M : Type 0) (readable : Readable V) where
  -- What a list of turns replays, given the ids that were taken before.
  Replays : List (Text × ClientToolResult V) → List Text → List (TranscriptTurn V M) → Type 0
  Replays stored before turns =
      IsUnique (before ++ map id_of (turn_results M turns))
      × All (IsStored stored) (turn_results M turns)

  replay_steps-Replays :
      (stored : List (Text × ClientToolResult V)) (answer : Option Text) (before : List Text)
      (steps : List (ModelStepTrace V))
      → IsIndexed stored
      → IsUnique before
      → Replays stored before (replay_steps readable stored answer before steps)
  unfolding Replays replay_steps turn_results IsTaken
  replay_steps-Replays stored answer before [] indexed unique = (rw (append-nil before) unique, tt)
  replay_steps-Replays stored answer before (step ∷ steps) indexed unique =
      let taken = step_results readable stored before step in
      let (recorded, fresh, all) =
        step_results-IsTaken readable stored before step indexed unique in
      let (rest, more) = replay_steps-Replays stored answer taken.consumed steps indexed fresh in
      let later = replay_steps {M = M} readable stored answer taken.consumed steps in
      let results : turn_results M
            (step_turns readable (is_empty steps) answer step taken.results ++ later)
          ≡ taken.results ++ turn_results M later =
        turn_results-append M (step_turns readable (is_empty steps) answer step taken.results) later
        ∙ ap (λ l. l ++ turn_results M later)
            (turn_results-step_turns M readable (is_empty steps) answer step taken.results) in
      let ids : before ++ map id_of (taken.results ++ turn_results M later)
          ≡ taken.consumed ++ map id_of (turn_results M later) =
        ap (λ l. before ++ l) (map-append id_of taken.results (turn_results M later))
        ∙ (sym (append_assoc before (map id_of taken.results) (map id_of (turn_results M later)))
            ∙ ap (λ l. l ++ map id_of (turn_results M later)) (sym recorded)) in
      rw (results) (rw (ids) rest, All-append (IsStored stored) taken.results _ all more)

  -- Replaying model steps only adds turns at the end of the transcript, and no client-tool result
  -- is replayed twice: the results in the added turns have different ids, and each is the one that
  -- is stored under its id.
  pub append_model_step_replay-IsUnique :
      (transcript : Transcript V M) (steps : List (ModelStepTrace V)) (traces : List (ToolTrace V))
      (answer : Option Text)
      → (added : List (TranscriptTurn V M)) × ((append_model_step_replay readable transcript steps
            traces answer).0.turns
          ≡ transcript.turns ++ added)
        × IsUnique (map id_of (turn_results M added))
        × All (IsStored (client_tool_results_by_id traces)) (turn_results M added)
  unfolding append_model_step_replay turn_results IsUnique Replays
  append_model_step_replay-IsUnique transcript [] traces answer =
      ([], sym (append-nil transcript.turns), tt, tt)
  append_model_step_replay-IsUnique transcript (step ∷ steps) traces answer =
      let stored = client_tool_results_by_id traces in
      let (unique, all) =
        replay_steps-Replays stored answer [] (step ∷ steps) (stored-IsIndexed traces) tt in
      (replay_steps readable stored answer [] (step ∷ steps), refl, unique, all)
