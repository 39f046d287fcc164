-- ===== src/Agent/Run/Laws.antt =====
-- What a finished run of crates/chudbot-api/src/agent.rs carries.
use mathlib.Core.List.{append_assoc, append-nil, Memᴰ}
use mathlib.Core.List.Memᴰ
use chudbot.Common.{
  ℕ, zero, suc, ◌+◌, ◌≤◌, min, false, ◌≡◌, refl, sym, List, [], ◌∷◌, ◌++◌, map, arith, inl, inr,
  Text, length, All,
}
use chudbot.Model.{ModelStepKind, ModelStepOutput, ModelStepTrace, Transcript}
use chudbot.Agent.{AgentRun, AgentRunEvent, AgentOutcome}
use chudbot.Agent.Instructions.{prepare}
use chudbot.Agent.Read.{StepResult, stepped, failed, timed_out, hung, panicked}
use chudbot.Agent.Run.{
  Progress, Next, stop, again, halted, Environment, fold_step, model_step_trace, finish_run,
}
use chudbot.Agent.Run.Loop.{
  Emitted, event, error, ended, waits, panics, Stream, read, loop, run, start, timed_out_run,
  limit_run, stuck_ending,
}
use chudbot.Agent.Run.Folds.{
  Extends, Extends-trans, Recorded, progress_of, fold_step-stop, fold_step-again,
}
use chudbot.Agent.Run.Ends.{is_run_finished, again-unfinished, fold_step-halted, All-map}

-- Step traces numbered from an iteration on, all of one provider.
abbrev pub Numbered : {V : Type 0} → Text → ℕ → List (ModelStepTrace V) → Type 0
Numbered provider i [] = Unit
Numbered provider i (s ∷ rest) =
    (s.ordinal ≡ min i 2147483647) × (s.provider ≡ provider) × Numbered provider (i + 1) rest

-- What a run that finishes adds to the accumulators in at most `left` steps.
pub record Adds {V M : Type 0} (provider : Text) (left iteration : ℕ) (p : Progress V M)
    (r : AgentRun V M) : Type 0 where
  pub transcript : Extends p.transcript r.transcript
  pub steps : List (ModelStepTrace V)
  pub model_steps : r.model_steps ≡ p.model_steps ++ steps
  pub few : length steps ≤ left
  pub numbered : Numbered provider iteration steps

module _ {V M S B X : Type 0} (env : Environment V M S B X) where
  Adds-nothing :
      (left iteration : ℕ) (p : Progress V M) (outcome : AgentOutcome V M)
      → Adds env.provider left iteration p (finish_run outcome p)
  unfolding finish_run
  Adds-nothing left iteration p outcome = record {
    transcript = record { id = refl; added = []; turns = sym (append-nil _) };
    steps = [];
    model_steps = sym (append-nil _);
    few = omega arith;
    numbered = tt;
  }

  Adds-last :
      (left iteration : ℕ) (k : ModelStepKind) (output : ModelStepOutput V) (p : Progress V M)
      (r : AgentRun V M)
      → Recorded env.provider iteration k output p (progress_of r)
      → Adds env.provider (suc left) iteration p r
  unfolding model_step_trace
  Adds-last left iteration k output p r c = record {
    transcript = c.transcript;
    steps = _;
    model_steps = c.model_steps;
    few = omega arith;
    numbered = (refl, refl, tt);
  }

  Adds-more :
      (left iteration : ℕ) (k : ModelStepKind) (output : ModelStepOutput V) (p q : Progress V M)
      (r : AgentRun V M)
      → Recorded env.provider iteration k output p q
      → Adds env.provider left (iteration + 1) q r
      → Adds env.provider (suc left) iteration p r
  unfolding model_step_trace
  Adds-more left iteration k output p q r c a = record {
    transcript = Extends-trans c.transcript a.transcript;
    steps = model_step_trace iteration k env.provider output ∷ a.steps;
    model_steps = rw (a.model_steps, c.model_steps) (simp append_assoc);
    few = omega (arith, a.few);
    numbered = (refl, refl, a.numbered);
  }

  not_finished :
      (l : List (AgentRunEvent V M)) (r : AgentRun V M)
      → All (λ e. is_run_finished e ≡ false) l
      → Memᴰ {A = Emitted V M B} (event (AgentRunEvent.run_finished r)) (map event l)
      → ⊥
  not_finished [] r h m = elim m [ ]
  not_finished (e ∷ l) r (p, h) m = elim (Memᴰ.cases_cons m) [
    | inl same ↦ (let q : AgentRunEvent.run_finished r ≡ e = cc in cc (rw (← q) at p))
    | inr later ↦ not_finished l r h later
  ]

  -- A run that finishes in what follows some events.
  abbrev Finishing : ℕ → ℕ → Progress V M → List (Emitted V M B) → Type 0
  Finishing left iteration p l =
      (r : AgentRun V M)
      → Memᴰ (event (AgentRunEvent.run_finished r)) l
      → Adds env.provider left iteration p r

  Finishing-before :
      (left iteration : ℕ) (p : Progress V M) (l : List (AgentRunEvent V M))
      (rest : List (Emitted V M B))
      → All (λ e. is_run_finished e ≡ false) l
      → Finishing left iteration p rest
      → Finishing left iteration p (map event l ++ rest)
  Finishing-before left iteration p l rest h f r m = elim (Memᴰ.append_cases (map event l) m) [
    | inl early ↦ absurd (not_finished l r h early)
    | inr late ↦ f r late
  ]

  Finishing-with :
      (left iteration : ℕ) (p : Progress V M) (r : AgentRun V M)
      → Adds env.provider left iteration p r
      → Finishing left iteration p (event (AgentRunEvent.run_finished r) ∷ [])
  Finishing-with left iteration p r a r' m =
      let e : r' ≡ r = (let q = Memᴰ.eq_of_singleton m in cc) in rw e a

  module _ (left iteration : ℕ) (p : Progress V M)
      (ih : (q : Progress V M)
        → Finishing left (iteration + 1) q (loop env left (iteration + 1) q).0) where
    fold-Finishing :
        (k : ModelStepKind) (output : ModelStepOutput V) (n : Next V M)
        → fold_step env iteration k output p ≡ n
        → Finishing (suc left) iteration p (
            let s : Stream V M B = elim n [
              | stop r' ↦ (event (AgentRunEvent.run_finished r') ∷ [], ended)
              | again emitted q ↦ (
                map event emitted ++ (loop env left (iteration + 1) q).0,
                (loop env left (iteration + 1) q).1,
              )
              | halted emitted t ↦ (map event emitted, stuck_ending t)
            ] in
            s.0)
    fold-Finishing k output (stop r) h =
        Finishing-with (suc left) iteration p r
          (Adds-last left iteration k output p r (fold_step-stop env iteration k output p r h))
    fold-Finishing k output (again l q) h =
        Finishing-before (suc left) iteration p l (loop env left (iteration + 1) q).0
          (again-unfinished env iteration k output p q l h)
          (λ r m.
            Adds-more left iteration k output p q r (fold_step-again env iteration k output p q l h)
              (ih q r m))
    fold-Finishing k output (halted l t) h =
        λ r m. absurd (not_finished l r (fold_step-halted env iteration k output p l t h).1 m)

    step-Finishing :
        (s : StepResult V B)
        → Finishing (suc left) iteration p (
            let s : Stream V M B = elim s [
              | stepped step ↦ elim (fold_step env iteration step.kind step.output p) [
                | stop r' ↦ (event (AgentRunEvent.run_finished r') ∷ [], ended)
                | again emitted q ↦ (
                  map event emitted ++ (loop env left (iteration + 1) q).0,
                  (loop env left (iteration + 1) q).1,
                )
                | halted emitted t ↦ (map event emitted, stuck_ending t)
              ]
              | failed e ↦ (error e ∷ [], ended)
              | timed_out ↦ (event (AgentRunEvent.run_finished (timed_out_run env p)) ∷ [], ended)
              | hung ↦ ([], waits)
              | panicked ↦ ([], panics)
            ] in
            s.0)
    step-Finishing (stepped step) r m = fold-Finishing step.kind step.output _ refl r m
    step-Finishing (failed e) r m = (let q = Memᴰ.eq_of_singleton m in cc)
    step-Finishing timed_out r m =
        Finishing-with (suc left) iteration p (timed_out_run env p)
          (unfold timed_out_run in Adds-nothing (suc left) iteration p _) r m
    step-Finishing hung r m = elim m [ ]
    step-Finishing panicked r m = elim m [ ]

  loop-Finishing :
      (left iteration : ℕ) (p : Progress V M)
      → Finishing left iteration p (loop env left iteration p).0
  unfolding loop
  loop-Finishing zero iteration p =
      Finishing-with zero iteration p (limit_run env p)
        (unfold limit_run in Adds-nothing zero iteration p _)
  loop-Finishing (suc left) iteration p =
      Finishing-before (suc left) iteration p
        (AgentRunEvent.model_step_started iteration
          ∷ map (AgentRunEvent.model_event iteration) (read env iteration p).0)
        _
        (refl, All-map _ (AgentRunEvent.model_event iteration) (read env iteration p).0 (λ e. refl))
        (step-Finishing left iteration p (λ q. loop-Finishing left (iteration + 1) q)
          (read env iteration p).1)

  -- A run that finishes carries the transcript it was given (with the prompt in front if it had
  -- none) as an unchanged prefix of its own, and at most `max_iterations` step traces, all of the
  -- backend's provider and numbered from 0 in order (an ordinal stops at the largest i32).
  pub run-Adds :
      (transcript : Transcript V M) (r : AgentRun V M)
      → Memᴰ (event (AgentRunEvent.run_finished r)) (run env transcript).0
      → Adds env.provider env.spec.limits.max_iterations 0
          (start env (prepare env.values env.spec.agent_instruction_parts transcript))
          r
  unfolding run
  run-Adds transcript r m = elim (Memᴰ.cases_cons m) [
    | inl same ↦ cc
    | inr later ↦ loop-Finishing env.spec.limits.max_iterations 0 _ r later
  ]
