-- ===== src/Agent/Run/Ends.antt =====
-- How the stream of `Agent::run` in crates/chudbot-api/src/agent.rs ends, and what collecting it
-- gives.
use mathlib.Core.List.{append_assoc, append-nil, map-append}
use chudbot.Common.{
  ℕ, zero, suc, ◌+◌, Bool, true, false, ◌≡◌, refl, sym, ◌≢◌, none, List, [], ◌∷◌, ◌++◌, map, All,
  All-append, arith,
}
use chudbot.Model.{ClientToolCall, Transcript, ModelStepKind, ModelStepOutput}
use chudbot.Collector.{empty}
use chudbot.Collector.Valid.{empty-IsValid}
use chudbot.Agent.{AgentRun, AgentRunEvent, AgentRunError}
use chudbot.Agent.Tools.{Stuck, hangs, enabled_tool_specs}
use chudbot.Agent.Tools.Stopped.{Stops, stuck_calls-Stops}
use chudbot.Agent.Run.Folds.{after_calls-again, after_calls-halted}
use chudbot.Agent.Read.{ModelStepRequest, StepResult, stepped, failed, timed_out, hung, panicked}
use chudbot.Agent.Read.Results.{is_step_error, GoodResult, read_step-GoodResult}
use chudbot.Agent.Run.{
  Progress, Next, stop, again, halted, Environment, fold_step, finished_event, completed_calls,
}
use chudbot.Model.Output.{client_tool_calls}
use chudbot.Agent.Run.Loop.{
  Emitted, event, error, Ending, ended, waits, panics, Stream, CollectedRun, ok, err, waiting,
  broken, tool_broken, tool_panics, stuck_ending, request, read, loop, run, timed_out_run,
  limit_run, collect_from, collect_agent_run,
}

abbrev pub is_run_finished : {V M : Type 0} → AgentRunEvent V M → Bool
is_run_finished (AgentRunEvent.run_finished _) = true
is_run_finished _ = false

-- How a stream of a run may end, after events that do not finish it.
pub data Tail {V M S B X : Type 0} (env : Environment V M S B X) : Type 0 where
  finishes : AgentRun V M → Tail env
  fails : (e : AgentRunError B) → is_step_error e ≡ true → Tail env
  waits_for_provider :
      (iteration : ℕ) (asked : ModelStepRequest V M S)
      → (env.step iteration asked).ends ≡ none
      → Tail env
  waits_for_tool :
      (iteration : ℕ)
      → Stops (enabled_tool_specs env.spec env.tools) (env.stuck iteration) hangs
      → Tail env
  panics_in_tool :
      (iteration : ℕ)
      → Stops (enabled_tool_specs env.spec env.tools) (env.stuck iteration) Stuck.panics
      → Tail env

module _ {V M S B X : Type 0} (env : Environment V M S B X) where
  abbrev pub tail_items : Tail env → List (Emitted V M B)
  tail_items (finishes r) = event (AgentRunEvent.run_finished r) ∷ []
  tail_items (fails e _) = error e ∷ []
  tail_items (waits_for_provider _ _ _) = []
  tail_items (waits_for_tool _ _) = []
  tail_items (panics_in_tool _ _) = []

  abbrev pub tail_ending : Tail env → Ending
  tail_ending (finishes _) = ended
  tail_ending (fails _ _) = ended
  tail_ending (waits_for_provider _ _ _) = waits
  tail_ending (waits_for_tool _ _) = waits
  tail_ending (panics_in_tool _ _) = tool_panics

  -- The stream is events that do not finish the run, and then one such tail.
  pub record Ends (s : Stream V M B) : Type 0 where
    pub before : List (AgentRunEvent V M)
    pub tail : Tail env
    pub items : s.0 ≡ map event before ++ tail_items tail
    pub ending : s.1 ≡ tail_ending tail
    pub unfinished : All (λ e. is_run_finished e ≡ false) before

  Ends-before :
      (l : List (AgentRunEvent V M)) (s : Stream V M B)
      → All (λ e. is_run_finished e ≡ false) l
      → Ends s
      → Ends (map event l ++ s.0, s.1)
  Ends-before l s h e = record {
    before = l ++ e.before;
    tail = e.tail;
    items = simp (e.items, map-append, append_assoc);
    ending = e.ending;
    unfinished = All-append (λ x. is_run_finished x ≡ false) l e.before h e.unfinished;
  }

  Tail-Ends : (t : Tail env) → Ends (tail_items t, tail_ending t)
  Tail-Ends t = record { before = []; tail = t; items = refl; ending = refl; unfinished = tt }

  -- Collecting a stream that ends so gives the run, or the error, or waits.
  abbrev pub tail_result : Tail env → CollectedRun V M B
  tail_result (finishes r) = ok r
  tail_result (fails e _) = err e
  tail_result (waits_for_provider _ _ _) = waiting
  tail_result (waits_for_tool _ _) = waiting
  tail_result (panics_in_tool _ _) = tool_broken

  collect_before :
      (l : List (AgentRunEvent V M)) (t : Tail env)
      → All (λ e. is_run_finished e ≡ false) l
      → collect_from none (map event l ++ tail_items t) (tail_ending t) ≡ tail_result t
  unfolding collect_from
  collect_before [] (finishes r) h = refl
  collect_before [] (fails e p) h = refl
  collect_before [] (waits_for_provider _ _ _) h = refl
  collect_before [] (waits_for_tool _ _) h = refl
  collect_before [] (panics_in_tool _ _) h = refl
  collect_before (AgentRunEvent.run_started ∷ l) t (_, h) = collect_before l t h
  collect_before (AgentRunEvent.model_step_started _ ∷ l) t (_, h) = collect_before l t h
  collect_before (AgentRunEvent.model_event _ _ ∷ l) t (_, h) = collect_before l t h
  collect_before (AgentRunEvent.client_tool_started _ ∷ l) t (_, h) = collect_before l t h
  collect_before (AgentRunEvent.client_tool_finished _ _ _ ∷ l) t (_, h) = collect_before l t h
  collect_before (AgentRunEvent.run_finished _ ∷ l) t (p, h) = cc

tail_result_good :
    {V M S B X : Type 0} (env : Environment V M S B X) (t : Tail env)
    → (tail_result env t ≢ err AgentRunError.run_stream_ended)
      × (tail_result env t ≢ err AgentRunError.duplicate_run_finished)
      × (tail_result env t ≢ broken)
tail_result_good env (finishes r) = ground arith
tail_result_good env (fails (AgentRunError.model e) p) = ground arith
tail_result_good env (fails (AgentRunError.model_step e) p) = ground arith
tail_result_good env (fails AgentRunError.run_stream_ended p) = cc
tail_result_good env (fails AgentRunError.duplicate_run_finished p) = cc
tail_result_good env (waits_for_provider _ _ _) = ground arith
tail_result_good env (waits_for_tool _ _) = ground arith
tail_result_good env (panics_in_tool _ _) = ground arith

pub All-map :
    {A C : Type 0} (P : C → Type 0) (f : A → C) (l : List A) → ((x : A) → P (f x)) → All P (map f l)
All-map P f [] h = tt
All-map P f (x ∷ l) h = (h x, All-map P f l h)

module _ {V M S B X : Type 0} (env : Environment V M S B X) where
  read-GoodResult :
      (iteration : ℕ) (p : Progress V M)
      → GoodResult (env.step iteration (request env p.transcript)).ends (read env iteration p).1
  unfolding read
  read-GoodResult iteration p = read_step-GoodResult env.parser _ _ _ empty none _ empty-IsValid

  started-unfinished :
      (calls : List (ClientToolCall V))
      → All {A = AgentRunEvent V M}
          (λ e. is_run_finished e ≡ false)
          (map AgentRunEvent.client_tool_started calls)
  started-unfinished calls = All-map _ AgentRunEvent.client_tool_started calls (λ c. refl)

  -- What a step leads to: events that do not finish the run, and the end or the next iteration.
  pub again-unfinished :
      (iteration : ℕ) (k : ModelStepKind) (output : ModelStepOutput V) (p q : Progress V M)
      (l : List (AgentRunEvent V M))
      → fold_step env iteration k output p ≡ again l q
      → All (λ e. is_run_finished e ≡ false) l
  unfolding fold_step
  again-unfinished iteration ModelStepKind.final output p q l h = cc
  again-unfinished iteration ModelStepKind.continue output p q l h =
      let e : [] ≡ l = cc in rw (← e) tt
  again-unfinished iteration ModelStepKind.client_tools output p q l h =
      let calls = client_tool_calls output in
      let (e, _) = after_calls-again env _ _ _ _ q l h in
      rw (← e) (
        All-append (λ x. is_run_finished x ≡ false) (map AgentRunEvent.client_tool_started calls)
          (map finished_event (completed_calls env iteration calls)) (started-unfinished calls)
          (All-map _ finished_event (completed_calls env iteration calls) (λ c. refl)))

  -- Where the run does not go on: events that do not finish it, and a call that stops it.
  pub fold_step-halted :
      (iteration : ℕ) (k : ModelStepKind) (output : ModelStepOutput V) (p : Progress V M)
      (l : List (AgentRunEvent V M)) (t : Stuck)
      → fold_step env iteration k output p ≡ halted l t
      → Stops (enabled_tool_specs env.spec env.tools) (env.stuck iteration) t
        × All (λ e. is_run_finished e ≡ false) l
  unfolding fold_step
  fold_step-halted iteration ModelStepKind.final output p l t h = cc
  fold_step-halted iteration ModelStepKind.continue output p l t h = cc
  fold_step-halted iteration ModelStepKind.client_tools output p l t h =
      let (found, e) = after_calls-halted env _ _ _ _ l t h in
      (
        stuck_calls-Stops (enabled_tool_specs env.spec env.tools) (env.stuck iteration) 0
            (client_tool_calls output) t found,
        rw (← e) (started-unfinished (client_tool_calls output)),
      )

  halted-Ends :
      (iteration : ℕ) (l : List (AgentRunEvent V M)) (t : Stuck)
      → Stops (enabled_tool_specs env.spec env.tools) (env.stuck iteration) t
      → All (λ e. is_run_finished e ≡ false) l
      → Ends env (map event l, stuck_ending t)
  halted-Ends iteration l hangs found h = record {
    before = l;
    tail = waits_for_tool iteration found;
    items = sym (append-nil (map event l));
    ending = refl;
    unfinished = h;
  }
  halted-Ends iteration l Stuck.panics found h = record {
    before = l;
    tail = panics_in_tool iteration found;
    items = sym (append-nil (map event l));
    ending = refl;
    unfinished = h;
  }

  module _ (left iteration : ℕ) (p : Progress V M)
      (ih : (q : Progress V M) → Ends env (loop env left (iteration + 1) q)) where
    fold-Ends :
        (k : ModelStepKind) (output : ModelStepOutput V) (n : Next V M)
        → fold_step env iteration k output p ≡ n
        → Ends env (elim n [
          | stop r' ↦ (event (AgentRunEvent.run_finished r') ∷ [], ended)
          | again emitted q ↦ (
            map event emitted ++ (loop env left (iteration + 1) q).0,
            (loop env left (iteration + 1) q).1,
          )
          | halted emitted t ↦ (map event emitted, stuck_ending t)
        ])
    fold-Ends k output (stop r) h = Tail-Ends env (finishes r)
    fold-Ends k output (again l q) h =
        Ends-before env l (loop env left (iteration + 1) q)
          (again-unfinished iteration k output p q l h) (ih q)
    fold-Ends k output (halted l t) h =
        let (found, unfinished) = fold_step-halted iteration k output p l t h in
        halted-Ends iteration l t found unfinished

    step-Ends :
        (r : StepResult V B)
        → GoodResult (env.step iteration (request env p.transcript)).ends r
        → Ends env (elim r [
          | stepped step ↦ elim (fold_step env iteration step.kind step.output p) [
            | stop r' ↦ (event (AgentRunEvent.run_finished r') ∷ [], ended)
            | again emitted q ↦ (
              map event emitted ++ (loop env left (iteration + 1) q).0,
              (loop env left (iteration + 1) q).1,
            )
            | halted emitted t ↦ (map event emitted, stuck_ending t)
          ]
          | failed e ↦ (error e ∷ [], ended)
          | timed_out ↦ (event (AgentRunEvent.run_finished (timed_out_run env p)) ∷ [], ended)
          | hung ↦ ([], waits)
          | panicked ↦ ([], panics)
        ])
    step-Ends (stepped step) g = fold-Ends step.kind step.output _ refl
    step-Ends (failed e) g = Tail-Ends env (fails e g)
    step-Ends timed_out g = Tail-Ends env (finishes (timed_out_run env p))
    step-Ends hung g = Tail-Ends env (waits_for_provider iteration (request env p.transcript) g)
    step-Ends panicked g = absurd g

  loop-Ends : (left iteration : ℕ) (p : Progress V M) → Ends env (loop env left iteration p)
  unfolding loop
  loop-Ends zero iteration p = Tail-Ends env (finishes (limit_run env p))
  loop-Ends (suc left) iteration p =
      Ends-before env
        (AgentRunEvent.model_step_started iteration
          ∷ map (AgentRunEvent.model_event iteration) (read env iteration p).0)
        _
        (refl, All-map _ (AgentRunEvent.model_event iteration) (read env iteration p).0 (λ e. refl))
        (step-Ends left iteration p (λ q. loop-Ends left (iteration + 1) q) (read env iteration p).1
          (read-GoodResult iteration p))

  -- Whatever the tools do and the backend answers, in streams of finitely many items, the stream of
  -- a run is a list of events of which none finishes the run, and then the event that finishes it,
  -- or one error of the backend or of the reducer, or a wait for a provider's stream that yields no
  -- more but does not end, or for an enabled tool whose call never returns, or the panic of such a
  -- tool. The run never panics itself.
  pub run-Ends : (transcript : Transcript V M) → Ends env (run env transcript)
  unfolding run
  run-Ends transcript =
      Ends-before env (AgentRunEvent.run_started ∷ []) _ (refl, tt)
        (loop-Ends env.spec.limits.max_iterations 0 _)

  -- Collecting a run never reports a missing or a second end of the run, and never panics of its
  -- own: it panics only where a tool does.
  pub collect_agent_run-run :
      (transcript : Transcript V M)
      → (collect_agent_run (run env transcript) ≢ err AgentRunError.run_stream_ended)
        × (collect_agent_run (run env transcript) ≢ err AgentRunError.duplicate_run_finished)
        × (collect_agent_run (run env transcript) ≢ broken)
  unfolding collect_agent_run
  collect_agent_run-run transcript =
      let e = run-Ends transcript in
      rw (e.items, e.ending)
        (rw (collect_before env e.before e.tail e.unfinished) (tail_result_good env e.tail))
