-- ===== src/Agent/Run/Folds.antt =====
-- What the folding of one step in crates/chudbot-api/src/agent.rs keeps and adds.
use mathlib.Core.List.{append_assoc, append-nil}
use chudbot.Common.{
  ℕ, ◌≡◌, refl, sym, ap, ◌∙◌, ◌≢◌, Option, none, some, List, map, [], ◌∷◌, ◌++◌, Bool-cases, inl,
  inr, is_empty, Text,
}
use chudbot.Model.{ModelStepKind, ModelStepOutput, TranscriptTurn, Transcript}
use chudbot.Model.Output.{transcript_blocks}
use chudbot.Agent.{AgentRun, AgentRunEvent, Values}
use chudbot.Agent.Tools.{Stuck, Completed}
use chudbot.Agent.Run.{
  Progress, Next, stop, again, halted, after_calls, append_results, finished_event, Environment,
  fold_step, model_step_trace, append_assistant_step,
}

-- A transcript extends another: the same id, and the turns in front unchanged.
pub record Extends {V M : Type 0} (old new : Transcript V M) : Type 0 where
  pub id : new.id ≡ old.id
  pub added : List (TranscriptTurn V M)
  pub turns : new.turns ≡ old.turns ++ added

Extends-push :
    {V M : Type 0} {t u : Transcript V M}
    → Extends t u
    → (turn : TranscriptTurn V M) → Extends t (record u { turns = u.turns ++ turn ∷ [] })
Extends-push e turn = record {
  id = e.id;
  added = e.added ++ turn ∷ [];
  turns = rw e.turns (simp append_assoc);
}

pub Extends-trans :
    {V M : Type 0} {t u w : Transcript V M} → Extends t u → Extends u w → Extends t w
Extends-trans e f = record {
  id = f.id ∙ e.id;
  added = e.added ++ f.added;
  turns = rw (f.turns, e.turns) (simp append_assoc);
}

-- A step of the kind was recorded: one trace and the step's usage at the end of the accumulators,
-- the turns extended, and the model of the step remembered.
pub record Recorded {V M : Type 0} (provider : Text) (iteration : ℕ) (k : ModelStepKind)
    (output : ModelStepOutput V) (p q : Progress V M) : Type 0 where
  pub transcript : Extends p.transcript q.transcript
  pub model_steps :
      q.model_steps ≡ p.model_steps ++ model_step_trace iteration k provider output ∷ []
  pub usage : q.usage ≡ p.usage ++ output.usage
  pub last_model_id : q.last_model_id ≡ some output.model_id

-- The accumulators that a run carries.
abbrev pub progress_of : {V M : Type 0} → AgentRun V M → Progress V M
progress_of r = record {
  transcript = r.transcript;
  trace = r.trace;
  model_steps = r.model_steps;
  last_model_id = r.last_model_id;
  final_continuation = r.final_continuation;
  usage = r.usage;
}

module _ {V M : Type 0} (values : Values V) where
  append_assistant_step-Extends :
      (output : ModelStepOutput V) (t : Transcript V M)
      → Extends t (append_assistant_step values output t)
  unfolding append_assistant_step
  append_assistant_step-Extends output t =
      elim (Bool-cases (is_empty (transcript_blocks {M = M} output))) [
        | inl none' ↦ rw none' (record { id = refl; added = []; turns = sym (append-nil _) })
        | inr some' ↦ rw some' (record { id = refl; added = _; turns = refl })
      ]

abbrev stop_or : {V M : Type 0} → AgentRun V M → Next V M → AgentRun V M
stop_or r (stop r') = r'
stop_or r (again _ _) = r
stop_or r (halted _ _) = r

abbrev again_or : {V M : Type 0} → Progress V M → Next V M → Progress V M
again_or q (stop _) = q
again_or q (again _ q') = q'
again_or q (halted _ _) = q

module _ {V M S B X : Type 0} (env : Environment V M S B X) where
  after_calls-ne-stop :
      (s : Option Stuck) (started : List (AgentRunEvent V M)) (completed : List (Completed V M))
      (p : Progress V M) (r : AgentRun V M)
      → after_calls env s started completed p ≢ stop r
  after_calls-ne-stop none started completed p r h = cc
  after_calls-ne-stop (some s) started completed p r h = cc

  -- Where the run goes on, every call returned.
  pub after_calls-again :
      (s : Option Stuck) (started : List (AgentRunEvent V M)) (completed : List (Completed V M))
      (p q : Progress V M) (l : List (AgentRunEvent V M))
      → after_calls env s started completed p ≡ again l q
      → (started ++ map finished_event completed ≡ l) × (append_results env.values completed p ≡ q)
  after_calls-again none started completed p q l h = (cc, ap (again_or q) h)
  after_calls-again (some s) started completed p q l h = cc

  pub after_calls-halted :
      (s : Option Stuck) (started : List (AgentRunEvent V M)) (completed : List (Completed V M))
      (p : Progress V M) (l : List (AgentRunEvent V M)) (t : Stuck)
      → after_calls env s started completed p ≡ halted l t
      → (s ≡ some t) × (started ≡ l)
  after_calls-halted none started completed p l t h = cc
  after_calls-halted (some s) started completed p l t h = (cc, cc)

  pub fold_step-stop :
      (iteration : ℕ) (k : ModelStepKind) (output : ModelStepOutput V) (p : Progress V M)
      (r : AgentRun V M)
      → fold_step env iteration k output p ≡ stop r
      → Recorded env.provider iteration k output p (progress_of r)
  unfolding fold_step
  fold_step-stop iteration ModelStepKind.final output p r h =
      let e = ap (stop_or r) h in
      rw (← e) (record {
        transcript = record { id = refl; added = _; turns = refl };
        model_steps = refl;
        usage = refl;
        last_model_id = refl;
      })
  fold_step-stop iteration ModelStepKind.continue output p r h = cc
  fold_step-stop iteration ModelStepKind.client_tools output p r h =
      absurd (after_calls-ne-stop _ _ _ _ r h)

  pub fold_step-again :
      (iteration : ℕ) (k : ModelStepKind) (output : ModelStepOutput V) (p q : Progress V M)
      (l : List (AgentRunEvent V M))
      → fold_step env iteration k output p ≡ again l q
      → Recorded env.provider iteration k output p q
  unfolding fold_step
  fold_step-again iteration ModelStepKind.final output p q l h = cc
  fold_step-again iteration ModelStepKind.continue output p q l h =
      let e = ap (again_or q) h in
      rw (← e) (record {
        transcript = append_assistant_step-Extends env.values output p.transcript;
        model_steps = refl;
        usage = refl;
        last_model_id = refl;
      })
  fold_step-again iteration ModelStepKind.client_tools output p q l h =
      let (_, e) = after_calls-again _ _ _ _ q l h in
      let t = append_assistant_step-Extends env.values output p.transcript in
      rw (← e) (record {
        transcript = Extends-push t _;
        model_steps = refl;
        usage = refl;
        last_model_id = refl;
      })
