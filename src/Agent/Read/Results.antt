-- ===== src/Agent/Read/Results.antt =====
-- What reading a provider stream in crates/chudbot-api/src/agent.rs can end with.
use chudbot.Common.{
  ℕ, Bool, true, false, ◌≡◌, refl, Option, none, some, List, [], ◌∷◌, inl, inr, Bool-cases,
}
use chudbot.Model.{ModelStep, ModelStepEvent}
use chudbot.Collector.{Collector, StreamItem, ReducerError, push, Json, finish, Finished}
use chudbot.Collector.Valid.{IsValid, push-IsValid}
use chudbot.Agent.{AgentRunError}
use chudbot.Agent.Read.{
  StepResult, stepped, failed, timed_out, hung, panicked, is_late, next_deadline, read_end,
  read_step,
}

-- The errors that a run yields: a failure of the backend, or of the reducer.
abbrev pub is_step_error : {B : Type 0} → AgentRunError B → Bool
is_step_error (AgentRunError.model _) = true
is_step_error (AgentRunError.model_step _) = true
is_step_error _ = false

-- A read step neither panics nor fails with an error of the run's own, and it hangs only on a stream
-- that does not end.
abbrev pub GoodResult : {V B : Type 0} → Option ℕ → StepResult V B → Type 0
GoodResult ends (failed e) = is_step_error e ≡ true
GoodResult ends hung = ends ≡ none
GoodResult ends panicked = ⊥
GoodResult ends (stepped _) = Unit
GoodResult ends timed_out = Unit

finish-GoodResult :
    {V : Type 0} (B : Type 0) (ends : Option ℕ) (o : Finished (ModelStep V))
    → GoodResult {V = V} {B = B} ends (elim o [
      | Finished.ok step ↦ stepped step
      | Finished.err e ↦ failed (AgentRunError.model_step e)
    ])
finish-GoodResult B ends (Finished.ok step) = tt
finish-GoodResult B ends (Finished.err e) = refl

module _ {V B : Type 0} (parser : Json V) (latest : ℕ) (timeout : Option ℕ) where
  read_end-GoodResult :
      (c : Collector V) (deadline ends : Option ℕ) (r : StepResult V B)
      → read_end parser latest timeout c deadline ends ≡ r
      → GoodResult ends r
  unfolding read_end
  read_end-GoodResult c (some d) none r h = rw (← h) tt
  read_end-GoodResult c none none r h = rw (← h) refl
  read_end-GoodResult c none (some t) r h =
      rw (← h) (finish-GoodResult B (some t) (finish parser c))
  read_end-GoodResult c (some d) (some t) r h = rw (← h) (elim (Bool-cases (is_late (some d) t)) [
    | inl late ↦ rw late tt
    | inr early ↦ rw early (finish-GoodResult B (some t) (finish parser c))
  ])

  pushed-GoodResult :
      (e : ModelStepEvent V) (c : Collector V) (r : Collector V × Option ReducerError) (time : ℕ)
      (rest : List (ℕ × StreamItem V B)) (deadline ends : Option ℕ)
      → push e c ≡ some r
      → is_late deadline time ≡ false
      → GoodResult ends
          (read_step parser latest timeout r.0
            (next_deadline latest timeout deadline time e)
            rest
            ends).1
      → GoodResult ends
          (read_step parser latest timeout c deadline ((time, StreamItem.event e) ∷ rest) ends).1
  unfolding read_step
  pushed-GoodResult e c (c', none) time rest deadline ends p early h = rw (early, p) h
  pushed-GoodResult e c (c', some x) time rest deadline ends p early h = rw (early, p) refl

  pub read_step-GoodResult :
      (arrivals : List (ℕ × StreamItem V B)) (c : Collector V) (deadline ends : Option ℕ)
      → IsValid c
      → GoodResult ends (read_step parser latest timeout c deadline arrivals ends).1
  unfolding read_step
  read_step-GoodResult [] c deadline ends v = read_end-GoodResult c deadline ends _ refl
  read_step-GoodResult ((time, StreamItem.failed e) ∷ rest) c deadline ends v =
      elim (Bool-cases (is_late deadline time)) [
        | inl late ↦ rw late tt
        | inr early ↦ rw early refl
      ]
  read_step-GoodResult ((time, StreamItem.event e) ∷ rest) c deadline ends v =
      let (r, p, v') = push-IsValid e c v in
      elim (Bool-cases (is_late deadline time)) [
        | inl late ↦ rw late tt
        | inr early ↦
            pushed-GoodResult e c r time rest deadline ends p early
              (read_step-GoodResult rest r.0 (next_deadline latest timeout deadline time e) ends v')
      ]
