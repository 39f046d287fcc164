-- ===== src/Agent/Tools/Stopped.antt =====
-- Which call of a step in crates/chudbot-api/src/agent.rs keeps the run from going on.
use chudbot.Common.{
  ℕ, ◌+◌, true, ◌≡◌, refl, inl, inr, Option, none, some, List, [], ◌∷◌, Text, text_key,
  contains_key, Bool-cases,
}
use chudbot.Model.{ClientToolCall}
use chudbot.Agent.Tools.{Stuck, hangs, panics, worse, stuck_calls}

module _ {V S : Type 0} (enabled_tools : List (Text × S))
    (stuck : ℕ → ClientToolCall V → Option Stuck) where
  -- An enabled call that is stuck so.
  pub record Stops (s : Stuck) : Type 0 where
    pub number : ℕ
    pub call : ClientToolCall V
    pub enabled : contains_key call.name enabled_tools ≡ true
    pub stops : stuck number call ≡ some s

  first_or_later :
      (n : ℕ) (call : ClientToolCall V) (first later : Option Stuck) (s : Stuck)
      → contains_key call.name enabled_tools ≡ true
      → stuck n call ≡ first
      → ((t : Stuck) → later ≡ some t → Stops t)
      → worse first later ≡ some s
      → Stops s
  first_or_later n call none later s enabled e h found = h s found
  first_or_later n call (some panics) later s enabled e h found = record {
    number = n;
    call = call;
    enabled = enabled;
    stops = cc;
  }
  first_or_later n call (some hangs) none s enabled e h found = record {
    number = n;
    call = call;
    enabled = enabled;
    stops = cc;
  }
  first_or_later n call (some hangs) (some t) s enabled e h found = h s found

  pub stuck_calls-Stops :
      (n : ℕ) (calls : List (ClientToolCall V)) (s : Stuck)
      → stuck_calls enabled_tools stuck n calls ≡ some s
      → Stops s
  unfolding stuck_calls
  stuck_calls-Stops n [] s h = cc
  stuck_calls-Stops n (call ∷ rest) s h = elim (Bool-cases (contains_key call.name enabled_tools)) [
    | inl enabled ↦
        first_or_later n call (stuck n call) (stuck_calls enabled_tools stuck (n + 1) rest) s
          enabled refl (λ t found. stuck_calls-Stops (n + 1) rest t found) (rw (enabled) at h)
    | inr other ↦ stuck_calls-Stops (n + 1) rest s (rw (other) at h)
  ]
