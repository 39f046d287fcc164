-- ===== src/Agent/Tools/Laws.antt =====
-- The laws of tool surfaces and tool calls in crates/chudbot-api/src/agent.rs.
use chudbot.Common.{
  ℕ, ◌+◌, Bool, true, false, ◌&&◌, ◌≡◌, refl, ap, ◌∙◌, Option, none, some, List, [], ◌∷◌, ◌++◌, map,
  arith, if◌then◌else◌, any, select, Text, text_eq, text_eq_iff, text_key, lookup, contains_key,
  All, Bool-cases, inl, inr, Option-cases,
}
use chudbot.Model.{ClientToolCall}
use chudbot.Agent.{Values, AgentSpec, ClientToolDefinition}
use chudbot.Agent.Tools.{
  contains, normalized_server_tools, enabled_server_tools, tool_specs, tool_specs_from,
  enabled_tool_specs, Executed, Completed, call_client_tool, execute_client_tool_calls,
}

contains-select :
    (p : Text → Bool) (t : Text) (l : List Text) → contains t (select p l) ≡ (contains t l && p t)
contains-select p t [] = refl
contains-select p t (x ∷ l) = ground (arith, text_eq_iff t x, contains-select p t l)

-- With an agent's allowlist, the server tools of a run are those that are in the model's set and in
-- the agent's, both normalised; without one they are the model's.
pub contains-enabled_server_tools :
    (model_tools agent_tools : List Text) (tool : Text)
    → (contains tool (enabled_server_tools model_tools (some agent_tools)) ≡ (
        contains tool (enabled_server_tools model_tools none)
        && contains tool (normalized_server_tools agent_tools)))
unfolding enabled_server_tools
contains-enabled_server_tools model_tools agent_tools tool =
    contains-select (λ t. contains t (normalized_server_tools agent_tools)) tool
      (normalized_server_tools model_tools)

-- The first definition of a name.
abbrev pub first_definition : {S : Type 0} → Text → List (ClientToolDefinition S) → Option S
first_definition name [] = none
first_definition name (d ∷ rest) =
    if text_eq d.name name then some d.spec else first_definition name rest

module _ {S : Type 0} where
  abbrev or_else : Option S → Option S → Option S
  or_else none o = o
  or_else (some s) o = some s

  lookup-snoc :
      (name key : Text) (s : S) (specs : List (Text × S))
      → lookup name (specs ++ (key, s) ∷ [])
        ≡ or_else (lookup name specs) (if text_eq key name then some s else none)
  unfolding lookup
  lookup-snoc name key s [] = refl
  lookup-snoc name key s ((k, v) ∷ specs) = ground (arith, lookup-snoc name key s specs)

  added :
      (same : Bool) (o : Option S) (s : S) (later : Option S)
      → or_else (or_else o (if same then some s else none)) later
        ≡ or_else o (if same then some s else later)
  added true none s later = refl
  added false none s later = refl
  added true (some _) s later = refl
  added false (some _) s later = refl

  abbrev with_definition : ClientToolDefinition S → List (Text × S) → List (Text × S)
  with_definition d specs =
      if contains_key d.name specs then specs else specs ++ (d.name, d.spec) ∷ []

  lookup-with_definition :
      (name : Text) (d : ClientToolDefinition S) (specs : List (Text × S))
      → lookup name (with_definition d specs)
        ≡ or_else (lookup name specs) (if text_eq d.name name then some d.spec else none)
  lookup-with_definition name d specs = ground (
    arith,
    Option-cases (lookup d.name specs),
    Option-cases (lookup name specs),
    text_eq_iff d.name name,
    lookup-snoc name d.name d.spec specs,
  )

  lookup-tool_specs_from :
      (name : Text) (definitions : List (ClientToolDefinition S)) (specs : List (Text × S))
      → lookup name (tool_specs_from specs definitions)
        ≡ or_else (lookup name specs) (first_definition name definitions)
  unfolding tool_specs_from
  lookup-tool_specs_from name [] specs = ground arith
  lookup-tool_specs_from name (d ∷ rest) specs =
      lookup-tool_specs_from name rest (with_definition d specs)
      ∙ (ap (λ o. or_else o (first_definition name rest)) (lookup-with_definition name d specs)
          ∙ added (text_eq d.name name) (lookup name specs) d.spec (first_definition name rest))

  lookup-tool_specs :
      (name : Text) (definitions : List (ClientToolDefinition S))
      → lookup name (tool_specs definitions) ≡ first_definition name definitions
  unfolding tool_specs lookup
  lookup-tool_specs name definitions = lookup-tool_specs_from name definitions []

  lookup-select :
      (p : Text → Bool) (name : Text) (specs : List (Text × S))
      → lookup name (select (λ (t : Text × S). p t.0) specs)
        ≡ (if p name then lookup name specs else none)
  unfolding lookup
  lookup-select p name [] = ground arith
  lookup-select p name ((k, v) ∷ specs) =
      ground (arith, text_eq_iff k name, lookup-select p name specs)

  -- The tools that the model sees: of each name the executor's first definition, unless the spec
  -- has an allowlist without that name.
  pub lookup-enabled_tool_specs :
      (spec : AgentSpec) (definitions : List (ClientToolDefinition S)) (name : Text)
      → lookup name (enabled_tool_specs spec definitions) ≡ (elim spec.client_tools [
        | none ↦ first_definition name definitions
        | some enabled ↦
            if any (λ e. text_eq e name) enabled then first_definition name definitions else none
      ])
  unfolding enabled_tool_specs
  lookup-enabled_tool_specs spec definitions name = elim (Option-cases spec.client_tools) [
    | inl e ↦ rw e (lookup-tool_specs name definitions)
    | inr (enabled, e) ↦ rw e (
        rw
          (
            lookup-select (λ n. any (λ t. text_eq t n) enabled) name (tool_specs definitions),
            lookup-tool_specs name definitions,
          )
          refl)
  ]

module _ {V M S X : Type 0} (values : Values V) (show : X → Text)
    (enabled_tools : List (Text × S)) where
  -- One result for each call, in the order of the calls, under the id of its call and with the same
  -- error flag and content as its trace.
  pub execute_client_tool_calls_order :
      (execute : ℕ → ClientToolCall V → Executed V M X) (n : ℕ) (calls : List (ClientToolCall V))
      → (map
            (λ (c : Completed V M). c.1.call)
            (execute_client_tool_calls values show enabled_tools execute n calls)
          ≡ calls)
        × All
            (λ (c : Completed V M). (c.0 ≡ c.1.result) × (c.0.tool_use_id ≡ c.1.call.id))
            (execute_client_tool_calls values show enabled_tools execute n calls)
  unfolding execute_client_tool_calls
  execute_client_tool_calls_order execute n [] = (refl, tt)
  execute_client_tool_calls_order execute n (call ∷ rest) =
      let (calls, all) = execute_client_tool_calls_order execute (n + 1) rest in
      (ap (λ l. call ∷ l) calls, ((refl, refl), all))

  call_client_tool_enabled :
      (f g : ℕ → ClientToolCall V → Executed V M X) (n : ℕ) (call : ClientToolCall V)
      → (contains_key call.name enabled_tools ≡ true → f n call ≡ g n call)
      → call_client_tool values show enabled_tools f n call
        ≡ call_client_tool values show enabled_tools g n call
  unfolding call_client_tool
  call_client_tool_enabled f g n call same =
      elim (Bool-cases (contains_key call.name enabled_tools)) [
        | inl h ↦ rw h (same h)
        | inr h ↦ rw h refl
      ]

  -- Two executors that agree on the enabled tools give the same results: a call of a tool that is
  -- not enabled never reaches the executor.
  pub execute_client_tool_calls_enabled :
      (f g : ℕ → ClientToolCall V → Executed V M X)
      → ((n : ℕ) (call : ClientToolCall V)
          → contains_key call.name enabled_tools ≡ true
          → f n call ≡ g n call)
      → (n : ℕ) (calls : List (ClientToolCall V))
      → execute_client_tool_calls values show enabled_tools f n calls
        ≡ execute_client_tool_calls values show enabled_tools g n calls
  unfolding execute_client_tool_calls
  execute_client_tool_calls_enabled f g same n [] = refl
  execute_client_tool_calls_enabled f g same n (call ∷ rest) =
      let first : call_client_tool values show enabled_tools f n call
          ≡ call_client_tool values show enabled_tools g n call =
        call_client_tool_enabled f g n call (same n call) in
      rw (first, execute_client_tool_calls_enabled f g same (n + 1) rest) refl
