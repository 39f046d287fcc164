-- ===== src/Collector/Last.antt =====
-- The place of the `finished` event in a stream that crates/chudbot-api/src/collector.rs accepts.
use mathlib.Core.Option
use chudbot.Common.{
  ◌≢◌, Bool-cases, Option-cases, inl, inr, eq_of_some, ◌&&◌, not, true, false, ◌≡◌, refl, sym, ap,
  ◌∙◌, Option, none, some, List, [], ◌∷◌, ◌++◌, map, arith, Text, text_key, lookup, All,
}
use chudbot.Model.{ModelStepDelta, ModelStepEvent, ModelStepKind, ModelStep}
use chudbot.Collector.{
  PendingKind, PendingItem, ReducerError, Updated, pending_slot, kind_eq, push_delta, push_text,
  push_reasoning, push_call, Collector, Json, StreamItem, Collected, Pushed, push, push_event,
  collect_model_step, is_finished, is_some,
}
use chudbot.Collector.Stream.{Pushes, done, more}
use chudbot.Collector.Step.{accepted, finish-slots}

module _ {V : Type 0} where
  finished_of :
      (a c' : Collector V) (x : Option ReducerError)
      → ◌≡◌ {A = Pushed V} (some (a, x)) (some (c', none))
      → a.finished ≡ c'.finished
  finished_of a c' x e = ap (λ (r : Collector V × Option ReducerError). r.0.finished) (eq_of_some e)

  push_finished :
      (e : ModelStepEvent V) (c c' : Collector V)
      → is_some c.finished ≡ true
      → push e c ≢ some (c', none)
  unfolding push
  push_finished (ModelStepEvent.delta d) c c' f h = cc (rw f at h)
  push_finished (ModelStepEvent.continuation d) c c' f h = cc (rw f at h)
  push_finished (ModelStepEvent.server_tool_use d) c c' f h = cc (rw f at h)
  push_finished (ModelStepEvent.grounding d) c c' f h = cc (rw f at h)
  push_finished (ModelStepEvent.usage d) c c' f h = cc (rw f at h)
  push_finished (ModelStepEvent.finished k m) c c' f h = ground arith

  pending_slot-finished :
      (key : Text) (k : PendingKind) (f : PendingItem → Updated) (c c' : Collector V)
      → pending_slot key k f c ≡ some (c', none)
      → c.finished ≡ c'.finished
  unfolding pending_slot
  pending_slot-finished key k f c c' h = elim (Option-cases (lookup key c.ids)) [
    | inl fresh ↦ finished_of _ c' _ (rw (fresh, pending_slot) at h)
    | inr (known, old) ↦ elim (Bool-cases (kind_eq known k)) [
      | inl same ↦
          (let (a, found, eq) =
              (Option.map-eq-some_iff _ _).0 (rw same at (rw (old, pending_slot) at h)) in
            ap (λ (r : Collector V × Option ReducerError). r.0.finished) eq)
      | inr other ↦ finished_of c c' _ (rw other at (rw (old, pending_slot) at h))
    ]
  ]

  push_event-finished :
      (e : ModelStepEvent V) (c c' : Collector V)
      → is_finished e ≡ false
      → push_event e c ≡ some (c', none)
      → c.finished ≡ c'.finished
  unfolding push_event push_delta
  push_event-finished (ModelStepEvent.delta (ModelStepDelta.text id d)) c c' f h =
      pending_slot-finished id PendingKind.text (push_text id d) c c' h
  push_event-finished (ModelStepEvent.delta (ModelStepDelta.reasoning_summary id p k d)) c c' f h =
      pending_slot-finished id PendingKind.reasoning (push_reasoning id p k d) c c' h
  push_event-finished (ModelStepEvent.delta (ModelStepDelta.client_tool_call key id n d)) c c' f h =
      pending_slot-finished key PendingKind.client_tool_call (push_call key id n d) c c' h
  push_event-finished (ModelStepEvent.continuation d) c c' f h = finished_of _ c' _ h
  push_event-finished (ModelStepEvent.server_tool_use d) c c' f h = finished_of _ c' _ h
  push_event-finished (ModelStepEvent.grounding d) c c' f h = finished_of _ c' _ h
  push_event-finished (ModelStepEvent.usage d) c c' f h = finished_of _ c' _ h
  push_event-finished (ModelStepEvent.finished k m) c c' f h = cc

  push-finished :
      (e : ModelStepEvent V) (c c' : Collector V)
      → is_finished e ≡ false
      → push e c ≡ some (c', none)
      → c.finished ≡ c'.finished
  unfolding push
  push-finished e c c' f h = elim (Bool-cases (is_some c.finished && not (is_finished e))) [
    | inl late ↦ finished_of c c' _ (rw late at h)
    | inr early ↦ push_event-finished e c c' f (rw early at h)
  ]

  -- The stream is events that do not finish the step, and one last event that does.
  pub record FinishesLast (es : List (ModelStepEvent V)) (kind : ModelStepKind) (model_id : Text)
      : Type 0 where
    pub before : List (ModelStepEvent V)
    pub split : es ≡ before ++ ModelStepEvent.finished kind model_id ∷ []
    pub unfinished : All (λ e. is_finished e ≡ false) before

  finish_here :
      (k : ModelStepKind) (m : Text) (c c' : Collector V)
      → push (ModelStepEvent.finished k m) c ≡ some (c', none)
      → c'.finished ≡ some (k, m)
  unfolding push
  finish_here k m c c' h = elim (Option-cases c.finished) [
    | inl no' ↦ sym (finished_of _ c' _ (rw no' at h))
    | inr (x, yes') ↦ cc (rw yes' at h)
  ]

  last_case :
      (e : ModelStepEvent V) (c c₁ : Collector V) {c₂ : Collector V} {es : List (ModelStepEvent V)}
      (kind : ModelStepKind) (m : Text)
      → push e c ≡ some (c₁, none)
      → is_finished e ≡ true
      → c₂.finished ≡ some (kind, m)
      → Pushes c₁ es c₂
      → FinishesLast (e ∷ es) kind m
  last_case (ModelStepEvent.finished k n) c c₁ kind m p h f' done =
      let now = finish_here k n c c₁ p in
      record { before = []; split = ground (arith, now, f'); unfinished = tt }
  last_case (ModelStepEvent.finished k n) c c₁ kind m p h f' (more {c' = c₃} {e} again rest) =
      absurd (push_finished e c₁ c₃ (let now = finish_here k n c c₁ p in rw now) again)
  last_case (ModelStepEvent.delta d) c c₁ kind m p h f' rest = cc
  last_case (ModelStepEvent.continuation d) c c₁ kind m p h f' rest = cc
  last_case (ModelStepEvent.server_tool_use d) c c₁ kind m p h f' rest = cc
  last_case (ModelStepEvent.grounding d) c c₁ kind m p h f' rest = cc
  last_case (ModelStepEvent.usage d) c c₁ kind m p h f' rest = cc

  finished_last :
      {c c' : Collector V} {es : List (ModelStepEvent V)} (kind : ModelStepKind) (m : Text)
      → c.finished ≡ none
      → c'.finished ≡ some (kind, m)
      → Pushes c es c'
      → FinishesLast es kind m
  finished_last kind m f f' done = cc
  finished_last kind m f f' (more {c} {c' = c₁} {e} {es} p rest) =
      elim (Bool-cases (is_finished e)) [
        | inl last ↦ last_case e c c₁ kind m p last f' rest
        | inr other ↦
            (let r = finished_last kind m (sym (push-finished e c c₁ other p) ∙ f) f' rest in
              record {
                before = e ∷ r.before;
                split = ap (λ l. e ∷ l) r.split;
                unfinished = (other, r.unfinished);
              })
      ]

-- A stream of events is collected into a step only if its last event, and no other, is `finished`;
-- the step's kind and model are that event's.
pub collect_model_step-FinishesLast :
    {V : Type 0} (E : Type 0) (parser : Json V) (es : List (ModelStepEvent V)) (s : ModelStep V)
    → collect_model_step {E = E} parser (map StreamItem.event es) ≡ Collected.step s
    → FinishesLast es s.kind s.output.model_id
collect_model_step-FinishesLast E parser es s h =
    let r = accepted E parser es s h in
    finished_last s.kind s.output.model_id refl (finish-slots parser r.final s r.finishes).0
      r.pushes
