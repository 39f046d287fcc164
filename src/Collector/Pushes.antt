-- ===== src/Collector/Pushes.antt =====
-- Runs of `push` in crates/chudbot-api/src/collector.rs that meet no error.
use mathlib.Core.Option
use mathlib.Core.List.{append-nil}
use chudbot.Common.{
  not, ◌&&◌, ◌≡◌, refl, sym, ap, inl, inr, Option, none, some, List, [], ◌∷◌, ◌++◌, arith,
  if◌then◌else◌, Bool-cases, Option-cases, Text, text_eq, text_eq_iff, text_key, lookup,
  lookup-insert, eq_of_some,
}
use chudbot.Model.{ModelStepDelta, ModelStepEvent}
use chudbot.Collector.{
  PendingKind, PendingItem, ReducerError, OutputSlot, collected, usage, pending, Collector, kind_eq,
  item_id, push_text, push_reasoning, push_call, Pushed, Updated, pending_slot, push_delta,
  push_event, push, is_some, is_finished,
}
use chudbot.Collector.Valid.{
  IsValid, push_text-Keeps, push_reasoning-Keeps, push_call-Keeps, kind_eq_eq,
}
use chudbot.Collector.Content.{
  content_at, delta_text, push_text-Grows, push_reasoning-Grows, push_call-Grows,
  pending_slot-content,
}

module _ {V : Type 0} where
  content_at-append_collected :
      (j : Text) (slots : List (OutputSlot V)) (s : OutputSlot V)
      → content_at j (s ∷ []) ≡ []
      → content_at j (slots ++ s ∷ []) ≡ content_at j slots ++ []
  unfolding content_at
  content_at-append_collected j [] s h = h
  content_at-append_collected j (collected _ ∷ rest) s h = content_at-append_collected j rest s h
  content_at-append_collected j (usage _ ∷ rest) s h = content_at-append_collected j rest s h
  content_at-append_collected j (pending q ∷ rest) s h = elim (Bool-cases (text_eq (item_id q) j)) [
    | inl here ↦ rw here (sym (append-nil _))
    | inr there ↦ rw there (content_at-append_collected j rest s h)
  ]

  slots_of :
      (a c' : Collector V) (x : Option ReducerError)
      → ◌≡◌ {A = Pushed V} (some (a, x)) (some (c', none))
      → a.slots ≡ c'.slots
  slots_of a c' x e = ap (λ (r : Collector V × Option ReducerError). r.0.slots) (eq_of_some e)

  push_event-content :
      (e : ModelStepEvent V) (c c' : Collector V)
      → IsValid c
      → push_event e c ≡ some (c', none)
      → (j : Text) → content_at j c'.slots ≡ content_at j c.slots ++ delta_text j e
  unfolding push_event delta_text content_at push_delta
  push_event-content (ModelStepEvent.delta (ModelStepDelta.text id d)) c c' v e j =
      pending_slot-content id (push_text id d) d (push_text-Keeps id d) (push_text-Grows id d)
        PendingKind.text c c' v e j
  push_event-content (ModelStepEvent.delta (ModelStepDelta.reasoning_summary id p k d)) c c' v e j =
      pending_slot-content id (push_reasoning id p k d) d (push_reasoning-Keeps id p k d)
        (push_reasoning-Grows id p k d) PendingKind.reasoning c c' v e j
  push_event-content (ModelStepEvent.delta (ModelStepDelta.client_tool_call key id n d)) c c' v e
        j =
      pending_slot-content key (push_call key id n d) d (push_call-Keeps key id n d)
        (push_call-Grows key id n d) PendingKind.client_tool_call c c' v e j
  push_event-content (ModelStepEvent.continuation _) c c' v e j =
      rw (← slots_of _ _ _ e) (content_at-append_collected j c.slots _ refl)
  push_event-content (ModelStepEvent.server_tool_use _) c c' v e j =
      rw (← slots_of _ _ _ e) (content_at-append_collected j c.slots _ refl)
  push_event-content (ModelStepEvent.grounding _) c c' v e j =
      rw (← slots_of _ _ _ e) (content_at-append_collected j c.slots _ refl)
  push_event-content (ModelStepEvent.usage _) c c' v e j =
      rw (← slots_of _ _ _ e) (content_at-append_collected j c.slots _ refl)
  push_event-content (ModelStepEvent.finished _ _) c c' v e j =
      rw (← slots_of _ _ _ e) (sym (append-nil _))

  -- A push that meets no error adds its delta to the text of its item, and no other text changes.
  pub push-content :
      (e : ModelStepEvent V) (c c' : Collector V)
      → IsValid c
      → push e c ≡ some (c', none)
      → (j : Text) → content_at j c'.slots ≡ content_at j c.slots ++ delta_text j e
  unfolding push
  push-content e c c' v h j = elim (Bool-cases (is_some c.finished && not (is_finished e))) [
    | inl late ↦ cc (rw late at h)
    | inr early ↦ push_event-content e c c' v (rw early at h) j
  ]

  -- The kind that a delta gives to the item with the key.
  unfoldable pub delta_kind : Text → ModelStepEvent V → Option PendingKind
  delta_kind key (ModelStepEvent.delta (ModelStepDelta.text id _)) =
      if text_eq id key then some PendingKind.text else none
  delta_kind key (ModelStepEvent.delta (ModelStepDelta.reasoning_summary id _ _ _)) =
      if text_eq id key then some PendingKind.reasoning else none
  delta_kind key (ModelStepEvent.delta (ModelStepDelta.client_tool_call id _ _ _)) =
      if text_eq id key then some PendingKind.client_tool_call else none
  delta_kind key _ = none

  -- Registered kinds stay, and the kind of the delta is registered.
  pub record Registers (c c' : Collector V) (j : Text) (added : Option PendingKind) : Type 0 where
    pub stays : (k : PendingKind) → lookup j c.ids ≡ some k → lookup j c'.ids ≡ some k
    pub comes : (k : PendingKind) → added ≡ some k → lookup j c'.ids ≡ some k

  ids_of :
      (a c' : Collector V) (x : Option ReducerError)
      → ◌≡◌ {A = Pushed V} (some (a, x)) (some (c', none))
      → a.ids ≡ c'.ids
  ids_of a c' x e = ap (λ (r : Collector V × Option ReducerError). r.0.ids) (eq_of_some e)

  pending_slot-Registers :
      (key : Text) (k : PendingKind) (f : PendingItem → Updated) (c c' : Collector V)
      → pending_slot key k f c ≡ some (c', none)
      → (j : Text) → Registers c c' j (if text_eq key j then some k else none)
  unfolding pending_slot
  pending_slot-Registers key k f c c' e j = elim (Option-cases (lookup key c.ids)) [
    | inl fresh ↦
        (let ids = ids_of _ c' _ (rw (fresh, pending_slot) at e) in
          record {
            stays = λ k' h.
                rw (← ids) (rw (lookup-insert key j k c.ids) (ground (arith, text_eq_iff key j)));
            comes = λ k' h. rw (← ids) (rw (lookup-insert key j k c.ids) (ground arith));
          })
    | inr (known, old) ↦ elim (Bool-cases (kind_eq known k)) [
      | inl same ↦
          (let (a, found, eq) =
              (Option.map-eq-some_iff _ _).0 (rw same at (rw (old, pending_slot) at e)) in
            let ids = ap (λ (r : Collector V × Option ReducerError). r.0.ids) eq in
            record {
              stays = λ k' h. rw (← ids) h;
              comes = λ k' h. rw (← ids) (ground (arith, text_eq_iff key j, kind_eq_eq known k));
            })
      | inr other ↦
          (let bad = rw other at (rw (old, pending_slot) at e) in
            cc (ap (λ (r : Collector V × Option ReducerError). r.1) (eq_of_some bad)))
    ]
  ]

  -- An event that leaves the ids alone.
  keeps_ids : (c c' : Collector V) (j : Text) → c.ids ≡ c'.ids → Registers c c' j none
  keeps_ids c c' j e = record { stays = λ k h. rw (← e) h; comes = λ k h. cc }

  push_event-Registers :
      (e : ModelStepEvent V) (c c' : Collector V)
      → push_event e c ≡ some (c', none)
      → (j : Text) → Registers c c' j (delta_kind j e)
  unfolding push_event push_delta delta_kind
  push_event-Registers (ModelStepEvent.delta (ModelStepDelta.text id d)) c c' e j =
      pending_slot-Registers id PendingKind.text (push_text id d) c c' e j
  push_event-Registers (ModelStepEvent.delta (ModelStepDelta.reasoning_summary id p k d)) c c' e j =
      pending_slot-Registers id PendingKind.reasoning (push_reasoning id p k d) c c' e j
  push_event-Registers (ModelStepEvent.delta (ModelStepDelta.client_tool_call key id n d)) c c' e
        j =
      pending_slot-Registers key PendingKind.client_tool_call (push_call key id n d) c c' e j
  push_event-Registers (ModelStepEvent.continuation _) c c' e j = keeps_ids c c' j (ids_of _ _ _ e)
  push_event-Registers (ModelStepEvent.server_tool_use _) c c' e j =
      keeps_ids c c' j (ids_of _ _ _ e)
  push_event-Registers (ModelStepEvent.grounding _) c c' e j = keeps_ids c c' j (ids_of _ _ _ e)
  push_event-Registers (ModelStepEvent.usage _) c c' e j = keeps_ids c c' j (ids_of _ _ _ e)
  push_event-Registers (ModelStepEvent.finished _ _) c c' e j = keeps_ids c c' j (ids_of _ _ _ e)

  pub push-Registers :
      (e : ModelStepEvent V) (c c' : Collector V)
      → push e c ≡ some (c', none)
      → (j : Text) → Registers c c' j (delta_kind j e)
  unfolding push
  push-Registers e c c' h j = elim (Bool-cases (is_some c.finished && not (is_finished e))) [
    | inl late ↦ cc (rw late at h)
    | inr early ↦ push_event-Registers e c c' (rw early at h) j
  ]
