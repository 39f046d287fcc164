-- ===== src/Collector/Valid.antt =====
-- The invariant of the reducer in crates/chudbot-api/src/collector.rs: `ids` names exactly the
-- pending slots, so that the `expect` of `pending_slot` never fails.
use chudbot.Common.{
  not, ◌&&◌, true, ◌≡◌, refl, sym, ◌∙◌, inl, inr, Option, none, some, List, [], ◌∷◌, ◌++◌, arith,
  if◌then◌else◌, Bool-cases, Option-cases, Text, text_eq, text_eq_iff, text_key, lookup, insert,
  lookup-insert,
}
use chudbot.Model.{ModelStepDelta, ModelStepEvent}
use chudbot.Collector.{
  PendingKind, PendingItem, ReducerError, OutputSlot, collected, usage, pending, Collector, kind_eq,
  new, item_id, kind_of, Updated, push_text, push_reasoning, push_call, update_pending,
  pending_slot, push_delta, push_event, push, empty, is_some, is_finished,
}

-- The kind of the first pending slot with the key.
unfoldable pub kind_at : {V : Type 0} → Text → List (OutputSlot V) → Option PendingKind
kind_at key [] = none
kind_at key (collected _ ∷ rest) = kind_at key rest
kind_at key (usage _ ∷ rest) = kind_at key rest
kind_at key (pending p ∷ rest) =
    if text_eq (item_id p) key then some (kind_of p) else kind_at key rest

-- Every item id is registered exactly with the kind of its pending slot.
pub record IsValid {V : Type 0} (c : Collector V) : Type 0 where
  pub registered : (key : Text) → lookup key c.ids ≡ kind_at key c.slots

-- An update that leaves the id and the kind of every item alone.
abbrev pub Keeps : (PendingItem → Updated) → Type 0
Keeps f = (p : PendingItem) → (item_id (f p).0 ≡ item_id p) × (kind_of (f p).0 ≡ kind_of p)

pub push_text-Keeps : (id d : Text) → Keeps (push_text id d)
unfolding push_text item_id kind_of
push_text-Keeps id d (PendingItem.text _ _) = (refl, refl)
push_text-Keeps id d (PendingItem.reasoning _ _ _) = (refl, refl)
push_text-Keeps id d (PendingItem.client_tool_call _ _ _ _) = (refl, refl)

pub push_reasoning-Keeps :
    (id p : Text) (k : Option Text) (d : Text) → Keeps (push_reasoning id p k d)
unfolding push_reasoning item_id kind_of
push_reasoning-Keeps id p k d (PendingItem.text _ _) = (refl, refl)
push_reasoning-Keeps id p k d (PendingItem.reasoning _ _ _) = ground arith
push_reasoning-Keeps id p k d (PendingItem.client_tool_call _ _ _ _) = (refl, refl)

pub push_call-Keeps : (key id : Text) (n : Option Text) (d : Text) → Keeps (push_call key id n d)
unfolding push_call item_id kind_of
push_call-Keeps key id n d (PendingItem.text _ _) = (refl, refl)
push_call-Keeps key id n d (PendingItem.reasoning _ _ _) = (refl, refl)
push_call-Keeps key id n d (PendingItem.client_tool_call _ _ _ _) = ground arith

pub new_lem :
    (key : Text) (k : PendingKind) → (item_id (new key k) ≡ key) × (kind_of (new key k) ≡ k)
unfolding new item_id kind_of
new_lem key PendingKind.text = (refl, refl)
new_lem key PendingKind.reasoning = (refl, refl)
new_lem key PendingKind.client_tool_call = (refl, refl)

pub kind_eq_eq : (a b : PendingKind) → kind_eq a b ≡ true → a ≡ b
kind_eq_eq a b h = ground arith

module _ {V : Type 0} where
  kind_at-append :
      (key : Text) (slots : List (OutputSlot V)) (p : PendingItem)
      → kind_at key (slots ++ pending p ∷ []) ≡ (elim (kind_at key slots) [
        | none ↦ if text_eq (item_id p) key then some (kind_of p) else none
        | some k ↦ some k
      ])
  unfolding kind_at
  kind_at-append key [] p = refl
  kind_at-append key (collected _ ∷ rest) p = kind_at-append key rest p
  kind_at-append key (usage _ ∷ rest) p = kind_at-append key rest p
  kind_at-append key (pending q ∷ rest) p = ground (arith, kind_at-append key rest p)

  pub kind_at-append_collected :
      (key : Text) (slots : List (OutputSlot V)) (s : OutputSlot V)
      → kind_at key (s ∷ []) ≡ none
      → kind_at key (slots ++ s ∷ []) ≡ kind_at key slots
  unfolding kind_at
  kind_at-append_collected key [] s h = h
  kind_at-append_collected key (collected _ ∷ rest) s h = kind_at-append_collected key rest s h
  kind_at-append_collected key (usage _ ∷ rest) s h = kind_at-append_collected key rest s h
  kind_at-append_collected key (pending q ∷ rest) s h =
      ground (arith, kind_at-append_collected key rest s h)

  -- A registered slot is found, and its update changes no slot's kind.
  pub record Updates (key : Text) (f : PendingItem → Updated) (slots : List (OutputSlot V))
      : Type 0 where
    pub result : List (OutputSlot V) × Option ReducerError
    pub found : update_pending key f slots ≡ some result
    pub same_kinds : (j : Text) → kind_at j result.0 ≡ kind_at j slots

  pub update_pending-Updates :
      (key : Text) (f : PendingItem → Updated) (slots : List (OutputSlot V)) (k : PendingKind)
      → Keeps f
      → kind_at key slots ≡ some k
      → Updates key f slots
  unfolding kind_at update_pending
  update_pending-Updates key f [] k keep h = cc
  update_pending-Updates key f (collected i ∷ rest) k keep h =
      let r = update_pending-Updates key f rest k keep h in
      record {
        result = (collected i ∷ r.result.0, r.result.1);
        found = rw r.found;
        same_kinds = r.same_kinds;
      }
  update_pending-Updates key f (usage u ∷ rest) k keep h =
      let r = update_pending-Updates key f rest k keep h in
      record {
        result = (usage u ∷ r.result.0, r.result.1);
        found = rw r.found;
        same_kinds = r.same_kinds;
      }
  update_pending-Updates key f (pending p ∷ rest) k keep h =
      elim (Bool-cases (text_eq (item_id p) key)) [
        | inl here ↦ record {
          result = (pending (f p).0 ∷ rest, (f p).1);
          found = rw here;
          same_kinds = λ j. rw ((keep p).0, (keep p).1);
        }
        | inr there ↦
            let r = update_pending-Updates key f rest k keep (ground arith) in
            record {
              result = (pending p ∷ r.result.0, r.result.1);
              found = rw there (rw r.found);
              same_kinds = λ j. ground (arith, r.same_kinds j);
            }
      ]

  push_step :
      (key : Text) (k : PendingKind) (f : PendingItem → Updated) (c : Collector V)
      → Keeps f
      → IsValid c
      → (r : Collector V × Option ReducerError) × (pending_slot key k f c ≡ some r) × IsValid r.0
  unfolding pending_slot
  push_step key k f c keep v = elim (Option-cases (lookup key c.ids)) [
    | inl fresh ↦ (
      (
        record c { ids = insert key k c.ids; slots = c.slots ++ pending (f (new key k)).0 ∷ [] },
        (f (new key k)).1,
      ),
      rw (fresh, pending_slot),
      record {
        registered = λ j. rw (lookup-insert key j k c.ids) ground (
          arith,
          kind_at-append j c.slots (f (new key k)).0,
          keep (new key k),
          new_lem key k,
          text_eq_iff key j,
          v.registered j,
          fresh,
        );
      },
    )
    | inr (known, old) ↦ elim (Bool-cases (kind_eq known k)) [
      | inl same ↦
          let u = update_pending-Updates key f c.slots known keep (sym (v.registered key) ∙ old) in
          (
            (record c { slots = u.result.0 }, u.result.1),
            rw (old, pending_slot) (rw same (rw u.found)),
            record { registered = λ j. v.registered j ∙ sym (u.same_kinds j) },
          )
      | inr other ↦
          ((c, some (ReducerError.inconsistent_item_id key)), rw (old, pending_slot) (rw other), v)
    ]
  ]

  push_append :
      (s : OutputSlot V) (c : Collector V)
      → ((j : Text) → kind_at j (s ∷ []) ≡ none)
      → IsValid c
      → IsValid (record c { slots = c.slots ++ s ∷ [] })
  push_append s c h v = record {
    registered = λ j. v.registered j ∙ sym (kind_at-append_collected j c.slots s (h j));
  }

  push_delta_lem :
      (d : ModelStepDelta) (c : Collector V)
      → IsValid c
      → (r : Collector V × Option ReducerError) × (push_delta d c ≡ some r) × IsValid r.0
  unfolding push_delta
  push_delta_lem (ModelStepDelta.text id d) c v =
      push_step id PendingKind.text (push_text id d) c (push_text-Keeps id d) v
  push_delta_lem (ModelStepDelta.reasoning_summary id p k d) c v =
      push_step id PendingKind.reasoning (push_reasoning id p k d) c (push_reasoning-Keeps id p k d)
        v
  push_delta_lem (ModelStepDelta.client_tool_call key id n d) c v =
      push_step key PendingKind.client_tool_call (push_call key id n d) c
        (push_call-Keeps key id n d) v

  push_event_lem :
      (e : ModelStepEvent V) (c : Collector V)
      → IsValid c
      → (r : Collector V × Option ReducerError) × (push_event e c ≡ some r) × IsValid r.0
  unfolding push_event kind_at
  push_event_lem (ModelStepEvent.delta d) c v = push_delta_lem d c v
  push_event_lem (ModelStepEvent.continuation p) c v = (_, refl, push_append _ c (λ j. refl) v)
  push_event_lem (ModelStepEvent.server_tool_use t) c v = (_, refl, push_append _ c (λ j. refl) v)
  push_event_lem (ModelStepEvent.grounding m) c v = (_, refl, push_append _ c (λ j. refl) v)
  push_event_lem (ModelStepEvent.usage u) c v = (_, refl, push_append _ c (λ j. refl) v)
  push_event_lem (ModelStepEvent.finished k m) c v = (_, refl, record { registered = v.registered })

-- From a state that registers its pending slots, a push of any event returns (the lookup of the
-- registered slot never panics), with or without an error, and leaves such a state.
pub push-IsValid :
    {V : Type 0} (e : ModelStepEvent V) (c : Collector V)
    → IsValid c
    → (r : Collector V × Option ReducerError) × (push e c ≡ some r) × IsValid r.0
unfolding push
push-IsValid e c v = elim (Bool-cases (is_some c.finished && not (is_finished e))) [
  | inl late ↦ ((c, some ReducerError.event_after_finished), rw late, v)
  | inr open' ↦ rw open' (push_event_lem e c v)
]

pub empty-IsValid : {V : Type 0} → IsValid (empty {V = V})
unfolding lookup kind_at
empty-IsValid = record { registered = λ j. refl }
