-- ===== src/Collector/Content.antt =====
-- The text that the reducer of crates/chudbot-api/src/collector.rs gathers under an item id.
use mathlib.Core.Option
use mathlib.Core.List.{append-nil, append_assoc}
use chudbot.Common.{
  ◌≡◌, refl, sym, ap, ◌∙◌, inl, inr, Option, none, some, List, [], ◌∷◌, ◌++◌, arith, if◌then◌else◌,
  Bool-cases, Option-cases, Text, text_eq, text_eq_iff, text_key, lookup, insert, option_text_eq,
  eq_of_some,
}
use chudbot.Model.{ModelStepDelta, ModelStepEvent}
use chudbot.Collector.{
  PendingKind, PendingItem, PendingReasoningSummary, ReducerError, OutputSlot, collected, usage,
  pending, Collector, kind_eq, new, item_id, Updated, push_text, push_reasoning, push_summary,
  push_call, update_pending, pending_slot,
}
use chudbot.Collector.Valid.{kind_at, IsValid, Keeps, new_lem}

abbrev pub summary_text : List PendingReasoningSummary → Text
summary_text [] = []
summary_text (s ∷ rest) = s.text ++ summary_text rest

-- The text of an item: the answer text, the summaries joined, or the arguments of the call.
unfoldable pub content : PendingItem → Text
content (PendingItem.text _ t) = t
content (PendingItem.reasoning _ _ summaries) = summary_text summaries
content (PendingItem.client_tool_call _ _ _ arguments) = arguments

-- The text of the first pending slot with the key.
unfoldable pub content_at : {V : Type 0} → Text → List (OutputSlot V) → Text
content_at key [] = []
content_at key (collected _ ∷ rest) = content_at key rest
content_at key (usage _ ∷ rest) = content_at key rest
content_at key (pending p ∷ rest) =
    if text_eq (item_id p) key then content p else content_at key rest

-- The text that an event adds to the item with the key.
unfoldable pub delta_text : {V : Type 0} → Text → ModelStepEvent V → Text
delta_text key (ModelStepEvent.delta (ModelStepDelta.text id d)) = if text_eq id key then d else []
delta_text key (ModelStepEvent.delta (ModelStepDelta.reasoning_summary id _ _ d)) =
    if text_eq id key then d else []
delta_text key (ModelStepEvent.delta (ModelStepDelta.client_tool_call id _ _ d)) =
    if text_eq id key then d else []
delta_text key _ = []

-- A successful update appends the text to the item's.
abbrev pub Grows : (PendingItem → Updated) → Text → Type 0
Grows f d = (p : PendingItem) → (f p).1 ≡ none → content (f p).0 ≡ content p ++ d

pub push_text-Grows : (id d : Text) → Grows (push_text id d) d
unfolding push_text content
push_text-Grows id d (PendingItem.text _ _) h = refl
push_text-Grows id d (PendingItem.reasoning _ _ _) h = cc
push_text-Grows id d (PendingItem.client_tool_call _ _ _ _) h = cc

summary_text-push_summary :
    (k : Option Text) (d : Text) (l : List PendingReasoningSummary)
    → summary_text (push_summary k d l) ≡ summary_text l ++ d
unfolding push_summary
summary_text-push_summary k d [] = append-nil d
summary_text-push_summary k d (s ∷ []) = elim (Bool-cases (option_text_eq s.kind k)) [
  | inl same ↦ rw same (simp (append-nil, append_assoc))
  | inr other ↦ rw other (simp (append-nil, append_assoc))
]
summary_text-push_summary k d (s ∷ t ∷ rest) =
    rw (summary_text-push_summary k d (t ∷ rest)) (simp append_assoc)

pub push_reasoning-Grows :
    (id p : Text) (k : Option Text) (d : Text) → Grows (push_reasoning id p k d) d
unfolding push_reasoning content
push_reasoning-Grows id p k d (PendingItem.text _ _) h = cc
push_reasoning-Grows id p k d (PendingItem.reasoning i e s) h =
    ground (arith, summary_text-push_summary k d s)
push_reasoning-Grows id p k d (PendingItem.client_tool_call _ _ _ _) h = cc

pub push_call-Grows : (key id : Text) (n : Option Text) (d : Text) → Grows (push_call key id n d) d
unfolding push_call content
push_call-Grows key id n d (PendingItem.text _ _) h = cc
push_call-Grows key id n d (PendingItem.reasoning _ _ _) h = cc
push_call-Grows key id n d (PendingItem.client_tool_call i u m a) h = ground arith

new-content : (key : Text) (k : PendingKind) → content (new key k) ≡ []
unfolding new content
new-content key PendingKind.text = refl
new-content key PendingKind.reasoning = refl
new-content key PendingKind.client_tool_call = refl

-- What a delta for one key adds at another.
abbrev pub added : Text → Text → Text → Text
added key d j = if text_eq key j then d else []

module _ {V : Type 0} where
  pub content_at-append :
      (key : Text) (slots : List (OutputSlot V)) (s : OutputSlot V)
      → content_at key (slots ++ s ∷ []) ≡ (elim (kind_at key slots) [
        | none ↦ content_at key (s ∷ [])
        | some k ↦ content_at key slots
      ])
  unfolding kind_at content_at
  content_at-append key [] s = refl
  content_at-append key (collected _ ∷ rest) s = content_at-append key rest s
  content_at-append key (usage _ ∷ rest) s = content_at-append key rest s
  content_at-append key (pending q ∷ rest) s = ground (arith, content_at-append key rest s)

  pub content_at-none :
      (key : Text) (slots : List (OutputSlot V))
      → kind_at key slots ≡ none
      → content_at key slots ≡ []
  unfolding kind_at content_at
  content_at-none key [] h = refl
  content_at-none key (collected _ ∷ rest) h = content_at-none key rest h
  content_at-none key (usage _ ∷ rest) h = content_at-none key rest h
  content_at-none key (pending q ∷ rest) h = ground (arith, content_at-none key rest)

  module _ (key : Text) (f : PendingItem → Updated) (d : Text) (keep : Keeps f)
      (grow : Grows f d) where
    update_pending-content :
        (j : Text) (slots : List (OutputSlot V)) (r : List (OutputSlot V) × Option ReducerError)
        → update_pending key f slots ≡ some r
        → r.1 ≡ none
        → content_at j r.0 ≡ content_at j slots ++ added key d j
    unfolding update_pending content_at
    update_pending-content j [] r e h = cc
    update_pending-content j (collected _ ∷ rest) r e h =
        let (a, found, same) = (Option.map-eq-some_iff _ _).0 e in
        rw (← same) (update_pending-content j rest a found (rw (← same) at h))
    update_pending-content j (usage _ ∷ rest) r e h =
        let (a, found, same) = (Option.map-eq-some_iff _ _).0 e in
        rw (← same) (update_pending-content j rest a found (rw (← same) at h))
    update_pending-content j (pending p ∷ rest) r e h =
        elim (Bool-cases (text_eq (item_id p) key)) [
          | inl here ↦
              (let same : (pending (f p).0 ∷ rest, (f p).1) ≡ r = eq_of_some (rw here at e) in
                rw (← same) (
                  ground (
                    arith,
                    grow p (rw (← same) at h),
                    keep p,
                    text_eq_iff (item_id p) key,
                    text_eq_iff key j,
                    text_eq_iff (item_id p) j,
                    append-nil (content p),
                    append-nil (content_at j rest),
                  )))
          | inr there ↦
              (let (a, found, same) = (Option.map-eq-some_iff _ _).0 (rw there at e) in
                rw (← same) (
                  ground (
                    arith,
                    update_pending-content j rest a found (rw (← same) at h),
                    text_eq_iff (item_id p) key,
                    text_eq_iff key j,
                    text_eq_iff (item_id p) j,
                    append-nil (content p),
                  )))
        ]

    new_slot :
        (k : PendingKind) (j : Text) (slots : List (OutputSlot V))
        → kind_at key slots ≡ none
        → (f (new key k)).1 ≡ none
        → (elim (kind_at j slots) [
          | none ↦ content_at {V = V} j (pending (f (new key k)).0 ∷ [])
          | some _ ↦ content_at j slots
        ])
          ≡ content_at j slots ++ added key d j
    unfolding content_at
    new_slot k j slots fresh good = ground (
      arith,
      grow (new key k) good,
      keep (new key k),
      new_lem key k,
      new-content key k,
      text_eq_iff key j,
      content_at-none j slots,
      append-nil (content_at j slots),
    )

    pub pending_slot-content :
        (k : PendingKind) (c c' : Collector V)
        → IsValid c
        → pending_slot key k f c ≡ some (c', none)
        → (j : Text) → content_at j c'.slots ≡ content_at j c.slots ++ added key d j
    unfolding pending_slot
    pending_slot-content k c c' v e j = elim (Option-cases (lookup key c.ids)) [
      | inl fresh ↦
          (let same : ◌≡◌ {A = Collector V × Option ReducerError}
                (
                  record c {
                    ids = insert key k c.ids;
                    slots = c.slots ++ pending (f (new key k)).0 ∷ [];
                  },
                  (f (new key k)).1,
                )
                (c', none) =
              eq_of_some (rw (fresh, pending_slot) at e) in
            let slots = ap (λ (r : Collector V × Option ReducerError). r.0.slots) same in
            let good = ap (λ (r : Collector V × Option ReducerError). r.1) same in
            rw (← slots) (
              rw (content_at-append j c.slots (pending (f (new key k)).0))
                (new_slot k j c.slots (sym (v.registered key) ∙ fresh) good)))
      | inr (known, old) ↦ elim (Bool-cases (kind_eq known k)) [
        | inl same ↦
            (let (a, found, eq) =
                (Option.map-eq-some_iff _ _).0 (rw same at (rw (old, pending_slot) at e)) in
              let slots = ap (λ (r : Collector V × Option ReducerError). r.0.slots) eq in
              let good = ap (λ (r : Collector V × Option ReducerError). r.1) eq in
              rw (← slots) (update_pending-content j c.slots a found good))
        | inr other ↦
            (let bad = rw other at (rw (old, pending_slot) at e) in
              cc (ap (λ (r : Collector V × Option ReducerError). r.1) (eq_of_some bad)))
      ]
    ]
