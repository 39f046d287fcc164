-- ===== src/Collector/Stream.antt =====
-- What `collect_model_step` of crates/chudbot-api/src/collector.rs returns for a whole stream.
use mathlib.Core.List.{append-nil, append_assoc, Memᴰ}
use mathlib.Core.List.Memᴰ
use chudbot.Common.{
  ◌≢◌, ◌≡◌, refl, sym, ap, ◌∙◌, inl, inr, Option, none, some, List, [], ◌∷◌, ◌++◌, map, arith, Text,
  text_key, lookup, eq_of_some,
}
use chudbot.Model.{ModelStepEvent, ModelStep}
use chudbot.Collector.{
  PendingKind, ReducerError, Collector, Json, ok, StreamItem, Collected, push, finish, collect_from,
}
use chudbot.Collector.Valid.{IsValid, push-IsValid}
use chudbot.Collector.Content.{content_at, delta_text}
use chudbot.Collector.Pushes.{push-content, push-Registers, delta_kind}

-- The events were pushed one after the other, and none met an error.
pub data Pushes {V : Type 0} : Collector V → List (ModelStepEvent V) → Collector V → Type 0 where
  done : {c : Collector V} → Pushes c [] c
  more :
      {c c' c'' : Collector V} {e : ModelStepEvent V} {es : List (ModelStepEvent V)}
      → push e c ≡ some (c', none)
      → Pushes c' es c''
      → Pushes c (e ∷ es) c''

-- The text that a stream carries for the item with the key.
abbrev pub delta_texts : {V : Type 0} → Text → List (ModelStepEvent V) → Text
delta_texts key [] = []
delta_texts key (e ∷ es) = delta_text key e ++ delta_texts key es

module _ {V E : Type 0} (parser : Json V) where
  -- A collected step comes from a stream of events alone, pushed without error, then finished.
  pub record Accepted (c : Collector V) (items : List (StreamItem V E)) (s : ModelStep V)
      : Type 0 where
    pub events : List (ModelStepEvent V)
    pub final : Collector V
    pub only_events : items ≡ map StreamItem.event events
    pub pushes : Pushes c events final
    pub finishes : finish parser final ≡ ok s

  Accepted-next :
      (e : ModelStepEvent V) (rest : List (StreamItem V E)) (c : Collector V) (s : ModelStep V)
      (r : Collector V × Option ReducerError)
      → push e c ≡ some r
      → collect_from parser c (StreamItem.event e ∷ rest) ≡ Collected.step s
      → (collect_from parser r.0 rest ≡ Collected.step s → Accepted r.0 rest s)
      → Accepted c (StreamItem.event e ∷ rest) s
  unfolding collect_from
  Accepted-next e rest c s (c', none) pushed h ih =
      let a = ih (rw (pushed, collect_from) at h) in
      record {
        events = e ∷ a.events;
        final = a.final;
        only_events = ap (λ l. StreamItem.event e ∷ l) a.only_events;
        pushes = more pushed a.pushes;
        finishes = a.finishes;
      }
  Accepted-next e rest c s (c', some x) pushed h ih = cc (rw (pushed, collect_from) at h)

  pub collect_from-Accepted :
      (items : List (StreamItem V E)) (c : Collector V) (s : ModelStep V)
      → IsValid c
      → collect_from parser c items ≡ Collected.step s
      → Accepted c items s
  unfolding collect_from
  collect_from-Accepted [] c s v h = record {
    events = [];
    final = c;
    only_events = refl;
    pushes = done;
    finishes = ground arith;
  }
  collect_from-Accepted (StreamItem.failed e ∷ rest) c s v h = cc
  collect_from-Accepted (StreamItem.event e ∷ rest) c s v h =
      let (r, pushed, v') = push-IsValid e c v in
      Accepted-next e rest c s r pushed h (collect_from-Accepted rest r.0 s v')

  panics_next :
      (e : ModelStepEvent V) (rest : List (StreamItem V E)) (c : Collector V)
      (r : Collector V × Option ReducerError)
      → push e c ≡ some r
      → collect_from parser c (StreamItem.event e ∷ rest) ≡ Collected.panicked
      → (collect_from parser r.0 rest ≢ Collected.panicked)
      → ⊥
  unfolding collect_from
  panics_next e rest c (c', none) pushed h ih = ih (rw (pushed, collect_from) at h)
  panics_next e rest c (c', some x) pushed h ih = cc (rw (pushed, collect_from) at h)

  -- No reducer state that the stream reaches makes the collection panic.
  pub never_panics :
      (items : List (StreamItem V E)) (c : Collector V)
      → IsValid c
      → collect_from parser c items ≢ Collected.panicked
  unfolding collect_from
  never_panics [] c v h = ground arith
  never_panics (StreamItem.failed e ∷ rest) c v h = cc
  never_panics (StreamItem.event e ∷ rest) c v h =
      let (r, pushed, v') = push-IsValid e c v in
      panics_next e rest c r pushed h (never_panics rest r.0 v')

module _ {V : Type 0} where
  -- From a valid state, what a run gathers and registers.
  pub record Gathers (c c' : Collector V) (es : List (ModelStepEvent V)) : Type 0 where
    pub valid : IsValid c'
    pub content : (j : Text) → content_at j c'.slots ≡ content_at j c.slots ++ delta_texts j es
    pub stays : (j : Text) (k : PendingKind) → lookup j c.ids ≡ some k → lookup j c'.ids ≡ some k
    pub comes :
        (j : Text) (k : PendingKind) (e : ModelStepEvent V)
        → Memᴰ e es
        → delta_kind j e ≡ some k
        → lookup j c'.ids ≡ some k

  IsValid-next :
      (e : ModelStepEvent V) (c c' : Collector V)
      → IsValid c
      → push e c ≡ some (c', none)
      → IsValid c'
  IsValid-next e c c' v p =
      let (r, pushed, v') = push-IsValid e c v in
      let same : r ≡ (c', none) = eq_of_some (sym pushed ∙ p) in
      rw (ap (λ (x : Collector V × Option ReducerError). x.0) same) at v'

  pub Pushes-Gathers :
      {c c' : Collector V} {es : List (ModelStepEvent V)}
      → IsValid c
      → Pushes c es c'
      → Gathers c c' es
  Pushes-Gathers v done = record {
    valid = v;
    content = λ j. sym (append-nil _);
    stays = λ j k h. h;
    comes = λ j k e m h. elim m [ ];
  }
  Pushes-Gathers v (more {c} {c' = c₁} {c'' = c₂} {e} {es} p rest) =
      let g = Pushes-Gathers (IsValid-next e c c₁ v p) rest in
      let now = push-Registers e c c₁ p in
      record {
        valid = g.valid;
        content = λ j.
            rw (g.content j, push-content e c c₁ v p j)
              (append_assoc (content_at j c.slots) (delta_text j e) (delta_texts j es));
        stays = λ j k h. g.stays j k ((now j).stays k h);
        comes = λ j k x m h. elim (Memᴰ.cases_cons m) [
          | inl here ↦ g.stays j k ((now j).comes k (rw here at h))
          | inr later ↦ g.comes j k x later h
        ];
      }
