-- ===== src/Collector/Step.antt =====
-- The collected step of crates/chudbot-api/src/collector.rs in terms of the stream's events.
use mathlib.Core.List.{Memᴰ}
use mathlib.Core.List.Memᴰ
use chudbot.Common.{
  ◌≡◌, refl, sym, inl, inr, some, List, [], ◌∷◌, ◌++◌, map, arith, Bool-cases, Option-cases, Text,
  text_eq, text_key, eq_of_some,
}
use chudbot.Model.{ModelStepEvent, ModelStep, ModelStepItem, ModelStepOutput}
use chudbot.Collector.{
  PendingKind, PendingItem, OutputSlot, collected, usage, pending, Collector, Json, ok, StreamItem,
  Collected, finish, finish_item, finish_slots, collect_model_step, empty, first_succeeds, item_id,
  kind_of,
}
use chudbot.Collector.Valid.{kind_at, empty-IsValid}
use chudbot.Collector.Content.{content, content_at}
use chudbot.Collector.Stream.{Pushes, collect_from-Accepted}

module _ {V : Type 0} (parser : Json V) where
  -- What is in the output stays there.
  finish_slots-keeps :
      (slots : List (OutputSlot V)) (o out : ModelStepOutput V) (x : ModelStepItem V)
      → finish_slots parser slots o ≡ ok out
      → Memᴰ x o.items
      → Memᴰ x out.items
  unfolding finish_slots
  finish_slots-keeps [] o out x h m = let same : o ≡ out = ground arith in rw same at m
  finish_slots-keeps (collected i ∷ rest) o out x h m =
      finish_slots-keeps rest (record o { items = o.items ++ i ∷ [] }) out x h
        (Memᴰ.append_left (i ∷ []) m)
  finish_slots-keeps (usage u ∷ rest) o out x h m =
      finish_slots-keeps rest (record o { usage = o.usage ++ u ∷ [] }) out x h m
  finish_slots-keeps (pending p ∷ rest) o out x h m =
      let (i, later, finished) = first_succeeds _ (finish_item parser o.model_id p) h in
      finish_slots-keeps rest (record o { items = o.items ++ i ∷ [] }) out x later
        (Memᴰ.append_left (i ∷ []) m)

  -- A slot of the kind, with the text, was finished into an item of the output.
  pub record Finishes (out : ModelStepOutput V) (k : PendingKind) (t : Text) : Type 0 where
    pub slot : PendingItem
    pub item : ModelStepItem V
    pub kind : kind_of slot ≡ k
    pub text : content slot ≡ t
    pub finished : finish_item parser out.model_id slot ≡ ok item
    pub listed : Memᴰ item out.items

  finish_slots-model_id :
      (slots : List (OutputSlot V)) (o out : ModelStepOutput V)
      → finish_slots parser slots o ≡ ok out
      → o.model_id ≡ out.model_id
  unfolding finish_slots
  finish_slots-model_id [] o out h = ground arith
  finish_slots-model_id (collected i ∷ rest) o out h = finish_slots-model_id rest _ out h
  finish_slots-model_id (usage u ∷ rest) o out h = finish_slots-model_id rest _ out h
  finish_slots-model_id (pending p ∷ rest) o out h =
      let (i, later, finished) = first_succeeds _ (finish_item parser o.model_id p) h in
      finish_slots-model_id rest _ out later

  pub finish_slots-Finishes :
      (slots : List (OutputSlot V)) (o out : ModelStepOutput V) (key : Text) (k : PendingKind)
      → finish_slots parser slots o ≡ ok out
      → kind_at key slots ≡ some k
      → Finishes out k (content_at key slots)
  unfolding finish_slots kind_at content_at
  finish_slots-Finishes [] o out key k h known = cc
  finish_slots-Finishes (collected i ∷ rest) o out key k h known =
      let r = finish_slots-Finishes rest _ out key k h known in
      record {
        slot = r.slot;
        item = r.item;
        kind = r.kind;
        text = r.text;
        finished = r.finished;
        listed = r.listed;
      }
  finish_slots-Finishes (usage u ∷ rest) o out key k h known =
      let r = finish_slots-Finishes rest _ out key k h known in
      record {
        slot = r.slot;
        item = r.item;
        kind = r.kind;
        text = r.text;
        finished = r.finished;
        listed = r.listed;
      }
  finish_slots-Finishes (pending p ∷ rest) o out key k h known =
      let (i, later, finished) = first_succeeds _ (finish_item parser o.model_id p) h in
      elim (Bool-cases (text_eq (item_id p) key)) [
        | inl here ↦ record {
          slot = p;
          item = i;
          kind = eq_of_some (rw here at known);
          text = rw here;
          finished =
              (let m : o.model_id ≡ out.model_id = finish_slots-model_id rest _ out later in
                rw m at finished);
          listed =
              finish_slots-keeps rest _ out i later (Memᴰ.append_right o.items (Memᴰ.head refl));
        }
        | inr there ↦
            (let r = finish_slots-Finishes rest _ out key k later (rw there at known) in
              record {
                slot = r.slot;
                item = r.item;
                kind = r.kind;
                text = rw there r.text;
                finished = r.finished;
                listed = r.listed;
              })
      ]

  -- Finishing succeeds only after a `finished` event, and takes the kind and the model from it.
  pub finish-slots :
      (c : Collector V) (s : ModelStep V)
      → finish parser c ≡ ok s
      → (c.finished ≡ some (s.kind, s.output.model_id))
        × (finish_slots parser c.slots
              (record { model_id = s.output.model_id; items = []; usage = [] })
            ≡ ok s.output)
  unfolding finish
  finish-slots c s h = elim (Option-cases c.finished) [
    | inl missing ↦ cc (rw (missing, finish) at h)
    | inr ((kind, model_id), found) ↦
        (let (output, same, slots) =
            first_succeeds _
              (finish_slots parser c.slots (record { model_id = model_id; items = []; usage = [] }))
              (rw (found, finish) at h) in
          let m : model_id ≡ output.model_id = finish_slots-model_id c.slots _ output slots in
          let e : record { kind = kind; output = output } ≡ s = cc in
          rw (← e) (rw m at found, rw m at slots))
  ]

  -- What an accepted stream's final state is.
  pub record Result (es : List (ModelStepEvent V)) (s : ModelStep V) : Type 0 where
    pub final : Collector V
    pub pushes : Pushes empty es final
    pub finishes : finish parser final ≡ ok s

map_event_injective :
    {V E : Type 0} (es fs : List (ModelStepEvent V))
    → map {B = StreamItem V E} StreamItem.event es ≡ map StreamItem.event fs
    → es ≡ fs
map_event_injective [] [] h = refl
map_event_injective [] (f ∷ fs) h = cc
map_event_injective (e ∷ es) [] h = cc
map_event_injective {V = W} {E} (e ∷ es) (f ∷ fs) h =
    let t : map {B = StreamItem W E} StreamItem.event es ≡ map StreamItem.event fs = cc in
    let i = map_event_injective es fs t in cc

module _ {V : Type 0} (E : Type 0) (parser : Json V) where
  pub accepted :
      (es : List (ModelStepEvent V)) (s : ModelStep V)
      → collect_model_step {E = E} parser (map StreamItem.event es) ≡ Collected.step s
      → Result parser es s
  unfolding collect_model_step
  accepted es s h =
      let a = collect_from-Accepted parser (map StreamItem.event es) empty s empty-IsValid h in
      let same : a.events ≡ es = sym (map_event_injective es a.events a.only_events) in
      record { final = a.final; pushes = rw same at a.pushes; finishes = a.finishes }
