-- ===== src/Collector/Tests.antt =====
-- Streams through the reducer, as the tests of crates/chudbot-api/src/collector.rs make them.
use mathlib.Core.List.{Memᴰ}
use chudbot.Common.{
  ℕ, ◌≡◌, refl, ◌≢◌, Option, none, some, List, [], ◌∷◌, map, Text, codes, text_eq, lookup, insert,
  trim,
}
use chudbot.Model.{
  ModelStepDelta, ModelStepEvent, ModelStepKind, ModelStep, ModelStepItem, ModelOutputBlock,
}
use chudbot.Collector.{
  Collector, Json, Parsed, StreamItem, Collected, push, empty, collect_model_step, item_id,
  ReducerError,
}
use chudbot.Collector.Valid.{IsValid, empty-IsValid, push-IsValid}
use chudbot.Collector.Stream.{delta_texts}
use chudbot.Collector.Outcome.{
  collect_model_step-ne-panicked, collect_model_step-text, collect_model_step-call, CallsWith,
}
use chudbot.Collector.Last.{collect_model_step-FinishesLast, FinishesLast}

-- A parser whose values are texts: it accepts every text but the one of an open brace alone.
abbrev texts : Json Text
texts = record {
  from_str = elim [
    | [] ↦ Parsed.invalid []
    | c ∷ [] ↦ Parsed.invalid (codes "EOF")
    | c ∷ d ∷ t ↦ Parsed.value (c ∷ d ∷ t)
  ];
  empty_object = codes "{}";
}

abbrev two_texts_and_a_call : List (ModelStepEvent Text)
two_texts_and_a_call =
    ModelStepEvent.delta (ModelStepDelta.text (codes "text") (codes "he"))
    ∷ ModelStepEvent.delta (
        ModelStepDelta.client_tool_call (codes "call") (codes "call-1") (some (codes "search"))
          (codes "{\"q\":"))
    ∷ ModelStepEvent.delta (ModelStepDelta.text (codes "text") (codes "llo"))
    ∷ ModelStepEvent.delta
        (ModelStepDelta.client_tool_call (codes "call") (codes "call-1") none (codes "1}"))
    ∷ ModelStepEvent.finished ModelStepKind.client_tools (codes "m")
    ∷ []

abbrev collected_step : ModelStep Text
collected_step = record {
  kind = ModelStepKind.client_tools;
  output = record {
    model_id = codes "m";
    items =
        ModelStepItem.output_block (ModelOutputBlock.text (codes "hello"))
        ∷ ModelStepItem.output_block (
            ModelOutputBlock.client_tool_call
              (record { id = codes "call-1"; name = codes "search"; input = codes "{\"q\":1}" }))
        ∷ [];
    usage = [];
  };
}

collects :
    collect_model_step {E = ℕ} texts (map StreamItem.event two_texts_and_a_call)
    ≡ Collected.step collected_step
unfolding collect_model_step text_eq lookup insert trim item_id
collects = refl

collect_model_step-ne-panicked_example :
    collect_model_step {E = ℕ} texts (map StreamItem.event two_texts_and_a_call)
    ≢ Collected.panicked
collect_model_step-ne-panicked_example =
    collect_model_step-ne-panicked texts (map StreamItem.event two_texts_and_a_call)

collect_model_step-text_example :
    Memᴰ
      (ModelStepItem.output_block
        (ModelOutputBlock.text (delta_texts (codes "text") two_texts_and_a_call)))
      collected_step.output.items
collect_model_step-text_example =
    collect_model_step-text ℕ texts two_texts_and_a_call collected_step (codes "text") (codes "he")
      collects (Memᴰ.head refl)

collect_model_step-call_example :
    (i : ModelStepItem Text) × Memᴰ i collected_step.output.items
    × CallsWith texts (delta_texts (codes "call") two_texts_and_a_call) i
collect_model_step-call_example =
    collect_model_step-call ℕ texts two_texts_and_a_call collected_step (codes "call")
      (codes "call-1") (some (codes "search")) (codes "{\"q\":") collects
      (Memᴰ.tail (Memᴰ.head refl))

collect_model_step-FinishesLast_example :
    FinishesLast two_texts_and_a_call collected_step.kind collected_step.output.model_id
collect_model_step-FinishesLast_example =
    collect_model_step-FinishesLast ℕ texts two_texts_and_a_call collected_step collects

push-IsValid_example :
    (r : Collector Text × Option ReducerError) × (push
        (ModelStepEvent.delta (ModelStepDelta.text (codes "a") (codes "hi")))
        empty
      ≡ some r)
    × IsValid r.0
push-IsValid_example =
    push-IsValid (ModelStepEvent.delta (ModelStepDelta.text (codes "a") (codes "hi"))) empty
      empty-IsValid
