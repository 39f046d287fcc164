-- ===== src/Collector/Outcome.antt =====
-- The headline laws of `collect_model_step` in crates/chudbot-api/src/collector.rs.
use mathlib.Core.List.{Memᴰ}
use chudbot.Common.{
  ◌≢◌, ◌≡◌, sym, ◌∙◌, Option, none, some, List, map, arith, Text, text_eq_refl, text_key,
}
use chudbot.Model.{
  ModelStepDelta, ModelStepEvent, ModelStep, ModelStepItem, ModelOutputBlock, ClientToolCall,
}
use chudbot.Collector.{
  PendingKind, PendingItem, Json, ok, StreamItem, Collected, finish_item, collect_model_step, empty,
  arguments_value, kind_of, first_succeeds,
}
use chudbot.Collector.Valid.{empty-IsValid}
use chudbot.Collector.Content.{content, content_at}
use chudbot.Collector.Pushes.{delta_kind}
use chudbot.Collector.Stream.{delta_texts, never_panics, Pushes-Gathers}
use chudbot.Collector.Step.{Finishes, Result, accepted, finish-slots, finish_slots-Finishes}

-- Collecting never panics, whatever the stream: the slot of a registered item id is always there.
pub collect_model_step-ne-panicked :
    {V E : Type 0} (parser : Json V) (items : List (StreamItem V E))
    → collect_model_step parser items ≢ Collected.panicked
unfolding collect_model_step
collect_model_step-ne-panicked parser items = never_panics parser items empty empty-IsValid

module _ {V : Type 0} (parser : Json V) where
  -- The finished slot of an item that some delta of the stream belongs to.
  finished_item :
      (es : List (ModelStepEvent V)) (s : ModelStep V) (key : Text) (k : PendingKind)
      (e : ModelStepEvent V)
      → Result parser es s
      → Memᴰ e es
      → delta_kind key e ≡ some k
      → Finishes parser s.output k (delta_texts key es)
  unfolding content_at
  finished_item es s key k e r m h =
      let g = Pushes-Gathers empty-IsValid r.pushes in
      let (_, slots) = finish-slots parser r.final s r.finishes in
      let known = sym (g.valid.registered key) ∙ g.comes key k e m h in
      rw (g.content key) at
        (finish_slots-Finishes parser r.final.slots _ s.output key k slots known)

  text_item :
      (m : Text) (p : PendingItem) (i : ModelStepItem V)
      → kind_of p ≡ PendingKind.text
      → finish_item parser m p ≡ ok i
      → ModelStepItem.output_block (ModelOutputBlock.text (content p)) ≡ i
  unfolding kind_of finish_item content
  text_item m (PendingItem.text _ t) i k h = cc
  text_item m (PendingItem.reasoning _ _ _) i k h = cc
  text_item m (PendingItem.client_tool_call _ _ _ _) i k h = cc

-- When a stream is collected into a step, each item id that some text delta names has a text
-- block in the output: all the deltas under that id, joined in the order of the stream.
pub collect_model_step-text :
    {V : Type 0} (E : Type 0) (parser : Json V) (es : List (ModelStepEvent V)) (s : ModelStep V)
    (key d : Text)
    → collect_model_step {E = E} parser (map StreamItem.event es) ≡ Collected.step s
    → Memᴰ (ModelStepEvent.delta (ModelStepDelta.text key d)) es
    → Memᴰ (ModelStepItem.output_block (ModelOutputBlock.text (delta_texts key es))) s.output.items
unfolding delta_kind
collect_model_step-text E parser es s key d h m =
    let r = accepted E parser es s h in
    let f = finished_item parser es s key PendingKind.text _ r m (rw (text_eq_refl key)) in
    let i = text_item parser s.output.model_id f.slot f.item f.kind f.finished in
    rw (← f.text) (rw i f.listed)

-- The input of a call is the parse of the arguments (an empty object if they are blank).
abbrev pub CallsWith : {V : Type 0} → Json V → Text → ModelStepItem V → Type 0
CallsWith {V = W} parser t i =
    (call : ClientToolCall W) × (i
      ≡ ModelStepItem.output_block (ModelOutputBlock.client_tool_call call))
    × (arguments_value parser call.id t ≡ ok call.input)

call_item :
    {V : Type 0} (parser : Json V) (m : Text) (p : PendingItem) (i : ModelStepItem V)
    → kind_of p ≡ PendingKind.client_tool_call
    → finish_item parser m p ≡ ok i
    → CallsWith parser (content p) i
unfolding kind_of content finish_item
call_item parser m (PendingItem.text _ t) i k h = cc
call_item parser m (PendingItem.reasoning _ _ _) i k h = cc
call_item parser m (PendingItem.client_tool_call _ u none a) i k h = cc
call_item parser m (PendingItem.client_tool_call _ u (some name) a) i k h =
    let (input, same, parsed) = first_succeeds _ (arguments_value parser u a) h in
    (record { id = u; name = name; input = input }, ground arith, parsed)

-- When a stream is collected into a step, each item id that some tool-call delta names has a call
-- in the output whose input is the parse of all the argument deltas under that id, joined in the
-- order of the stream.
pub collect_model_step-call :
    {V : Type 0} (E : Type 0) (parser : Json V) (es : List (ModelStepEvent V)) (s : ModelStep V)
    (key id : Text) (name : Option Text) (d : Text)
    → collect_model_step {E = E} parser (map StreamItem.event es) ≡ Collected.step s
    → Memᴰ (ModelStepEvent.delta (ModelStepDelta.client_tool_call key id name d)) es
    → (i : ModelStepItem V) × Memᴰ i s.output.items × CallsWith parser (delta_texts key es) i
unfolding delta_kind
collect_model_step-call E parser es s key id name d h m =
    let r = accepted E parser es s h in
    let f =
      finished_item parser es s key PendingKind.client_tool_call _ r m (rw (text_eq_refl key)) in
    (
      f.item,
      f.listed,
      rw f.text at (call_item parser s.output.model_id f.slot f.item f.kind f.finished),
    )
