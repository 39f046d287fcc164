-- ===== src/Replay/Steps.antt =====
-- The replay of model steps in crates/chudbot-bot/src/transcript.rs: each stored result of a client
-- tool is replayed at most once.
use chudbot.Common.{
  Bool, false, ◌≡◌, refl, ap, sym, ◌∙◌, some, List, [], ◌∷◌, ◌++◌, map, any, All, All-append, Text,
  text_eq, text_eq_iff, text_eq_flip, lookup, text_key, IsOrdered, insert_ordered-IsOrdered,
  All-insert_ordered, Bool-cases, Option-cases, inl, inr, arith,
}
use mathlib.Core.List.{append_assoc, map-append}
use chudbot.Model.{ToolTrace, ClientToolResult}
use chudbot.Replay.{Taken, take_result, take_results, take_rest, results_from, insert_result}

abbrev pub seen_in : Text → List Text → Bool
seen_in id texts = any (λ seen. text_eq seen id) texts

-- No text stands twice.
unfoldable pub IsUnique : List Text → Type 0
IsUnique [] = Unit
IsUnique (t ∷ texts) = (seen_in t texts ≡ false) × IsUnique texts

any_snoc :
    (t id : Text) (texts : List Text)
    → seen_in t texts ≡ false
    → text_eq id t ≡ false
    → seen_in t (texts ++ id ∷ []) ≡ false
any_snoc t id [] h k = ground (arith, k)
any_snoc t id (s ∷ texts) h k = ground (arith, k, h, any_snoc t id texts)

snoc-IsUnique :
    (texts : List Text) (id : Text)
    → IsUnique texts
    → seen_in id texts ≡ false
    → IsUnique (texts ++ id ∷ [])
unfolding IsUnique
snoc-IsUnique [] id u h = (refl, tt)
snoc-IsUnique (t ∷ texts) id (fresh, u) h = (
  any_snoc t id texts fresh (text_eq_flip id t (ground (arith, h))),
  snoc-IsUnique texts id u (ground (arith, h)),
)

module _ {V : Type 0} where
  abbrev pub id_of : ClientToolResult V → Text
  id_of result = result.tool_use_id

  -- Each result stands under its own id.
  unfoldable pub IsIndexed : List (Text × ClientToolResult V) → Type 0
  IsIndexed m = All (λ (e : Text × ClientToolResult V). e.0 ≡ (e.1).tool_use_id) m × IsOrdered m

  insert_result-IsIndexed :
      (trace : ToolTrace V) (m : List (Text × ClientToolResult V))
      → IsIndexed m
      → IsIndexed (insert_result trace m)
  unfolding insert_result IsIndexed
  insert_result-IsIndexed (ToolTrace.client trace) m (ids, ordered) = (
    All-insert_ordered (λ (e : Text × ClientToolResult V). e.0 ≡ (e.1).tool_use_id)
        trace.result.tool_use_id trace.result m refl
        (λ j w e _. (text_eq_iff j trace.result.tool_use_id).0 e) ids,
    insert_ordered-IsOrdered trace.result.tool_use_id trace.result m ordered,
  )
  insert_result-IsIndexed (ToolTrace.server _) m h = h
  insert_result-IsIndexed (ToolTrace.grounding _) m h = h

  pub results_from-IsIndexed :
      (traces : List (ToolTrace V)) (m : List (Text × ClientToolResult V))
      → IsIndexed m
      → IsIndexed (results_from m traces)
  unfolding results_from
  results_from-IsIndexed [] m h = h
  results_from-IsIndexed (trace ∷ traces) m h =
      results_from-IsIndexed traces (insert_result trace m) (insert_result-IsIndexed trace m h)

  lookup-id :
      (id : Text) (result : ClientToolResult V) (m : List (Text × ClientToolResult V))
      → All (λ (e : Text × ClientToolResult V). e.0 ≡ (e.1).tool_use_id) m
      → lookup id m ≡ some result
      → result.tool_use_id ≡ id
  unfolding lookup
  lookup-id id result [] _ h = cc
  lookup-id id result ((k, r) ∷ m) (e, ids) h = elim (Bool-cases (text_eq k id)) [
    | inl same ↦
        (let q : some r ≡ some result = rw (same) at h in cc (q, e, (text_eq_iff k id).0 same))
    | inr other ↦ lookup-id id result m ids (rw (other) at h)
  ]

  module _ (stored : List (Text × ClientToolResult V)) where
    abbrev pub IsStored : ClientToolResult V → Type 0
    IsStored result = lookup result.tool_use_id stored ≡ some result

    -- What was taken since `before` is new, stored, and recorded.
    unfoldable pub IsTaken : List Text → Taken V → Type 0
    IsTaken before taken =
        (taken.consumed ≡ before ++ map id_of taken.results)
        × IsUnique taken.consumed
        × All IsStored taken.results

    take_one-IsTaken :
        (before : List Text) (taken : Taken V) (result : ClientToolResult V)
        → IsTaken before taken
        → seen_in result.tool_use_id taken.consumed ≡ false
        → IsStored result
        → IsTaken before (record {
          consumed = taken.consumed ++ result.tool_use_id ∷ [];
          results = taken.results ++ result ∷ [];
        })
    unfolding IsTaken
    take_one-IsTaken before taken result (recorded, unique, all) fresh is_stored = (
      rw (recorded) (
          append_assoc before (map id_of taken.results) (result.tool_use_id ∷ [])
          ∙ ap (λ l. before ++ l) (sym (map-append id_of taken.results (result ∷ [])))),
      snoc-IsUnique taken.consumed result.tool_use_id unique fresh,
      All-append IsStored taken.results (result ∷ []) all (is_stored, tt),
    )

    pub take_results-IsTaken :
        (before : List Text) (ids : List Text) (taken : Taken V)
        → All (λ (e : Text × ClientToolResult V). e.0 ≡ (e.1).tool_use_id) stored
        → IsTaken before taken
        → IsTaken before (take_results stored taken ids)
    unfolding take_results take_result
    take_results-IsTaken before [] taken keyed h = h
    take_results-IsTaken before (id ∷ ids) taken keyed h =
        take_results-IsTaken before ids (take_result stored taken id) keyed
          (elim (Bool-cases (seen_in id taken.consumed)) [
            | inl seen ↦ rw (seen, take_result) h
            | inr fresh ↦ elim (Option-cases (lookup id stored)) [
              | inl e ↦ rw (fresh, e, take_result) h
              | inr (result, e) ↦
                  (let same : result.tool_use_id ≡ id = lookup-id id result stored keyed e in
                    rw (fresh, e, take_result, sym same)
                      (take_one-IsTaken before taken result h (rw (same) fresh)
                        (ap (λ k. lookup k stored) same ∙ e)))
            ]
          ])

    pub take_rest-IsTaken :
        (before : List Text) (entries : List (Text × ClientToolResult V)) (taken : Taken V)
        → All (λ (e : Text × ClientToolResult V). e.0 ≡ (e.1).tool_use_id) entries
        → All (λ (e : Text × ClientToolResult V). lookup e.0 stored ≡ some e.1) entries
        → IsTaken before taken
        → IsTaken before (take_rest entries taken)
    unfolding take_rest
    take_rest-IsTaken before [] taken _ _ h = h
    take_rest-IsTaken before ((id, result) ∷ entries) taken (same, keyed) (found, all) h =
        take_rest-IsTaken before entries _ keyed all
          (elim (Bool-cases (seen_in id taken.consumed)) [
            | inl seen ↦ rw (seen) h
            | inr fresh ↦
                rw (fresh, same)
                  (take_one-IsTaken before taken result h (rw (sym same) fresh)
                    (ap (λ k. lookup k stored) (sym same) ∙ found))
          ])
