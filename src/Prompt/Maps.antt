-- ===== src/Prompt/Maps.antt =====
-- The maps of prompt parts by key in crates/chudbot-storage-sqlx/src/snapshots.rs and
-- crates/chudbot-bot/src/turns.rs: a list of parts and the map it is collected into agree.
use chudbot.Common.{
  Bool, ◌≡◌, refl, ◌∙◌, sym, Option, none, some, List, [], ◌∷◌, select, All, Bool-cases, inl, inr,
  Text, text_eq, text_eq_iff, lookup, lookup-insert_ordered, insert_ordered,
  insert_ordered-IsOrdered, IsOrdered, All-insert_ordered, lookup-IsOrdered, sort, select-sort,
  IsSingle, text_key,
}
use chudbot.Prompt.{AgentInstructionPartSnapshot}
use chudbot.Prompt.Changes.{by_key, find_part}
use chudbot.Prompt.Markers.{into_values, snapshot_ordinal_le}

-- Each part stands under its own key.
unfoldable pub IsKeyed : List (Text × AgentInstructionPartSnapshot) → Type 0
IsKeyed m = All (λ (e : Text × AgentInstructionPartSnapshot). e.0 ≡ (e.1).key) m × IsOrdered m

abbrev pub has_key : Text → AgentInstructionPartSnapshot → Bool
has_key key part = text_eq part.key key

pub singleton : Option AgentInstructionPartSnapshot → List AgentInstructionPartSnapshot
singleton none = []
singleton (some part) = part ∷ []

pub insert_ordered-IsKeyed :
    (part : AgentInstructionPartSnapshot) (m : List (Text × AgentInstructionPartSnapshot))
    → IsKeyed m
    → IsKeyed (insert_ordered part.key part m)
unfolding IsKeyed
insert_ordered-IsKeyed part m (keyed, ordered) = (
  All-insert_ordered (λ (e : Text × AgentInstructionPartSnapshot). e.0 ≡ (e.1).key) part.key part m
      refl (λ j w e _. (text_eq_iff j part.key).0 e) keyed,
  insert_ordered-IsOrdered part.key part m ordered,
)

pub select-into_values :
    (key : Text) (m : List (Text × AgentInstructionPartSnapshot))
    → IsKeyed m
    → select (has_key key) (into_values m) ≡ singleton (lookup key m)
unfolding IsKeyed IsOrdered lookup singleton
select-into_values key [] _ = refl
select-into_values key ((j, part) ∷ m) ((e, keyed), (after, ordered)) =
    elim (Bool-cases (text_eq j key)) [
      | inl same ↦
          (let q = (text_eq_iff j key).0 same in
            let nothing : lookup key m ≡ none = lookup-IsOrdered key m (rw (sym q) after) in
            rw (sym e, same, select-into_values key m (keyed, ordered), nothing) refl)
      | inr other ↦ rw (sym e, other) (select-into_values key m (keyed, ordered))
    ]

singleton-IsSingle :
    (key : Text) (l : List AgentInstructionPartSnapshot) (o : Option AgentInstructionPartSnapshot)
    → select (has_key key) l ≡ singleton o
    → IsSingle (has_key key) l
unfolding IsSingle singleton
singleton-IsSingle key l none e = inl e
singleton-IsSingle key l (some part) e = inr (part, e)

pub select-sorted_values :
    (key : Text) (m : List (Text × AgentInstructionPartSnapshot))
    → IsKeyed m
    → select (has_key key) (sort snapshot_ordinal_le (into_values m)) ≡ singleton (lookup key m)
select-sorted_values key m keyed =
    let e = select-into_values key m keyed in
    select-sort snapshot_ordinal_le (has_key key) (into_values m)
      (singleton-IsSingle key (into_values m) (lookup key m) e)
    ∙ e

pub find_part-select :
    (key : Text) (l : List AgentInstructionPartSnapshot) (o : Option AgentInstructionPartSnapshot)
    → select (has_key key) l ≡ singleton o
    → find_part key l ≡ o
unfolding find_part singleton
find_part-select key [] none e = refl
find_part-select key [] (some part) e = cc
find_part-select key (x ∷ l) none e = elim (Bool-cases (text_eq x.key key)) [
  | inl same ↦ cc (rw (same) at e)
  | inr other ↦ rw (other) (find_part-select key l none (rw (other) at e))
]
find_part-select key (x ∷ l) (some part) e = elim (Bool-cases (text_eq x.key key)) [
  | inl same ↦ rw (same) (cc (rw (same) at e))
  | inr other ↦ rw (other) (find_part-select key l (some part) (rw (other) at e))
]

pub by_key_absent :
    (key : Text) (l : List AgentInstructionPartSnapshot)
    (m : List (Text × AgentInstructionPartSnapshot))
    → select (has_key key) l ≡ []
    → lookup key (by_key m l) ≡ lookup key m
unfolding by_key
by_key_absent key [] m e = refl
by_key_absent key (x ∷ l) m e = elim (Bool-cases (text_eq x.key key)) [
  | inl same ↦ cc (rw (same) at e)
  | inr other ↦
      by_key_absent key l (insert_ordered x.key x m) (rw (other) at e)
      ∙ rw (lookup-insert_ordered x.key key x m, other) refl
]

pub lookup-by_key_only :
    (key : Text) (l : List AgentInstructionPartSnapshot)
    (m : List (Text × AgentInstructionPartSnapshot)) (part : AgentInstructionPartSnapshot)
    → select (has_key key) l ≡ part ∷ []
    → lookup key (by_key m l) ≡ some part
unfolding by_key
lookup-by_key_only key [] m part e = cc
lookup-by_key_only key (x ∷ l) m part e = elim (Bool-cases (text_eq x.key key)) [
  | inl same ↦
      (let q : x ∷ select (has_key key) l ≡ part ∷ [] = rw (same) at e in
        by_key_absent key l (insert_ordered x.key x m) (cc q)
        ∙ rw (lookup-insert_ordered x.key key x m, same) (cc q))
  | inr other ↦ lookup-by_key_only key l (insert_ordered x.key x m) part (rw (other) at e)
]

lookup-by_key :
    (key : Text) (l : List AgentInstructionPartSnapshot) (o : Option AgentInstructionPartSnapshot)
    → select (has_key key) l ≡ singleton o
    → lookup key (by_key [] l) ≡ o
unfolding singleton lookup
lookup-by_key key l none e = by_key_absent key l [] e
lookup-by_key key l (some part) e = lookup-by_key_only key l [] part e

pub by_key-IsKeyed :
    (l : List AgentInstructionPartSnapshot) (m : List (Text × AgentInstructionPartSnapshot))
    → IsKeyed m
    → IsKeyed (by_key m l)
unfolding by_key
by_key-IsKeyed [] m h = h
by_key-IsKeyed (x ∷ l) m h =
    by_key-IsKeyed l (insert_ordered x.key x m) (insert_ordered-IsKeyed x m h)

-- The part that a sorted map shows under a key.
pub find_part-sorted_values :
    (key : Text) (m : List (Text × AgentInstructionPartSnapshot))
    → IsKeyed m
    → find_part key (sort snapshot_ordinal_le (into_values m)) ≡ lookup key m
find_part-sorted_values key m keyed =
    find_part-select key _ (lookup key m) (select-sorted_values key m keyed)

pub lookup-by_key-sorted_values :
    (key : Text) (m : List (Text × AgentInstructionPartSnapshot))
    → IsKeyed m
    → lookup key (by_key [] (sort snapshot_ordinal_le (into_values m))) ≡ lookup key m
unfolding lookup
lookup-by_key-sorted_values key m keyed =
    lookup-by_key key _ (lookup key m) (select-sorted_values key m keyed)
