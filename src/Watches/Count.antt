-- ===== src/Watches/Count.antt =====
-- Sums over maps, for the counters of connections of the hub in crates/chudbot-web/src/vibe_collections.rs, against its watches.
pub mod Hub
pub mod Places
pub mod Left
pub mod Joined
pub mod Runs
use mathlib.Core.Path.{subst}
use chudbot.Common.{
  ℕ, ◌+◌, ◌-◌, ◌≤◌, Bool, true, false, ◌≡◌, refl, sym, ap, ◌∙◌, inl, inr, Option, none, some, List,
  [], ◌∷◌, if◌then◌else◌, is_empty, is_empty-eq_nil, ◌==◌, Text, text_eq, text_key, nat_key, Key,
  lookup, insert, remove, lookup-insert, lookup-remove, remove-absent, same_refl, Bool-cases,
  Option-cases, eq_of_some, Result, ok, err, arith,
}

module _ {K A : Type 0} ⦃e : Key K⦄ where
  -- The sum of a weight over the entries.
  unfoldable pub total : (A → ℕ) → List (K × A) → ℕ
  total w [] = 0
  total w ((k, v) ∷ m) = w v + total w m

  unfoldable pub IsUnique : List (K × A) → Type 0
  unfolding lookup
  IsUnique [] = Unit
  IsUnique ((k, v) ∷ m) = (lookup k m ≡ none) × IsUnique m

  total-insert-new :
      (w : A → ℕ) (k : K) (v : A) (m : List (K × A))
      → lookup k m ≡ none
      → total w (insert k v m) ≡ total w m + w v
  unfolding total insert lookup
  total-insert-new w k v [] h = omega arith
  total-insert-new w k v ((j, u) ∷ m) h = elim (Bool-cases (e.same j k)) [
    | inl s ↦ cc (rw (s) at h)
    | inr s ↦ rw (s) (omega (arith, total-insert-new w k v m (rw (s) at h)))
  ]

  total-insert-old :
      (w : A → ℕ) (k : K) (v u : A) (m : List (K × A))
      → lookup k m ≡ some u
      → total w (insert k v m) + w u ≡ total w m + w v
  unfolding total insert lookup
  total-insert-old w k v u [] h = cc
  total-insert-old w k v u ((j, x) ∷ m) h = elim (Bool-cases (e.same j k)) [
    | inl s ↦
        (let same : w x ≡ w u = ap w (eq_of_some (rw (s) at h)) in rw (s) (omega (arith, same)))
    | inr s ↦ rw (s) (omega (arith, total-insert-old w k v u m (rw (s) at h)))
  ]

  pub total-remove :
      (w : A → ℕ) (k : K) (u : A) (m : List (K × A))
      → IsUnique m
      → lookup k m ≡ some u
      → total w (remove k m) + w u ≡ total w m
  unfolding total remove lookup IsUnique
  total-remove w k u [] unique h = cc
  total-remove w k u ((j, x) ∷ m) (fresh, unique) h = elim (Bool-cases (e.same j k)) [
    | inl s ↦
        (let same : w x ≡ w u = ap w (eq_of_some (rw (s) at h)) in
          let gone : remove k m ≡ m = remove-absent k m (rw (sym ((e.same_iff j k).0 s)) fresh) in
          rw (s, gone) (omega (arith, same)))
    | inr s ↦ rw (s) (omega (arith, total-remove w k u m unique (rw (s) at h)))
  ]

  pub insert-IsUnique : (k : K) (v : A) (m : List (K × A)) → IsUnique m → IsUnique (insert k v m)
  unfolding insert lookup IsUnique
  insert-IsUnique k v [] unique = (refl, tt)
  insert-IsUnique k v ((j, x) ∷ m) (fresh, unique) = elim (Bool-cases (e.same j k)) [
    | inl s ↦ rw (s) (fresh, unique)
    | inr s ↦ rw (s) (
      lookup-insert k j v m ∙ ground (arith, s, fresh, e.same_iff j k, e.same_iff k j),
      insert-IsUnique k v m unique,
    )
  ]

  pub remove-IsUnique : (k : K) (m : List (K × A)) → IsUnique m → IsUnique (remove k m)
  unfolding remove lookup IsUnique
  remove-IsUnique k [] unique = tt
  remove-IsUnique k ((j, x) ∷ m) (fresh, unique) = elim (Bool-cases (e.same j k)) [
    | inl s ↦ rw (s) (remove-IsUnique k m unique)
    | inr s ↦ rw (s) (lookup-remove k j m ∙ ground (arith, fresh), remove-IsUnique k m unique)
  ]

  -- The weight of a key's entry, if there is one.
  abbrev pub weight_at : (A → ℕ) → K → List (K × A) → ℕ
  weight_at w k m = elim (lookup k m) [ none ↦ 0 | some u ↦ w u ]

  pub total-insert :
      (w : A → ℕ) (k : K) (v : A) (m : List (K × A))
      → total w (insert k v m) + weight_at w k m ≡ total w m + w v
  total-insert w k v m = elim (Option-cases (lookup k m)) [
    | inl h ↦ rw (weight_at, h) (omega (arith, total-insert-new w k v m h))
    | inr (u, h) ↦ rw (weight_at, h) (total-insert-old w k v u m h)
  ]

  pub weight_le-total :
      (w : A → ℕ) (k : K) (u : A) (m : List (K × A)) → lookup k m ≡ some u → w u ≤ total w m
  unfolding total lookup
  weight_le-total w k u [] h = cc
  weight_le-total w k u ((j, x) ∷ m) h = elim (Bool-cases (e.same j k)) [
    | inl s ↦ (let same : w x ≡ w u = ap w (eq_of_some (rw (s) at h)) in omega (arith, same))
    | inr s ↦ omega (arith, weight_le-total w k u m (rw (s) at h))
  ]

  -- Every value that a key finds.
  abbrev pub Each : (A → Type 0) → List (K × A) → Type 0
  Each P m = (k : K) (v : A) → lookup k m ≡ some v → P v

  pub insert-Each :
      (P : A → Type 0) (k : K) (v : A) (m : List (K × A)) → P v → Each P m → Each P (insert k v m)
  insert-Each P k v m here others j u found = elim (Bool-cases (e.same k j)) [
    | inl s ↦ subst P (eq_of_some (rw (lookup-insert k j v m, s) at found)) here
    | inr s ↦ others j u (rw (lookup-insert k j v m, s) at found)
  ]

  pub remove-Each : (P : A → Type 0) (k : K) (m : List (K × A)) → Each P m → Each P (remove k m)
  remove-Each P k m others j u found = elim (Bool-cases (e.same k j)) [
    | inl s ↦ cc (rw (lookup-remove k j m, s) at found)
    | inr s ↦ others j u (rw (lookup-remove k j m, s) at found)
  ]
