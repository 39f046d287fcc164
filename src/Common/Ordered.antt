-- ===== src/Common/Ordered.antt =====
-- `BTreeMap<String, _>`: a list of entries kept in the order of the keys, and the stable `sort_by_key`.
use chudbot.Common.Tests.{ltb, ◌==◌, if◌then◌else◌, Bool-cases}
use chudbot.Common.Lists.{select, All, All-imp}
use chudbot.Common.Texts.{Text, text_eq, text_eq_iff, text_eq_refl, text_key}
use chudbot.Common.Assoc.{lookup}
use mathlib.Core.Path.{◌≡◌, refl, ◌∙◌}
use mathlib.Core.Bool.{Bool, true, false, ◌&&◌, ◌||◌}
use mathlib.Core.Logic.{◌⊎◌, inl, inr}
use mathlib.Core.Option.{none, some}
use mathlib.Core.List.{List, [], ◌∷◌}
use native.Mathlib.Omega.{arith}

-- `str` ordering, which is that of the code points.
unfoldable pub text_lt : Text → Text → Bool
text_lt [] [] = false
text_lt [] (b ∷ t) = true
text_lt (a ∷ s) [] = false
text_lt (a ∷ s) (b ∷ t) = ltb a b || (a == b && text_lt s t)

pub text_lt_trans : (s t u : Text) → text_lt s t ≡ true → text_lt t u ≡ true → text_lt s u ≡ true
unfolding text_lt
text_lt_trans [] (b ∷ t) [] h k = k
text_lt_trans [] [] u h k = k
text_lt_trans [] (b ∷ t) (c ∷ u) h k = refl
text_lt_trans (a ∷ s) [] u h k = ground arith
text_lt_trans (a ∷ s) (b ∷ t) [] h k = ground arith
text_lt_trans (a ∷ s) (b ∷ t) (c ∷ u) h k = ground (arith, text_lt_trans s t u)

pub text_lt_ne : (s t : Text) → text_lt s t ≡ true → text_eq t s ≡ false
unfolding text_lt text_eq
text_lt_ne [] (b ∷ t) h = refl
text_lt_ne [] [] h = ground arith
text_lt_ne (a ∷ s) [] h = refl
text_lt_ne (a ∷ s) (b ∷ t) h = ground (arith, text_lt_ne s t)

pub text_eq_flip : (s t : Text) → text_eq t s ≡ false → text_eq s t ≡ false
text_eq_flip s t h = ground (arith, text_eq_iff s t, text_eq_iff t s)

pub text_lt_total : (s t : Text) → text_eq s t ≡ false → text_lt t s ≡ false → text_lt s t ≡ true
unfolding text_lt text_eq
text_lt_total [] [] e h = ground arith
text_lt_total [] (b ∷ t) e h = refl
text_lt_total (a ∷ s) [] e h = ground arith
text_lt_total (a ∷ s) (b ∷ t) e h = ground (arith, text_lt_total s t)

module _ {ℓ} {V : Type ℓ} where
  unfoldable pub insert_ordered : Text → V → List (Text × V) → List (Text × V)
  insert_ordered k v [] = (k, v) ∷ []
  insert_ordered k v ((j, w) ∷ m) =
      let rest = insert_ordered k v m in
      if text_eq j k then (j, v) ∷ m else if text_lt k j then (k, v) ∷ (j, w) ∷ m else (j, w) ∷ rest

  pub lookup-insert_ordered :
      (k j : Text) (v : V) (m : List (Text × V))
      → lookup j (insert_ordered k v m) ≡ (if text_eq k j then some v else lookup j m)
  unfolding lookup insert_ordered
  lookup-insert_ordered k j v [] = refl
  lookup-insert_ordered k j v ((i, w) ∷ m) =
      ground
        (arith, text_eq_iff k j, text_eq_iff i k, text_eq_iff i j, lookup-insert_ordered k j v m)

  -- The keys ascend, so that each stands once.
  unfoldable pub IsOrdered : List (Text × V) → Type ℓ
  IsOrdered [] = Unit
  IsOrdered ((k, v) ∷ m) = All (λ (e : Text × V). text_lt k e.0 ≡ true) m × IsOrdered m

module _ {ℓ} {V : Type ℓ} where
  pub All-insert_ordered {κ} :
      (P : Text × V → Type κ) (k : Text) (v : V) (m : List (Text × V))
      → P (k, v)
      → ((j : Text) (w : V) → text_eq j k ≡ true → P (j, w) → P (j, v))
      → All P m
      → All P (insert_ordered k v m)
  unfolding insert_ordered
  All-insert_ordered P k v [] p f _ = (p, tt)
  All-insert_ordered P k v ((j, w) ∷ m) p f (q, h) = elim (Bool-cases (text_eq j k)) [
    | inl e ↦ rw (e) (f j w e q, h)
    | inr e ↦ elim (Bool-cases (text_lt k j)) [
      | inl l ↦ rw (e, l) (p, (q, h))
      | inr l ↦ rw (e, l) (q, All-insert_ordered P k v m p f h)
    ]
  ]

  pub insert_ordered-IsOrdered :
      (k : Text) (v : V) (m : List (Text × V)) → IsOrdered m → IsOrdered (insert_ordered k v m)
  unfolding insert_ordered IsOrdered
  insert_ordered-IsOrdered k v [] o = (tt, tt)
  insert_ordered-IsOrdered k v ((j, w) ∷ m) (a, o) = elim (Bool-cases (text_eq j k)) [
    | inl e ↦ rw (e) (a, o)
    | inr e ↦ elim (Bool-cases (text_lt k j)) [
      | inl l ↦
          rw (e, l)
            (
              (
                l,
                All-imp (λ (e : Text × V). text_lt j e.0 ≡ true) (λ e. text_lt k e.0 ≡ true) m
                    (λ e q. text_lt_trans k j e.0 l q) a,
              ),
              (a, o),
            )
      | inr l ↦
          rw (e, l)
            (
              All-insert_ordered (λ (e : Text × V). text_lt j e.0 ≡ true) k v m
                  (text_lt_total j k e l) (λ i u _ q. q) a,
              insert_ordered-IsOrdered k v m o,
            )
    ]
  ]

  pub lookup-IsOrdered :
      (k : Text) (m : List (Text × V))
      → All (λ (e : Text × V). text_lt k e.0 ≡ true) m
      → lookup k m ≡ none
  unfolding lookup
  lookup-IsOrdered k [] _ = refl
  lookup-IsOrdered k ((j, w) ∷ m) (l, a) = rw (text_lt_ne k j l) (lookup-IsOrdered k m a)

module _ {ℓ} {A : Type ℓ} where
  -- At most one element passes the test.
  unfoldable pub IsSingle : (A → Bool) → List A → Type ℓ
  IsSingle q l = (select q l ≡ []) ⊎ ((a : A) × (select q l ≡ a ∷ []))

  rest_empty :
      (q : A → Bool) (a : A) (l : List A) → q a ≡ true → IsSingle q (a ∷ l) → select q l ≡ []
  unfolding IsSingle
  rest_empty q a l t (inl e) = cc (rw (t) at e)
  rest_empty q a l t (inr (b, e)) = cc (rw (t) at e)

module _ {ℓ} {A : Type ℓ} (le : A → A → Bool) where
  -- A stable sort: an element is put before the first that it is not greater than.
  unfoldable pub sort_insert : A → List A → List A
  sort_insert a [] = a ∷ []
  sort_insert a (b ∷ l) = if le a b then a ∷ b ∷ l else b ∷ sort_insert a l

  unfoldable pub sort : List A → List A
  unfolding sort_insert
  sort [] = []
  sort (a ∷ l) = sort_insert a (sort l)

  select-sort_insert_other :
      (q : A → Bool) (a : A) (l : List A) → q a ≡ false → select q (sort_insert a l) ≡ select q l
  unfolding sort_insert
  select-sort_insert_other q a [] h = rw (h) refl
  select-sort_insert_other q a (b ∷ l) h = elim (Bool-cases (le a b)) [
    | inl e ↦ rw (e, h) refl
    | inr e ↦ rw (e, select-sort_insert_other q a l h) refl
  ]

  select-sort_insert_only :
      (q : A → Bool) (a : A) (l : List A)
      → q a ≡ true
      → select q l ≡ []
      → select q (sort_insert a l) ≡ a ∷ []
  unfolding sort_insert
  select-sort_insert_only q a [] h e = rw (h) refl
  select-sort_insert_only q a (b ∷ l) h e = elim (Bool-cases (q b)) [
    | inl t ↦ cc (rw (t) at e)
    | inr t ↦ elim (Bool-cases (le a b)) [
      | inl f ↦ rw (f, h, t, rw (t) at e) refl
      | inr f ↦ rw (f, t) (select-sort_insert_only q a l h (rw (t) at e))
    ]
  ]

  pub select-sort : (q : A → Bool) (l : List A) → IsSingle q l → select q (sort l) ≡ select q l
  unfolding sort IsSingle
  select-sort q [] _ = refl
  select-sort q (a ∷ l) single = elim (Bool-cases (q a)) [
    | inl t ↦
        (let e : select q l ≡ [] = rest_empty q a l t single in
          rw (t, e) (select-sort_insert_only q a (sort l) t (select-sort q l (inl e) ∙ e)))
    | inr t ↦ rw (t) (select-sort_insert_other q a (sort l) t ∙ select-sort q l (rw (t) at single))
  ]

  All-sort_insert {κ} :
      (P : A → Type κ) (a : A) (l : List A) → P a → All P l → All P (sort_insert a l)
  unfolding sort_insert
  All-sort_insert P a [] p _ = (p, tt)
  All-sort_insert P a (b ∷ l) p (q, h) = elim (Bool-cases (le a b)) [
    | inl e ↦ rw (e) (p, (q, h))
    | inr e ↦ rw (e) (q, All-sort_insert P a l p h)
  ]

  pub All-sort {κ} : (P : A → Type κ) (l : List A) → All P l → All P (sort l)
  unfolding sort
  All-sort P [] _ = tt
  All-sort P (a ∷ l) (p, h) = All-sort_insert P a (sort l) p (All-sort P l h)

  pub sort_cons : (a : A) (l : List A) → (b : A) × (m : List A) × (sort (a ∷ l) ≡ b ∷ m)
  unfolding sort
  sort_cons a l = go (sort l)
    where
      go : (l : List A) → (b : A) × (m : List A) × (sort_insert a l ≡ b ∷ m)
      go [] = (a, [], refl)
      go (b ∷ l) = elim (Bool-cases (le a b)) [
        | inl e ↦ (a, b ∷ l, rw (e, sort_insert) refl)
        | inr e ↦ (b, sort_insert a l, rw (e, sort_insert) refl)
      ]

module _ {ℓ} {V : Type ℓ} where
  lookup_behind :
      (k : Text) (v : V) (m entries : List (Text × V))
      → All (λ (e : Text × V). text_lt k e.0 ≡ true) entries
      → All (λ (e : Text × V). lookup e.0 m ≡ some e.1) entries
      → All (λ (e : Text × V). lookup e.0 ((k, v) ∷ m) ≡ some e.1) entries
  unfolding lookup
  lookup_behind k v m [] _ _ = tt
  lookup_behind k v m ((j, w) ∷ entries) (l, a) (h, b) =
      (rw (text_eq_flip k j (text_lt_ne k j l)) h, lookup_behind k v m entries a b)

  -- Each entry is what its key looks up.
  pub lookup_entries :
      (m : List (Text × V)) → IsOrdered m → All (λ (e : Text × V). lookup e.0 m ≡ some e.1) m
  unfolding IsOrdered lookup
  lookup_entries [] _ = tt
  lookup_entries ((k, v) ∷ m) (after, ordered) =
      (rw (text_eq_refl k) refl, lookup_behind k v m m after (lookup_entries m ordered))
