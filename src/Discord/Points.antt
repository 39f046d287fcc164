-- ===== src/Discord/Points.antt =====
-- Where crates/chudbot-discord/src/lib.rs splits a text, and that cutting a text into pieces ends.
use mathlib.Core.List.{append-nil}
use chudbot.Common.{
  ℕ, zero, suc, ◌+◌, ◌≤◌, ◌<◌, min, true, ◌≡◌, refl, ap, ◌∙◌, inl, inr, Option, some, List, [], ◌∷◌,
  ◌++◌, arith, ltb, leb, length, take, drop, All, concat, Text, starts_with, Bool-cases,
  Option-cases, length-take, length-drop, take-append-drop, ltb→lt, leb→le,
}
use chudbot.Discord.{rfind, split_point, find_split_point, split_loop, split_segment}

length_of_starts_with : (p t : Text) → starts_with p t ≡ true → length p ≤ length t
unfolding starts_with
length_of_starts_with [] t h = omega arith
length_of_starts_with (a ∷ p) [] h = cc
length_of_starts_with (a ∷ p) (b ∷ t) h = ground (arith, length_of_starts_with p t)

rfind_bounds : (p t : Text) (i : ℕ) → rfind p t ≡ some i → i + length p ≤ length t
unfolding rfind
rfind_bounds [] [] i h = ground arith
rfind_bounds (a ∷ p) [] i h = cc
rfind_bounds p (c ∷ t) i h = elim (Option-cases (rfind p t)) [
  | inl none_later ↦ ground (arith, length_of_starts_with p (c ∷ t))
  | inr (j, later) ↦ (let b = rfind_bounds p t j later in ground arith)
]

split_point_bounds :
    (separators : List Text) (candidate : Text) (limit : ℕ)
    → 1 ≤ limit
    → length candidate ≡ limit
    → (1 ≤ split_point separators candidate limit)
      × (split_point separators candidate limit ≤ limit)
unfolding split_point
split_point_bounds [] candidate limit p e = (p, omega arith)
split_point_bounds (s ∷ rest) candidate limit p e =
    let later = split_point_bounds rest candidate limit p e in
    elim (Option-cases (rfind s candidate)) [
      | inl no_place ↦ rw (no_place, split_point) later
      | inr (i, place) ↦
          (let b = rfind_bounds s candidate i place in rw (place, split_point) (ground arith))
    ]

-- Within a text that is longer than the limit, the split point is positive and within the limit.
pub find_split_point_bounds :
    (separators : List Text) (t : Text) (max_chars : ℕ)
    → 1 ≤ max_chars
    → max_chars < length t
    → (1 ≤ find_split_point separators t max_chars)
      × (find_split_point separators t max_chars ≤ max_chars)
unfolding find_split_point
find_split_point_bounds separators t max_chars p long =
    let limit : min max_chars (length t) ≡ max_chars = omega arith in
    rw limit (
      split_point_bounds separators (take max_chars t) max_chars p
        (length-take max_chars t ∙ limit))

-- The pieces of a text: none is longer than the limit, and joined they are the text.
pub record Cut (max_chars : ℕ) (t : Text) (result : Option (List Text)) : Type 0 where
  pub pieces : List Text
  pub returned : result ≡ some pieces
  pub joined : concat pieces ≡ t
  pub short : All (λ (c : Text). length c ≤ max_chars) pieces

split_loop-Cut :
    (separators : List Text) (fuel max_chars : ℕ) (t : Text)
    → 1 ≤ max_chars
    → length t < fuel
    → Cut max_chars t (split_loop separators fuel max_chars t)
unfolding split_loop
split_loop-Cut separators zero max_chars t p enough = absurd (omega arith)
split_loop-Cut separators (suc fuel) max_chars [] p enough = record {
  pieces = [];
  returned = ground arith;
  joined = refl;
  short = tt;
}
split_loop-Cut separators (suc fuel) max_chars (a ∷ t) p enough =
    elim (Bool-cases (ltb max_chars (length (a ∷ t)))) [
      | inr fits ↦ record {
        pieces = (a ∷ t) ∷ [];
        returned = rw fits refl;
        joined = append-nil (a ∷ t);
        short = (ground arith, tt);
      }
      | inl long ↦
          (let n = find_split_point separators (a ∷ t) max_chars in
            let b = find_split_point_bounds separators (a ∷ t) max_chars p (ltb→lt _ _ long) in
            let later =
              split_loop-Cut separators fuel max_chars (drop n (a ∷ t)) p
                (let d = length-drop n (a ∷ t) in omega arith) in
            record {
              pieces = take n (a ∷ t) ∷ later.pieces;
              returned = rw (long, later.returned) refl;
              joined = ap (λ r. take n (a ∷ t) ++ r) later.joined ∙ take-append-drop n (a ∷ t);
              short = ((let l = length-take n (a ∷ t) in omega arith), later.short);
            })
    ]

-- With a positive limit, cutting a text into pieces returns pieces within the limit that, joined,
-- are the text.
pub split_segment-Cut :
    (separators : List Text) (t : Text) (max_chars : ℕ)
    → 1 ≤ max_chars
    → Cut max_chars t (split_segment separators t max_chars)
unfolding split_segment
split_segment-Cut separators t max_chars p = elim (Bool-cases (leb (length t) max_chars)) [
  | inl fits ↦ record {
    pieces = t ∷ [];
    returned = rw fits refl;
    joined = append-nil t;
    short = (leb→le _ _ fits, tt);
  }
  | inr long ↦ rw long (split_loop-Cut separators (length t + 1) max_chars t p (omega arith))
]
