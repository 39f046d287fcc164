-- ===== src/Vibe/Names/Laws.antt =====
-- Which names crates/chudbot-vibe/src/names.rs accepts.
use chudbot.Common.{
  ℕ, ◌≤◌, Bool, true, false, ◌&&◌, ◌||◌, not, ◌≡◌, ◌≢◌, ◌↔◌, refl, sym, ap, ◌∙◌, inl, inr, some,
  List, [], ◌∷◌, if◌then◌else◌, all, leb, ltb, length, Text, codes, text_eq, text_eq_iff,
  starts_with, Result, ok, err, Option-cases, eq_of_some, arith,
}
use chudbot.Model.Output.{last}
use chudbot.Agent.Tools.{contains}
use chudbot.Vibe.Names.{
  is_name_character, lowercase, to_ascii_lowercase, byte_length, is_ascii_alphanumeric,
  is_alphanumeric_end, first, validate,
}

-- A DNS label of 3 to 63 characters that is not reserved.
unfoldable pub IsSiteName : List Text → Text → Type 0
unfolding is_name_character last starts_with text_eq
IsSiteName reserved name =
    3 ≤ length name
    × length name ≤ 63
    × (all is_name_character name ≡ true)
    × (first name ≢ some 45)
    × (last name ≢ some 45)
    × (starts_with (codes "xn--") name ≡ false)
    × (contains name reserved ≡ false)

plain :
    (name : Text)
    → all is_name_character name ≡ true
    → (all (λ c. ltb c 128) name ≡ true)
      × (to_ascii_lowercase name ≡ name)
      × (byte_length name ≡ length name)
unfolding is_name_character to_ascii_lowercase byte_length
plain [] h = (refl, refl, refl)
plain (c ∷ name) h =
    let (ascii, lower, bytes) = plain name (ground (arith, h)) in
    let here : is_name_character c ≡ true = ground (arith, h) in
    let small : ltb c 128 ≡ true = ground (arith, here) in
    let same : lowercase c ≡ c = ground (arith, here) in
    (rw (small) ascii, rw (same, lower) refl, rw (small, bytes) (omega arith))

last-all :
    (p : ℕ → Bool) (name : Text) (c : ℕ) → all p name ≡ true → last name ≡ some c → p c ≡ true
unfolding last
last-all p [] c h e = cc
last-all p (x ∷ name) c h e = elim (Option-cases (last name)) [
  | inl gone ↦ (let same : x ≡ c = eq_of_some (rw (gone) at e) in rw (sym same) (ground (arith, h)))
  | inr (y, found) ↦
      (let same : y ≡ c = eq_of_some (rw (found) at e) in
        last-all p name c (ground (arith, h)) (found ∙ ap some same))
]

alphanumeric : (c : ℕ) → is_name_character c ≡ true → c ≢ 45 → is_ascii_alphanumeric c ≡ true
unfolding is_name_character
alphanumeric c h other = ground (arith, h, other)

abbrev passed : Result Text (Unit {0})
passed = ok tt

-- Six tests, one after the other.
all_pass :
    (b1 b2 b3 b4 b5 b6 : Bool) (e1 e2 e3 e4 e5 e6 : Text)
    → ((if b1
          then err e1
          else if b2
          then err e2
          else if b3
          then err e3
          else if b4
          then err e4
          else if b5
          then err e5
          else if b6
          then err e6
          else passed)
        ≡ passed)
      ↔ ((b1 ≡ false) × (b2 ≡ false) × (b3 ≡ false) × (b4 ≡ false) × (b5 ≡ false) × (b6 ≡ false))
all_pass true b2 b3 b4 b5 b6 e1 e2 e3 e4 e5 e6 = ((λ h. cc), (λ h. cc))
all_pass false true b3 b4 b5 b6 e1 e2 e3 e4 e5 e6 = ((λ h. cc), (λ h. cc))
all_pass false false true b4 b5 b6 e1 e2 e3 e4 e5 e6 = ((λ h. cc), (λ h. cc))
all_pass false false false true b5 b6 e1 e2 e3 e4 e5 e6 = ((λ h. cc), (λ h. cc))
all_pass false false false false true b6 e1 e2 e3 e4 e5 e6 = ((λ h. cc), (λ h. cc))
all_pass false false false false false true e1 e2 e3 e4 e5 e6 = ((λ h. cc), (λ h. cc))
all_pass false false false false false false e1 e2 e3 e4 e5 e6 =
    ((λ h. (refl, refl, refl, refl, refl, refl)), (λ h. refl))

abbrev bad_size : Text → Bool
bad_size name = not (leb 3 (byte_length name) && leb (byte_length name) 63)

abbrev bad_case : Text → Bool
bad_case name = not (all (λ c. ltb c 128) name) || not (text_eq name (to_ascii_lowercase name))

abbrev bad_ends : Text → Bool
bad_ends name = not (is_alphanumeric_end (first name)) || not (is_alphanumeric_end (last name))

validate_lem :
    (reserved : List Text) (name : Text)
    → (validate reserved name ≡ ok tt) ↔ (
        (bad_size name ≡ false)
        × (bad_case name ≡ false)
        × (starts_with (codes "xn--") name ≡ false)
        × (contains name reserved ≡ false)
        × (bad_ends name ≡ false)
        × (not (all is_name_character name) ≡ false))
unfolding validate
validate_lem reserved name =
    all_pass (bad_size name) (bad_case name) (starts_with (codes "xn--") name)
      (contains name reserved) (bad_ends name) (not (all is_name_character name)) _ _ _ _ _ _

first_end :
    (name : Text)
    → 3 ≤ length name
    → all is_name_character name ≡ true
    → first name ≢ some 45
    → is_alphanumeric_end (first name) ≡ true
first_end [] long h other = ground (arith, long)
first_end (c ∷ name) long h other =
    alphanumeric c (ground (arith, h)) (λ same. other (ap some same))

last_end :
    (name : Text)
    → 3 ≤ length name
    → all is_name_character name ≡ true
    → last name ≢ some 45
    → is_alphanumeric_end (last name) ≡ true
unfolding last
last_end [] long h other = ground (arith, long)
last_end (x ∷ name) long h other = elim (Option-cases (last name)) [
  | inl gone ↦
      rw (gone) (alphanumeric x (ground (arith, h)) (λ same. other (rw (gone) (ap some same))))
  | inr (y, found) ↦ rw (found) (
      alphanumeric y (last-all is_name_character name y (ground (arith, h)) found)
        (λ same. other (rw (found) (ap some same))))
]

accepted :
    (reserved : List Text) (name : Text) → validate reserved name ≡ ok tt → IsSiteName reserved name
unfolding IsSiteName
accepted reserved name h =
    let (size, lower, dns, free, ends, characters) = (validate_lem reserved name).0 h in
    let every : all is_name_character name ≡ true = ground (arith, characters) in
    let (_, _, bytes) = plain name every in
    let head : is_alphanumeric_end (first name) ≡ true = ground (arith, ends) in
    let end : is_alphanumeric_end (last name) ≡ true = ground (arith, ends) in
    (
      ground (arith, size, bytes),
      ground (arith, size, bytes),
      every,
      (λ e. cc (rw (e) at head)),
      (λ e. cc (rw (e) at end)),
      dns,
      free,
    )

-- A name is accepted exactly if it has 3 to 63 characters, each a lowercase letter, a digit or
-- a hyphen, with no hyphen at either end, does not start with `xn--` and is not reserved.
pub validate-IsSiteName :
    (reserved : List Text) (name : Text)
    → (validate reserved name ≡ ok tt) ↔ IsSiteName reserved name
unfolding IsSiteName
validate-IsSiteName reserved name = (accepted reserved name, fine)
  where
    fine : IsSiteName reserved name → validate reserved name ≡ ok tt
    fine (low, high, every, head, end, dns, free) =
        let (ascii, lower, bytes) = plain name every in
        let same : text_eq name (to_ascii_lowercase name) ≡ true =
          (text_eq_iff _ _).1 (sym lower) in
        let first_good = first_end name low every head in
        let last_good = last_end name low every end in
        (validate_lem reserved name).1 (
          ground (arith, low, high, bytes),
          ground (arith, ascii, same),
          dns,
          free,
          ground (arith, first_good, last_good),
          ground (arith, every),
        )
