-- ===== src/Vibe/Names.antt =====
-- Names of vibe sites, crates/chudbot-vibe/src/names.rs.
pub mod Laws
pub mod Tests
use chudbot.Common.{
  ℕ, ◌+◌, Bool, true, false, ◌&&◌, ◌||◌, not, Option, none, some, List, [], ◌∷◌, ◌++◌, map,
  if◌then◌else◌, all, leb, ltb, length, Text, codes, text_eq, starts_with, Result, ok, err, ◌==◌,
}
use chudbot.Model.Output.{last}
use chudbot.Agent.Tools.{contains}

pub data NameAvailability : Type 0 where
  available unavailable invalid : NameAvailability

pub record NameCheck : Type 0 where
  pub name : Text
  pub availability : NameAvailability

abbrev pub builtin_reserved : List Text
builtin_reserved =
    codes "src"
    ∷ codes "www"
    ∷ codes "api"
    ∷ codes "admin"
    ∷ codes "static"
    ∷ codes "status"
    ∷ codes "mail"
    ∷ []

abbrev pub is_ascii_lowercase : ℕ → Bool
is_ascii_lowercase c = leb 97 c && leb c 122

abbrev pub is_ascii_digit : ℕ → Bool
is_ascii_digit c = leb 48 c && leb c 57

abbrev pub is_ascii_uppercase : ℕ → Bool
is_ascii_uppercase c = leb 65 c && leb c 90

abbrev pub is_ascii_alphanumeric : ℕ → Bool
is_ascii_alphanumeric c = is_ascii_lowercase c || is_ascii_uppercase c || is_ascii_digit c

-- `char::to_ascii_lowercase`.
abbrev pub lowercase : ℕ → ℕ
lowercase c = if is_ascii_uppercase c then c + 32 else c

unfoldable pub to_ascii_lowercase : Text → Text
to_ascii_lowercase name = map lowercase name

-- The bytes of a code point in UTF-8.
abbrev pub utf8_size : ℕ → ℕ
utf8_size c = if ltb c 128 then 1 else if ltb c 2048 then 2 else if ltb c 65536 then 3 else 4

-- `str::len`.
unfoldable pub byte_length : Text → ℕ
byte_length [] = 0
byte_length (c ∷ name) = utf8_size c + byte_length name

unfoldable pub is_name_character : ℕ → Bool
is_name_character c = is_ascii_lowercase c || is_ascii_digit c || c == 45

-- `VibeNames::new`: the reserved names.
unfoldable pub vibe_names : List Text → List Text
unfolding to_ascii_lowercase
vibe_names configured = builtin_reserved ++ map to_ascii_lowercase configured

abbrev pub is_alphanumeric_end : Option ℕ → Bool
is_alphanumeric_end found = elim found [ none ↦ false | some c ↦ is_ascii_alphanumeric c ]

abbrev pub first : Text → Option ℕ
first [] = none
first (c ∷ name) = some c

unfoldable pub validate : List Text → Text → Result Text (Unit {0})
unfolding byte_length to_ascii_lowercase text_eq starts_with last is_name_character
validate reserved name =
    if not (leb 3 (byte_length name) && leb (byte_length name) 63)
    then err (codes "name must contain 3 to 63 characters")
    else if not (all (λ c. ltb c 128) name) || not (text_eq name (to_ascii_lowercase name))
    then err (codes "name must be lowercase ASCII")
    else if starts_with (codes "xn--") name
    then err (codes "internationalized DNS labels are reserved")
    else if contains name reserved
    then err (codes "name is reserved")
    else if not (is_alphanumeric_end (first name)) || not (is_alphanumeric_end (last name))
    then err (codes "name must start and end with a letter or digit")
    else if not (all is_name_character name)
    then err (codes "name may contain only lowercase letters, digits, and hyphens")
    else ok tt

unfoldable pub check_name : List Text → List Text → Text → NameCheck
unfolding validate
check_name reserved unavailable_names name = record {
  name = name;
  availability = elim (validate reserved name) [
    | err _ ↦ NameAvailability.invalid
    | ok _ ↦
        if contains name unavailable_names
        then NameAvailability.unavailable
        else NameAvailability.available
  ];
}

unfoldable pub check_batch : List Text → List Text → List Text → Result Text (List NameCheck)
unfolding check_name
check_batch reserved candidates unavailable_names =
    if ltb 8 (length candidates)
    then err (codes "at most 8 names may be checked at once")
    else ok (map (check_name reserved unavailable_names) candidates)
