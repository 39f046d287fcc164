-- ===== src/Replay/Strip.antt =====
-- The removal of media references from a reply in crates/chudbot-bot/src/transcript.rs. A text is its
-- characters, so a byte position of the source is a number of characters here.
pub mod Laws
pub mod Tests
use mathlib.Core.List.{reverse}
use chudbot.Common.{
  ℕ, zero, suc, ◌+◌, ◌-◌, Bool, true, false, not, ◌&&◌, Option, none, some, List, [], ◌∷◌, ◌++◌,
  take, drop, length, if◌then◌else◌, ltb, ◌==◌, is_empty, any, Text, codes, starts_with, text_eq,
  trim, trim_start,
}

-- `str::find`.
unfoldable pub find : Text → Text → Option ℕ
unfolding starts_with
find needle [] = if is_empty needle then some 0 else none
find needle (c ∷ text) =
    let later = find needle text in
    if starts_with needle (c ∷ text)
    then some 0
    else elim later [ none ↦ none | some i ↦ some (suc i) ]

-- `str::rfind` of a character.
unfoldable pub rfind_char : ℕ → Text → Option ℕ
rfind_char c [] = none
rfind_char c (d ∷ text) =
    let later = rfind_char c text in
    elim later [ some i ↦ some (suc i) | none ↦ if d == c then some 0 else none ]

-- Whether the character at a position is the given one.
unfoldable pub is_at : ℕ → ℕ → Text → Bool
is_at i c [] = false
is_at zero c (d ∷ text) = d == c
is_at (suc i) c (d ∷ text) = is_at i c text

-- The parts of the checks before the walk back: the text in front of `(` ends with `]`.
unfoldable pub link_label_start : Text → ℕ → Option ℕ
unfolding is_at rfind_char
link_label_start text zero = none
link_label_start text (suc close_bracket) =
    if is_at close_bracket 93 text then rfind_char 91 (take close_bracket text) else none

-- `reference_start` and `reference_len` are the position and the length of the reference.
unfoldable pub markdown_link_bounds : Text → ℕ → ℕ → Option (ℕ × ℕ)
unfolding is_at link_label_start
markdown_link_bounds text zero reference_len = none
markdown_link_bounds text (suc open_paren) reference_len =
    let close_paren = suc open_paren + reference_len in
    if is_at open_paren 40 text && is_at close_paren 41 text
    then (elim (link_label_start text open_paren) [
      | none ↦ none
      | some open_bracket ↦
          if ltb 0 open_bracket && is_at (open_bracket - 1) 33 text
          then some (open_bracket - 1, close_paren + 1)
          else some (open_bracket, close_paren + 1)
    ])
    else none

-- What the body of the loop removes for a reference at `index`.
unfoldable pub removal_bounds : Text → ℕ → ℕ → ℕ × ℕ
unfolding markdown_link_bounds
removal_bounds text index reference_len = elim (markdown_link_bounds text index reference_len) [
  | none ↦ (index, index + reference_len)
  | some bounds ↦ bounds
]

-- The `while` loop; `none` when the fuel does not last.
unfoldable pub strip_reference : ℕ → Text → Text → Option Text
unfolding find removal_bounds
strip_reference zero reference out = none
strip_reference (suc fuel) reference out = elim (find reference out) [
  | none ↦ some out
  | some index ↦
      (let bounds = removal_bounds out index (length reference) in
        strip_reference fuel reference (take bounds.0 out ++ drop bounds.1 out))
]

-- The loop over the references, with the fuel that a text of its length needs.
unfoldable pub strip_references : Text → List Text → Option Text
unfolding strip_reference
strip_references out [] = some out
strip_references out (reference ∷ refs) =
    if is_empty reference
    then strip_references out refs
    else elim (strip_reference (length out + 1) reference out) [
      | none ↦ none
      | some next ↦ strip_references next refs
    ]

-- The lines of `str::lines`, `line` being the reversed one under way. A `\r` at its end is left to
-- `trim_end`.
unfoldable pub lines_from : Text → Text → List Text
lines_from line [] = if is_empty line then [] else reverse line ∷ []
lines_from line (c ∷ text) =
    let next = lines_from [] text in
    let more = lines_from (c ∷ line) text in if c == 10 then reverse line ∷ next else more

unfoldable pub trim_end : Text → Text
unfolding trim_start
trim_end line = reverse (trim_start (reverse line))

-- The loop over the lines, with `previous_blank`.
unfoldable pub normalized_lines : Bool → List Text → List Text
unfolding trim_end trim
normalized_lines previous_blank [] = []
normalized_lines previous_blank (line ∷ lines) =
    let after_blank = normalized_lines true lines in
    let after_text = normalized_lines false lines in
    if is_empty (trim (trim_end line))
    then if previous_blank then after_blank else [] ∷ after_blank
    else trim_end line ∷ after_text

-- The empty lines at the end are popped.
unfoldable pub drop_empty : List Text → List Text
drop_empty [] = []
drop_empty ([] ∷ lines) = drop_empty lines
drop_empty ((c ∷ line) ∷ lines) = (c ∷ line) ∷ lines

unfoldable pub join_lines : List Text → Text
join_lines [] = []
join_lines (line ∷ []) = line
join_lines (line ∷ next ∷ lines) = line ++ (10 ∷ join_lines (next ∷ lines))

unfoldable pub normalize_stripped_reply : Text → Text
unfolding lines_from normalized_lines drop_empty join_lines
normalize_stripped_reply text =
    join_lines (reverse (drop_empty (reverse (normalized_lines true (lines_from [] text)))))

unfoldable pub strip_generated_media_refs : Text → List Text → Option Text
unfolding strip_references normalize_stripped_reply
strip_generated_media_refs text [] = some text
strip_generated_media_refs text (reference ∷ refs) =
    elim (strip_references text (reference ∷ refs)) [
      | none ↦ none
      | some out ↦ some (normalize_stripped_reply out)
    ]
