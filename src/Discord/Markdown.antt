-- ===== src/Discord/Markdown.antt =====
-- Markdown segments and code fences in crates/chudbot-discord/src/lib.rs.
use mathlib.Core.Option
use chudbot.Common.{
  ℕ, ◌+◌, Bool, false, ◌&&◌, ◌||◌, Option, none, some, List, [], ◌∷◌, ◌++◌, if◌then◌else◌, leb,
  ◌==◌, replicate, is_empty, Text, trim_start,
}

abbrev pub code_fence_min_width : ℕ
code_fence_min_width = 3

-- The lines, each with its ending: what repeated `next_line_end` cuts off.
unfoldable pub lines : Text → List Text
lines [] = []
lines (c ∷ t) =
    if c == 10
    then (c ∷ []) ∷ lines t
    else (elim (lines t) [ [] ↦ (c ∷ []) ∷ [] | line ∷ rest ↦ (c ∷ line) ∷ rest ])

-- `strip_suffix` of a character, or the text itself.
unfoldable pub strip_last : ℕ → Text → Text
strip_last c [] = []
strip_last c (d ∷ []) = if d == c then [] else d ∷ []
strip_last c (d ∷ e ∷ t) = d ∷ strip_last c (e ∷ t)

unfoldable pub trim_line_ending : Text → Text
unfolding strip_last
trim_line_ending line = strip_last 13 (strip_last 10 line)

pub record CodeFenceMarker : Type 0 where
  pub marker : ℕ
  pub width : ℕ

-- How many characters the text starts with that are the given one.
unfoldable pub run_of : ℕ → Text → ℕ
run_of c [] = 0
run_of c (d ∷ t) = let rest = run_of c t in if d == c then rest + 1 else 0

unfoldable pub marker_of : Text → Option CodeFenceMarker
unfolding run_of
marker_of [] = none
marker_of (c ∷ t) =
    if (c == b'`' || c == b'~') && leb code_fence_min_width (run_of c (c ∷ t))
    then some (record { marker = c; width = run_of c (c ∷ t) })
    else none

unfoldable pub code_fence_marker : Text → Option CodeFenceMarker
unfolding marker_of trim_start
code_fence_marker line = marker_of (trim_start line)

unfoldable pub closes : CodeFenceMarker → Text → Bool
unfolding code_fence_marker
closes fence line = elim (code_fence_marker line) [
  | none ↦ false
  | some candidate ↦ candidate.marker == fence.marker && leb fence.width candidate.width
]

abbrev pub closing_line : CodeFenceMarker → Text
closing_line fence = replicate fence.width fence.marker

pub data MarkdownSegment : Type 0 where
  text code_fence : Text → MarkdownSegment

abbrev pub text_before : Text → List MarkdownSegment
text_before t = if is_empty t then [] else text t ∷ []

-- The loop over the lines: the text since `text_start`, and the open fence since `fence_start`.
unfoldable pub segments_from :
    Text → Option (CodeFenceMarker × Text) → List Text → List MarkdownSegment
unfolding code_fence_marker closes trim_line_ending
segments_from before none [] = text_before before
segments_from before (some (marker, fence)) [] = code_fence fence ∷ []
segments_from before none (line ∷ rest) =
    let outside = segments_from (before ++ line) none rest in
    elim (code_fence_marker (trim_line_ending line)) [
      | none ↦ outside
      | some marker ↦ text_before before ++ segments_from [] (some (marker, line)) rest
    ]
segments_from before (some (marker, fence)) (line ∷ rest) =
    let closed = segments_from [] none rest in
    let still_open = segments_from before (some (marker, fence ++ line)) rest in
    if closes marker (trim_line_ending line)
    then code_fence (fence ++ line) ∷ closed
    else still_open

unfoldable pub markdown_segments : Text → List MarkdownSegment
unfolding lines segments_from
markdown_segments content = segments_from [] none (lines content)

-- The lines before the first that closes the fence.
unfoldable pub body_until : CodeFenceMarker → List Text → Text
unfolding closes trim_line_ending
body_until marker [] = []
body_until marker (line ∷ rest) =
    let later = body_until marker rest in
    if closes marker (trim_line_ending line) then [] else line ++ later

unfoldable pub parts_of_lines : List Text → Option (Text × Text × CodeFenceMarker)
unfolding code_fence_marker trim_line_ending body_until
parts_of_lines [] = none
parts_of_lines (opening ∷ rest) =
    Option.map (λ marker. (opening, body_until marker rest, marker))
      (code_fence_marker (trim_line_ending opening))

unfoldable pub code_fence_parts : Text → Option (Text × Text × CodeFenceMarker)
unfolding lines parts_of_lines
code_fence_parts segment = parts_of_lines (lines segment)
