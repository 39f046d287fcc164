-- ===== src/Discord/Segments.antt =====
-- The Markdown segments of crates/chudbot-discord/src/lib.rs, joined.
use mathlib.Core.List.{append_assoc}
use chudbot.Common.{
  ◌≡◌, refl, ap, ◌∙◌, inl, inr, Option, none, some, List, [], ◌∷◌, ◌++◌, map, ◌==◌, Text, concat,
  Bool-cases, Option-cases,
}
use chudbot.Discord.Markdown.{
  lines, trim_line_ending, CodeFenceMarker, code_fence_marker, closes, MarkdownSegment, text,
  code_fence, text_before, segments_from, markdown_segments,
}

pub concat-lines : (t : Text) → concat (lines t) ≡ t
unfolding lines
concat-lines [] = refl
concat-lines (c ∷ t) = elim (Bool-cases (c == 10)) [
  | inl newline ↦ rw newline (ap (λ r. c ∷ r) (concat-lines t))
  | inr other ↦ rw other (joined (lines t) (concat-lines t))
]
  where
    joined :
        (l : List Text)
        → concat l ≡ t
        → concat (elim l [ [] ↦ (c ∷ []) ∷ [] | line ∷ rest ↦ (c ∷ line) ∷ rest ]) ≡ c ∷ t
    joined [] e = ap (λ r. c ∷ r) e
    joined (line ∷ rest) e = ap (λ r. c ∷ r) e

abbrev pub segment_text : MarkdownSegment → Text
segment_text (text t) = t
segment_text (code_fence t) = t

-- The texts of segments, joined.
abbrev pub all_text : List MarkdownSegment → Text
all_text segments = concat (map segment_text segments)

-- What is not in a segment yet: the open fence, or the text before it.
abbrev unfinished : Text → Option (CodeFenceMarker × Text) → Text
unfinished before none = before
unfinished before (some (_, fence)) = fence

all_text-text_before :
    (before : Text) (rest : List MarkdownSegment)
    → all_text (text_before before ++ rest) ≡ before ++ all_text rest
all_text-text_before [] rest = refl
all_text-text_before (c ∷ before) rest = refl

all_text-segments_from :
    (before : Text) (active : Option (CodeFenceMarker × Text)) (ls : List Text)
    → all_text (segments_from before active ls) ≡ unfinished before active ++ concat ls
unfolding segments_from
all_text-segments_from [] none [] = refl
all_text-segments_from (c ∷ before) none [] = refl
all_text-segments_from before (some (marker, fence)) [] = refl
all_text-segments_from before none (line ∷ rest) =
    elim (Option-cases (code_fence_marker (trim_line_ending line))) [
      | inl no_fence ↦
          rw (no_fence, concat)
            (all_text-segments_from (before ++ line) none rest
              ∙ append_assoc before line (concat rest))
      | inr (marker, found) ↦
          rw (found, concat)
            (all_text-text_before before (segments_from [] (some (marker, line)) rest)
              ∙ ap (λ t. before ++ t) (all_text-segments_from [] (some (marker, line)) rest))
    ]
all_text-segments_from before (some (marker, fence)) (line ∷ rest) =
    elim (Bool-cases (closes marker (trim_line_ending line))) [
      | inl ends ↦
          rw (ends, concat)
            (ap (λ t. (fence ++ line) ++ t) (all_text-segments_from [] none rest)
              ∙ append_assoc fence line (concat rest))
      | inr goes_on ↦
          rw (goes_on, concat)
            (all_text-segments_from before (some (marker, fence ++ line)) rest
              ∙ append_assoc fence line (concat rest))
    ]

-- The segments of a message, text and code fences, joined in order are the message.
pub all_text-markdown_segments : (content : Text) → all_text (markdown_segments content) ≡ content
unfolding markdown_segments
all_text-markdown_segments content =
    all_text-segments_from [] none (lines content) ∙ concat-lines content
