-- ===== src/Discord.antt =====
-- The pure parts of crates/chudbot-discord/src/lib.rs: the splitting of a message into chunks that
-- Discord accepts; the child modules have the Markdown segments and the attachment batches. A text
-- is its characters, and a position is counted in characters: the source's byte positions all lie
-- between characters.
pub mod Markdown
pub mod Attachments
pub mod Points
pub mod Segments
pub mod Chunks
pub mod Fences
pub mod Batches
mod Tests
use mathlib.Core.Option
use chudbot.Common.{
  ℕ, zero, suc, ◌+◌, ◌-◌, ◌*◌, min, Bool, true, false, not, ◌&&◌, ◌||◌, Option, none, some, List,
  [], ◌∷◌, ◌++◌, map, if◌then◌else◌, ltb, leb, ◌==◌, length, take, drop, replicate, is_empty, Text,
  codes, starts_with, trim_start,
}
use chudbot.Discord.Markdown.{
  MarkdownSegment, markdown_segments, CodeFenceMarker, closing_line, code_fence_parts,
}

abbrev pub discord_message_limit : ℕ
discord_message_limit = 2000

-- `str::rfind`: where the last occurrence starts.
unfoldable pub rfind : Text → Text → Option ℕ
unfolding starts_with
rfind separator [] = if is_empty separator then some 0 else none
rfind separator (c ∷ t) = elim (rfind separator t) [
  | some position ↦ some (position + 1)
  | none ↦ if starts_with separator (c ∷ t) then some 0 else none
]

-- The loop over the separators: the end of the last occurrence of the first one that occurs.
unfoldable pub split_point : List Text → Text → ℕ → ℕ
unfolding rfind
split_point [] candidate limit = limit
split_point (separator ∷ rest) candidate limit = elim (rfind separator candidate) [
  | none ↦ split_point rest candidate limit
  | some position ↦
      if ltb 0 (position + length separator)
      then position + length separator
      else split_point rest candidate limit
]

abbrev pub text_separators : List Text
text_separators =
    (10 ∷ 10 ∷ [])
    ∷ (10 ∷ [])
    ∷ codes ". "
    ∷ codes "! "
    ∷ codes "? "
    ∷ codes "; "
    ∷ codes ", "
    ∷ codes ": "
    ∷ codes " "
    ∷ []

abbrev pub code_separators : List Text
code_separators = (10 ∷ []) ∷ codes " " ∷ codes "," ∷ codes ";" ∷ codes ":" ∷ []

-- `byte_index_after_chars`, counted in characters.
abbrev pub index_after_chars : Text → ℕ → ℕ
index_after_chars text max_chars = min max_chars (length text)

-- `find_text_split_point` and `find_code_split_point`, by their separators.
unfoldable pub find_split_point : List Text → Text → ℕ → ℕ
unfolding split_point
find_split_point separators text max_chars =
    split_point separators (take (index_after_chars text max_chars) text)
      (index_after_chars text max_chars)

-- The loop of `split_text_segment` and `split_code_body`; `none` means that the fuel ran out.
unfoldable pub split_loop : List Text → ℕ → ℕ → Text → Option (List Text)
unfolding find_split_point
split_loop separators zero max_chars remaining = none
split_loop separators (suc fuel) max_chars remaining =
    let split_at = find_split_point separators remaining max_chars in
    let rest = split_loop separators fuel max_chars (drop split_at remaining) in
    if ltb max_chars (length remaining)
    then Option.map (λ chunks. take split_at remaining ∷ chunks) rest
    else some (if is_empty remaining then [] else remaining ∷ [])

unfoldable pub split_segment : List Text → Text → ℕ → Option (List Text)
unfolding split_loop
split_segment separators text max_chars =
    if leb (length text) max_chars
    then some (text ∷ [])
    else split_loop separators (length text + 1) max_chars text

abbrev pub split_text_segment : Text → ℕ → Option (List Text)
split_text_segment = split_segment text_separators

abbrev pub split_code_body : Text → ℕ → Option (List Text)
split_code_body = split_segment code_separators

unfoldable pub ends_with_newline : Text → Bool
ends_with_newline [] = false
ends_with_newline (c ∷ []) = c == 10
ends_with_newline (c ∷ d ∷ t) = ends_with_newline (d ∷ t)

unfoldable pub balanced_code_chunk : Text → Text → Text → Text
unfolding ends_with_newline
balanced_code_chunk opening body closing =
    (if ends_with_newline (opening ++ body) then opening ++ body else (opening ++ body) ++ 10 ∷ [])
    ++ closing

-- The characters that each chunk of a fence needs besides its body.
abbrev pub overhead : Text → CodeFenceMarker → ℕ
overhead opening marker = length opening + length (closing_line marker) + 1

unfoldable pub split_code_fence_segment : Text → Option (List Text)
unfolding code_fence_parts split_segment balanced_code_chunk
split_code_fence_segment segment =
    if leb (length segment) discord_message_limit
    then some (segment ∷ [])
    else (elim (code_fence_parts segment) [
      | none ↦ split_text_segment segment discord_message_limit
      | some (opening, body, marker) ↦
          if leb discord_message_limit (overhead opening marker)
          then split_text_segment segment discord_message_limit
          else Option.map (map (λ b. balanced_code_chunk opening b (closing_line marker)))
              (split_code_body body (discord_message_limit - overhead opening marker))
    ])

-- `chunks` and `current`.
pub record Splitting : Type 0 where
  pub chunks : List Text
  pub current : Text

-- The chunks of a piece that is too long, as far as they fit.
abbrev pub fitting : List Text → List Text
fitting [] = []
fitting (c ∷ rest) = if leb (length c) discord_message_limit then c ∷ fitting rest else fitting rest

abbrev pub taken : Splitting → List Text
taken s = if is_empty s.current then s.chunks else s.chunks ++ s.current ∷ []

unfoldable pub append_discord_chunk : Text → Splitting → Option Splitting
unfolding split_segment
append_discord_chunk piece s =
    if is_empty piece
    then some s
    else if leb (length s.current + length piece) discord_message_limit
    then some (record s { current = s.current ++ piece })
    else if leb (length piece) discord_message_limit
    then some (record { chunks = taken s; current = piece })
    else Option.map (λ parts. record { chunks = taken s ++ fitting parts; current = [] })
        (split_text_segment piece discord_message_limit)

unfoldable pub append_pieces : List Text → Splitting → Option Splitting
unfolding append_discord_chunk
append_pieces [] s = some s
append_pieces (piece ∷ rest) s = elim (append_discord_chunk piece s) [
  | none ↦ none
  | some next ↦ append_pieces rest next
]

unfoldable pub segment_pieces : MarkdownSegment → Option (List Text)
unfolding split_segment split_code_fence_segment
segment_pieces (MarkdownSegment.text t) = split_text_segment t discord_message_limit
segment_pieces (MarkdownSegment.code_fence t) = split_code_fence_segment t

unfoldable pub append_segments : List MarkdownSegment → Splitting → Option Splitting
unfolding segment_pieces append_pieces
append_segments [] s = some s
append_segments (segment ∷ rest) s = elim (segment_pieces segment) [
  | none ↦ none
  | some pieces ↦ elim (append_pieces pieces s) [
    | none ↦ none
    | some next ↦ append_segments rest next
  ]
]

-- The chunks at the end; a message has at least one.
abbrev pub finished_chunks : Splitting → List Text
finished_chunks s = if is_empty (taken s) then [] ∷ [] else taken s

unfoldable pub split_discord_content : Text → Option (List Text)
unfolding markdown_segments append_segments
split_discord_content content =
    if is_empty content
    then some ([] ∷ [])
    else Option.map finished_chunks
        (append_segments (markdown_segments content) (record { chunks = []; current = [] }))
