-- ===== src/Discord/Fences.antt =====
-- The splitting of a code fence in crates/chudbot-discord/src/lib.rs.
pub mod Parts
use mathlib.Core.Option
use mathlib.Core.List.{append-nil}
use chudbot.Common.{
  if◌then◌else◌, replicate, sym, ap, ◌∙◌, none, Bool, false, ◌+◌, ◌-◌, ◌≤◌, ◌≡◌, refl, ◌<◌, ◌⊎◌,
  inl, inr, Option, some, List, [], ◌∷◌, ◌++◌, map, arith, leb, length, length-append, All, concat,
  Text, Bool-cases, Option-cases, leb→le,
}
use chudbot.Discord.Markdown.{
  CodeFenceMarker, closing_line, code_fence_parts, parts_of_lines, body_until, lines,
  trim_line_ending, code_fence_marker, closes,
}
use chudbot.Discord.Segments.{concat-lines}
use chudbot.Discord.Fences.Parts.{IsClosedBy, code_fence_parts-IsFence}
use chudbot.Discord.{
  discord_message_limit, code_separators, text_separators, split_text_segment, overhead,
  ends_with_newline, balanced_code_chunk, split_code_fence_segment,
}
use chudbot.Discord.Points.{Cut, split_segment-Cut}

length-balanced_code_chunk :
    (opening body closing : Text)
    → length (balanced_code_chunk opening body closing)
      ≤ length opening + length closing + 1 + length body
unfolding balanced_code_chunk
length-balanced_code_chunk opening body closing =
    elim (Bool-cases (ends_with_newline (opening ++ body))) [
      | inl ends ↦
          rw ends
            (omega (arith, length-append (opening ++ body) closing, length-append opening body))
      | inr without ↦ rw without (
          omega (
            arith,
            length-append ((opening ++ body) ++ 10 ∷ []) closing,
            length-append (opening ++ body) (10 ∷ []),
            length-append opening body,
          ))
    ]

-- One of the pieces of a long fence: the opening line, a part of the body, and a closing line of as many
-- markers, which stands on a line of its own.
abbrev pub fenced : Text → CodeFenceMarker → Text → Text
fenced opening marker part =
    opening
    ++ part
    ++ (if ends_with_newline (opening ++ part) then [] else 10 ∷ [])
    ++ replicate marker.width marker.marker

fenced-balanced_code_chunk :
    (opening : Text) (marker : CodeFenceMarker) (part : Text)
    → balanced_code_chunk opening part (closing_line marker) ≡ fenced opening marker part
unfolding balanced_code_chunk
fenced-balanced_code_chunk opening marker part =
    elim (Bool-cases (ends_with_newline (opening ++ part))) [
      | inl ends ↦ rw (ends, append-nil (opening ++ part)) refl
      | inr without ↦ rw without refl
    ]

-- A long fence whose opening line leaves room: the lines of its body, which are those before the first
-- that closes it, in pieces, each a fence of its own.
pub record Balanced (segment : Text) (pieces : List Text) : Type 0 where
  pub opening : Text
  pub marker : CodeFenceMarker
  pub body_lines : List Text
  pub others : List Text
  pub cut : lines segment ≡ opening ∷ body_lines ++ others
  pub joined : concat (opening ∷ body_lines ++ others) ≡ segment
  pub opens : code_fence_marker (trim_line_ending opening) ≡ some marker
  pub within : All (λ line. closes marker (trim_line_ending line) ≡ false) body_lines
  pub closed : IsClosedBy marker others
  pub room : overhead opening marker < discord_message_limit
  pub parts : List Text
  pub parts_joined : concat parts ≡ concat body_lines
  pub chunks : pieces ≡ map (fenced opening marker) parts

-- The opening line, if there is one, leaves no room for a body.
abbrev pub IsTooWide : Text → Option CodeFenceMarker → Type 0
IsTooWide opening none = Unit
IsTooWide opening (some marker) = discord_message_limit ≤ overhead opening marker

abbrev pub IsUnbalanced : List Text → Type 0
IsUnbalanced [] = Unit
IsUnbalanced (opening ∷ _) = IsTooWide opening (code_fence_marker (trim_line_ending opening))

-- A segment in pieces that fit. Joined they are the segment, if that fits or cannot be balanced; or else
-- they are balanced.
pub record Split (segment : Text) (result : Option (List Text)) : Type 0 where
  pub pieces : List Text
  pub returned : result ≡ some pieces
  pub short : All (λ (c : Text). length c ≤ discord_message_limit) pieces
  pub whole :
      ((concat pieces ≡ segment)
        × ((length segment ≤ discord_message_limit) ⊎ IsUnbalanced (lines segment)))
      ⊎ ((discord_message_limit < length segment) × Balanced segment pieces)

Cut-Split :
    (segment : Text) (result : Option (List Text))
    → IsUnbalanced (lines segment)
    → Cut discord_message_limit segment result
    → Split segment result
Cut-Split segment result unbalanced c = record {
  pieces = c.pieces;
  returned = c.returned;
  short = c.short;
  whole = inl (c.joined, inr unbalanced);
}

no_parts-IsUnbalanced :
    (segment : Text) → code_fence_parts segment ≡ none → IsUnbalanced (lines segment)
unfolding code_fence_parts
no_parts-IsUnbalanced segment h = no_parts (lines segment) h
  where
    too_wide :
        (opening : Text) (rest : List Text) (found : Option CodeFenceMarker)
        → Option.map {B = Text × Text × CodeFenceMarker}
            (λ marker. (opening, body_until marker rest, marker))
            found
          ≡ none
        → IsTooWide opening found
    too_wide opening rest none e = tt
    too_wide opening rest (some marker) e = cc

    no_parts : (ls : List Text) → parts_of_lines ls ≡ none → IsUnbalanced ls
    no_parts [] e = tt
    no_parts (opening ∷ rest) e = too_wide opening rest _ e

parts-IsUnbalanced :
    (segment opening body : Text) (marker : CodeFenceMarker)
    → code_fence_parts segment ≡ some (opening, body, marker)
    → discord_message_limit ≤ overhead opening marker
    → IsUnbalanced (lines segment)
parts-IsUnbalanced segment opening body marker h wide =
    let p = code_fence_parts-IsFence segment opening body marker h in rw (p.cut, p.opens) wide

parts-Balanced :
    (segment opening body : Text) (marker : CodeFenceMarker)
    → code_fence_parts segment ≡ some (opening, body, marker)
    → overhead opening marker < discord_message_limit
    → (parts : List Text) → concat parts ≡ body
    → Balanced segment (map (λ b. balanced_code_chunk opening b (closing_line marker)) parts)
parts-Balanced segment opening body marker h room parts joined =
    let p = code_fence_parts-IsFence segment opening body marker h in
    record {
      opening = opening;
      marker = marker;
      body_lines = p.body_lines;
      others = p.others;
      cut = p.cut;
      joined = sym (ap concat p.cut) ∙ concat-lines segment;
      opens = p.opens;
      within = p.within;
      closed = p.closed;
      room = room;
      parts = parts;
      parts_joined = joined ∙ p.joined;
      chunks = all_fenced parts;
    }
  where
    all_fenced :
        (l : List Text)
        → map (λ b. balanced_code_chunk opening b (closing_line marker)) l
          ≡ map (fenced opening marker) l
    all_fenced [] = refl
    all_fenced (b ∷ l) = rw (fenced-balanced_code_chunk opening marker b, all_fenced l) refl

balanced-short :
    (opening : Text) (marker : CodeFenceMarker) (bodies : List Text)
    → overhead opening marker ≤ discord_message_limit
    → All (λ (c : Text). length c ≤ discord_message_limit - overhead opening marker) bodies
    → All
        (λ (c : Text). length c ≤ discord_message_limit)
        (map (λ b. balanced_code_chunk opening b (closing_line marker)) bodies)
balanced-short opening marker [] room h = tt
balanced-short opening marker (b ∷ rest) room (p, h) = (
  (let l = length-balanced_code_chunk opening b (closing_line marker) in omega arith),
  balanced-short opening marker rest room h,
)

-- Splitting a code fence returns, and no piece is longer than Discord allows; joined the pieces
-- are the segment if that fits in one message, or if it has no opening line or one that leaves
-- no room for a body; otherwise each piece is the opening line, a part of the body and a
-- closing line of as many markers, and the parts joined are the body: all the lines after the
-- first and before the one that closes the fence, or the end.
pub split_code_fence_segment-Split :
    (segment : Text) → Split segment (split_code_fence_segment segment)
unfolding split_code_fence_segment
split_code_fence_segment-Split segment =
    elim (Bool-cases (leb (length segment) discord_message_limit)) [
      | inl fits ↦ record {
        pieces = segment ∷ [];
        returned = rw fits refl;
        short = (leb→le _ _ fits, tt);
        whole = inl (append-nil segment, inl (leb→le _ _ fits));
      }
      | inr long ↦ elim (Option-cases (code_fence_parts segment)) [
        | inl no_parts ↦ rw (long, no_parts) (as_text (no_parts-IsUnbalanced segment no_parts))
        | inr ((opening, body, marker), parts) ↦
            elim (Bool-cases (leb discord_message_limit (overhead opening marker))) [
              | inl no_room ↦
                  rw (long, parts, no_room)
                    (as_text
                      (parts-IsUnbalanced segment opening body marker parts (leb→le _ _ no_room)))
              | inr room ↦
                  (let cut =
                      split_segment-Cut code_separators body
                        (discord_message_limit - overhead opening marker) (ground arith) in
                    record {
                      pieces =
                          map (λ b. balanced_code_chunk opening b (closing_line marker)) cut.pieces;
                      returned = rw (long, parts, room, cut.returned) refl;
                      short = balanced-short opening marker cut.pieces (ground arith) cut.short;
                      whole = inr (
                        ground arith,
                        parts-Balanced segment opening body marker parts (ground arith) cut.pieces
                            cut.joined,
                      );
                    })
            ]
      ]
    ]
  where
    as_text :
        IsUnbalanced (lines segment)
        → Split segment (split_text_segment segment discord_message_limit)
    as_text unbalanced =
        Cut-Split segment _ unbalanced
          (split_segment-Cut text_separators segment discord_message_limit (omega arith))
