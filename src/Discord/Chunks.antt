-- ===== src/Discord/Chunks.antt =====
-- The chunks that crates/chudbot-discord/src/lib.rs sends for one message.
use mathlib.Core.Option
use mathlib.Core.List.{append-nil, append_assoc}
use chudbot.Common.{
  ◌+◌, ◌≤◌, ◌≢◌, ◌≡◌, refl, sym, ap, ◌∙◌, inl, inr, Option, some, List, [], ◌∷◌, ◌++◌, arith, leb,
  if◌then◌else◌, length, length-append, is_empty, All, All-append, concat, Text, Bool-cases, le→leb,
}
use chudbot.Discord.Markdown.{MarkdownSegment, markdown_segments}
use chudbot.Discord.{
  discord_message_limit, text_separators, Splitting, taken, append_discord_chunk, append_pieces,
  segment_pieces, append_segments, finished_chunks, split_discord_content,
}
use chudbot.Discord.Points.{split_segment-Cut}
use chudbot.Discord.Segments.{segment_text, all_text, all_text-markdown_segments}
use chudbot.Discord.Fences.{split_code_fence_segment-Split}

abbrev pub IsShort : Text → Type 0
IsShort c = length c ≤ discord_message_limit

abbrev IsShortState : Splitting → Type 0
IsShortState s = All IsShort s.chunks × IsShort s.current

-- All that is in the chunks so far.
abbrev written : Splitting → Text
written s = concat s.chunks ++ s.current

concat-append : (a b : List Text) → concat (a ++ b) ≡ concat a ++ concat b
concat-append [] b = refl
concat-append (x ∷ a) b =
    ap (λ t. x ++ t) (concat-append a b) ∙ sym (append_assoc x (concat a) (concat b))

concat-snoc : (a : List Text) (x : Text) → concat (a ++ x ∷ []) ≡ concat a ++ x
concat-snoc a x = concat-append a (x ∷ []) ∙ ap (λ t. concat a ++ t) (append-nil x)

taken-IsShort :
    (chunks : List Text) (current : Text)
    → All IsShort chunks
    → IsShort current
    → All IsShort (taken (record { chunks = chunks; current = current }))
taken-IsShort chunks [] h k = h
taken-IsShort chunks (c ∷ t) h k = All-append IsShort chunks _ h (k, tt)

concat-taken :
    (chunks : List Text) (current : Text)
    → concat (taken (record { chunks = chunks; current = current })) ≡ concat chunks ++ current
concat-taken chunks [] = sym (append-nil (concat chunks))
concat-taken chunks (c ∷ t) = concat-snoc chunks (c ∷ t)

-- The text is added, and no chunk gets too long.
record Appended (s : Splitting) (more : Text) (result : Option Splitting) : Type 0 where
  next : Splitting
  returned : result ≡ some next
  short : IsShortState next
  text : written next ≡ written s ++ more

append_discord_chunk-Appended :
    (piece : Text) (s : Splitting)
    → IsShort piece
    → IsShortState s
    → Appended s piece (append_discord_chunk piece s)
unfolding append_discord_chunk
append_discord_chunk-Appended [] s p v = record {
  next = s;
  returned = refl;
  short = v;
  text = sym (append-nil (written s));
}
append_discord_chunk-Appended (c ∷ piece) s p v =
    elim (Bool-cases (leb (length s.current + length (c ∷ piece)) discord_message_limit)) [
      | inl room ↦ record {
        next = record s { current = s.current ++ c ∷ piece };
        returned = rw room refl;
        short = (v.0, (let l = length-append s.current (c ∷ piece) in ground arith));
        text = sym (append_assoc (concat s.chunks) s.current (c ∷ piece));
      }
      | inr full ↦ record {
        next = record { chunks = taken s; current = c ∷ piece };
        returned = rw (full, le→leb (length (c ∷ piece)) discord_message_limit p) refl;
        short = (taken-IsShort s.chunks s.current v.0 v.1, p);
        text = ap (λ t. t ++ c ∷ piece) (concat-taken s.chunks s.current);
      }
    ]

append_pieces-Appended :
    (pieces : List Text) (s : Splitting)
    → All IsShort pieces
    → IsShortState s
    → Appended s (concat pieces) (append_pieces pieces s)
unfolding append_pieces
append_pieces-Appended [] s h v = record {
  next = s;
  returned = refl;
  short = v;
  text = sym (append-nil (written s));
}
append_pieces-Appended (piece ∷ rest) s (p, h) v =
    let first = append_discord_chunk-Appended piece s p v in
    let later = append_pieces-Appended rest first.next h first.short in
    record {
      next = later.next;
      returned = rw (first.returned, append_pieces) later.returned;
      short = later.short;
      text =
          later.text
          ∙ (ap (λ t. t ++ concat rest) first.text ∙ append_assoc (written s) piece (concat rest));
    }

-- A segment that is sent as it is: a text, or a fence that fits.
abbrev pub FitsWhole : MarkdownSegment → Type 0
FitsWhole (MarkdownSegment.text t) = Unit
FitsWhole (MarkdownSegment.code_fence t) = length t ≤ discord_message_limit

record Pieces (segment : MarkdownSegment) : Type 0 where
  pieces : List Text
  returned : segment_pieces segment ≡ some pieces
  short : All IsShort pieces
  whole : FitsWhole segment → concat pieces ≡ segment_text segment

Pieces-segment : (segment : MarkdownSegment) → Pieces segment
unfolding segment_pieces
Pieces-segment (MarkdownSegment.text t) =
    let cut = split_segment-Cut text_separators t discord_message_limit (omega arith) in
    record {
      pieces = cut.pieces;
      returned = cut.returned;
      short = cut.short;
      whole = λ _. cut.joined;
    }
Pieces-segment (MarkdownSegment.code_fence t) =
    let split = split_code_fence_segment-Split t in
    record {
      pieces = split.pieces;
      returned = split.returned;
      short = split.short;
      whole = λ fits. elim split.whole [
        | inl (joined, _) ↦ joined
        | inr (long, _) ↦ absurd (omega arith)
      ];
    }

-- The state after some segments.
record Sent (segments : List MarkdownSegment) (s : Splitting) : Type 0 where
  next : Splitting
  returned : append_segments segments s ≡ some next
  short : IsShortState next
  text : All FitsWhole segments → written next ≡ written s ++ all_text segments

sent : (segments : List MarkdownSegment) (s : Splitting) → IsShortState s → Sent segments s
unfolding append_segments
sent [] s v = record {
  next = s;
  returned = refl;
  short = v;
  text = λ _. sym (append-nil (written s));
}
sent (segment ∷ rest) s v =
    let p = Pieces-segment segment in
    let first = append_pieces-Appended p.pieces s p.short v in
    let later = sent rest first.next first.short in
    record {
      next = later.next;
      returned = rw (p.returned, first.returned, append_segments) later.returned;
      short = later.short;
      text = λ (whole, all).
          later.text all
          ∙ (ap (λ t. t ++ all_text rest) (first.text ∙ ap (λ t. written s ++ t) (p.whole whole))
              ∙ append_assoc (written s) (segment_text segment) (all_text rest));
    }

finished-IsShort : (l : List Text) → All IsShort l → All IsShort (if is_empty l then [] ∷ [] else l)
finished-IsShort [] h = (omega arith, tt)
finished-IsShort (c ∷ l) h = h

concat-finished : (l : List Text) → concat (if is_empty l then [] ∷ [] else l) ≡ concat l
concat-finished [] = refl
concat-finished (c ∷ l) = refl

finished-ne : (l : List Text) → (if is_empty l then [] ∷ [] else l) ≢ []
finished-ne [] = ground arith
finished-ne (c ∷ l) = ground arith

-- Splitting a message always returns, with at least one chunk, and no chunk is longer than the 2000
-- characters that Discord accepts.
pub split_discord_content-IsShort :
    (content : Text)
    → (chunks : List Text) × (split_discord_content content ≡ some chunks)
      × (chunks ≢ [])
      × All IsShort chunks
unfolding split_discord_content
split_discord_content-IsShort [] = ([] ∷ [], refl, ground arith, (omega arith, tt))
split_discord_content-IsShort (c ∷ t) =
    let s =
      sent (markdown_segments (c ∷ t)) (record { chunks = []; current = [] }) (tt, omega arith) in
    (
      finished_chunks s.next,
      rw s.returned refl,
      finished-ne (taken s.next),
      finished-IsShort (taken s.next)
          (taken-IsShort s.next.chunks s.next.current s.short.0 s.short.1),
    )

-- A message none of whose code fences is too long for one chunk is sent unchanged: its chunks joined
-- are the message.
pub concat-split_discord_content :
    (content : Text)
    → All FitsWhole (markdown_segments content)
    → Option.map concat (split_discord_content content) ≡ some content
unfolding split_discord_content
concat-split_discord_content [] h = refl
concat-split_discord_content (c ∷ t) h =
    let s =
      sent (markdown_segments (c ∷ t)) (record { chunks = []; current = [] }) (tt, omega arith) in
    let e =
      concat-finished (taken s.next)
      ∙ (concat-taken s.next.chunks s.next.current
          ∙ (s.text h ∙ all_text-markdown_segments (c ∷ t))) in
    rw s.returned (ap some e)
