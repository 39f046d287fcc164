-- ===== src/Discord/Tests.antt =====
-- Messages and attachments through the splitting of crates/chudbot-discord/src/lib.rs.
use mathlib.Core.Option
use chudbot.Common.{
  ◌≢◌, ◌≡◌, refl, some, List, [], ◌∷◌, ◌++◌, map, All, concat, replicate, Text, codes, arith,
  trim_start,
}
use chudbot.Discord.Markdown.{MarkdownSegment, markdown_segments}
use chudbot.Discord.{
  split_discord_content, split_code_fence_segment, find_split_point, text_separators,
}
use chudbot.Discord.Attachments.{OutgoingAttachment, discord_attachment_batches}
use chudbot.Discord.Segments.{all_text, all_text-markdown_segments}
use chudbot.Discord.Fences.{Split, split_code_fence_segment-Split}
use chudbot.Discord.Chunks.{IsShort, split_discord_content-IsShort, concat-split_discord_content}
use chudbot.Discord.Batches.{IsBatch, payload, outgoing_payload, discord_attachment_batches-IsBatch}

abbrev newline : Text
newline = 10 ∷ []

-- A text, a fence, and a text.
abbrev message : Text
message =
    codes "see"
    ++ newline
    ++ codes "```rs"
    ++ newline
    ++ codes "f()"
    ++ newline
    ++ codes "```"
    ++ newline
    ++ codes "ok"

has_three_segments :
    markdown_segments message
    ≡ MarkdownSegment.text (codes "see" ++ newline)
      ∷ MarkdownSegment.code_fence
          (codes "```rs" ++ newline ++ codes "f()" ++ newline ++ codes "```" ++ newline)
      ∷ MarkdownSegment.text (codes "ok")
      ∷ []
unfolding markdown_segments trim_start
has_three_segments = refl

splits_after_the_sentence : find_split_point text_separators (codes "One. Two three") 10 ≡ 5
unfolding find_split_point
splits_after_the_sentence = refl

split_discord_content-IsShort_example :
    (chunks : List Text) × (split_discord_content message ≡ some chunks)
    × (chunks ≢ [])
    × All IsShort chunks
split_discord_content-IsShort_example = split_discord_content-IsShort message

concat-split_discord_content_example :
    Option.map concat (split_discord_content message) ≡ some message
unfolding markdown_segments trim_start
concat-split_discord_content_example =
    concat-split_discord_content message (tt, (omega arith, (tt, tt)))

all_text-markdown_segments_example : all_text (markdown_segments message) ≡ message
all_text-markdown_segments_example = all_text-markdown_segments message

-- A fence of more than one message.
abbrev long_fence : Text
long_fence =
    codes "```rs" ++ newline ++ concat (replicate 600 (codes "f()" ++ newline)) ++ codes "```"

split_code_fence_segment-Split_example : Split long_fence (split_code_fence_segment long_fence)
split_code_fence_segment-Split_example = split_code_fence_segment-Split long_fence

abbrev twelve : List OutgoingAttachment
twelve = replicate 12 (record { filename = codes "a.png"; bytes = 1 ∷ [] })

discord_attachment_batches-IsBatch_example :
    All IsBatch (discord_attachment_batches twelve)
    × (map payload (concat (discord_attachment_batches twelve)) ≡ map outgoing_payload twelve)
discord_attachment_batches-IsBatch_example = discord_attachment_batches-IsBatch twelve
