-- ===== src/Replay/Strip/Tests.antt =====
-- The removal of media references in crates/chudbot-bot/src/transcript.rs on concrete replies.
use chudbot.Common.{
  ◌≤◌, ◌≡◌, refl, some, none, [], ◌∷◌, ◌++◌, Text, codes, length, starts_with, is_empty,
  if◌then◌else◌, is_whitespace, trim_start,
}
use chudbot.Replay.Strip.{
  find, strip_references, strip_generated_media_refs, normalize_stripped_reply,
}
use chudbot.Replay.Strip.Laws.{strip_generated_media_refs-ends, strip_references-last}

abbrev reference : Text
reference = codes "media://1"

abbrev reply : Text
reply = codes "Here: ![cat](media://1)\n\n\n\nand media://1!\n"

-- A link goes with its label, and the blank lines become one.
strips_links_and_references :
    strip_generated_media_refs reply (reference ∷ []) ≡ some (codes "Here:\n\nand !")
unfolding strip_generated_media_refs starts_with trim_start is_whitespace
strips_links_and_references = refl

-- The removal of a later reference can put an earlier one together again, which stays.
earlier_reference_recreated :
    strip_generated_media_refs (codes "aXb") (codes "ab" ∷ codes "X" ∷ []) ≡ some (codes "ab")
unfolding strip_generated_media_refs starts_with trim_start is_whitespace
earlier_reference_recreated = refl

strip_generated_media_refs-ends_example :
    (stripped : Text) × (strip_references reply (reference ∷ []) ≡ some stripped)
    × (length stripped ≤ length reply)
    × (strip_generated_media_refs reply (reference ∷ [])
        ≡ some (if is_empty (reference ∷ []) then reply else normalize_stripped_reply stripped))
strip_generated_media_refs-ends_example = strip_generated_media_refs-ends reply (reference ∷ [])

strip_references-last_example :
    (next : Text) × (strip_references reply ((codes "media://2" ∷ []) ++ reference ∷ [])
      ≡ some next)
    × (find reference next ≡ none)
strip_references-last_example = strip_references-last (codes "media://2" ∷ []) reference reply refl
