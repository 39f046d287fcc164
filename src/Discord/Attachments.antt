-- ===== src/Discord/Attachments.antt =====
-- Attachment batches and the reconnect delay of crates/chudbot-discord/src/lib.rs. Durations are
-- nanoseconds.
use chudbot.Common.{
  ℕ, zero, suc, ◌+◌, ◌*◌, min, List, [], ◌∷◌, map, if◌then◌else◌, leb, length, take, drop, is_empty,
  Text,
}

abbrev pub discord_attachment_limit : ℕ
discord_attachment_limit = 10

abbrev pub gateway_reconnect_max_delay : ℕ
gateway_reconnect_max_delay = 60000000000

-- `Duration::MAX` in nanoseconds.
abbrev pub duration_max : ℕ
duration_max = 18446744073709551615 * 1000000000 + 999999999

unfoldable pub next_reconnect_delay : ℕ → ℕ
next_reconnect_delay delay =
    min (if leb (delay * 2) duration_max then delay * 2 else gateway_reconnect_max_delay)
      gateway_reconnect_max_delay

pub record OutgoingAttachment : Type 0 where
  pub filename : Text
  pub bytes : List ℕ

-- The arguments of `HttpAttachment::from_bytes`.
pub record HttpAttachment : Type 0 where
  pub filename : Text
  pub bytes : List ℕ
  pub id : ℕ

unfoldable pub http_attachments : ℕ → List OutgoingAttachment → List HttpAttachment
http_attachments index [] = []
http_attachments index (a ∷ rest) =
    record { filename = a.filename; bytes = a.bytes; id = min index 18446744073709551615 }
    ∷ http_attachments (index + 1) rest

-- `chunks(10)`, on fuel.
unfoldable pub chunks_of : ℕ → List OutgoingAttachment → List (List OutgoingAttachment)
chunks_of zero attachments = []
chunks_of (suc fuel) attachments =
    let rest = chunks_of fuel (drop discord_attachment_limit attachments) in
    if is_empty attachments then [] else take discord_attachment_limit attachments ∷ rest

unfoldable pub discord_attachment_batches : List OutgoingAttachment → List (List HttpAttachment)
unfolding http_attachments chunks_of
discord_attachment_batches attachments =
    map (http_attachments 0) (chunks_of (length attachments) attachments)
