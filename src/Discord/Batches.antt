-- ===== src/Discord/Batches.antt =====
-- The laws of attachment batches and of the reconnect delay in crates/chudbot-discord/src/lib.rs.
use mathlib.Core.List.{map-append}
use chudbot.Common.{
  ℕ, zero, suc, ◌+◌, ◌*◌, ◌≤◌, min, ◌≡◌, refl, sym, ap, ◌∙◌, List, [], ◌∷◌, ◌++◌, map, arith,
  length, take, drop, length-take, length-drop, take-append-drop, concat, All, Text,
}
use chudbot.Discord.Attachments.{
  discord_attachment_limit, gateway_reconnect_max_delay, next_reconnect_delay, OutgoingAttachment,
  HttpAttachment, http_attachments, chunks_of, discord_attachment_batches,
}

-- The delay doubles up to one minute, whatever it is: the guard against overflow changes nothing.
pub next_reconnect_delay_lem :
    (delay : ℕ) → next_reconnect_delay delay ≡ min (delay * 2) gateway_reconnect_max_delay
unfolding next_reconnect_delay
next_reconnect_delay_lem delay = ground arith

-- What is sent of an attachment besides its number.
abbrev pub payload : HttpAttachment → Text × List ℕ
payload a = (a.filename, a.bytes)

abbrev pub outgoing_payload : OutgoingAttachment → Text × List ℕ
outgoing_payload a = (a.filename, a.bytes)

-- Numbered from an index on.
abbrev pub Indexed : ℕ → List HttpAttachment → Type 0
Indexed i [] = Unit
Indexed i (a ∷ rest) = (a.id ≡ i) × Indexed (i + 1) rest

-- A batch that Discord accepts.
abbrev pub IsBatch : List HttpAttachment → Type 0
IsBatch batch = (1 ≤ length batch) × (length batch ≤ discord_attachment_limit) × Indexed 0 batch

map-payload :
    (i : ℕ) (l : List OutgoingAttachment)
    → map payload (http_attachments i l) ≡ map outgoing_payload l
unfolding http_attachments
map-payload i [] = refl
map-payload i (a ∷ l) = ap (λ r. outgoing_payload a ∷ r) (map-payload (i + 1) l)

length-http_attachments :
    (i : ℕ) (l : List OutgoingAttachment) → length (http_attachments i l) ≡ length l
unfolding http_attachments
length-http_attachments i [] = refl
length-http_attachments i (a ∷ l) = ap suc (length-http_attachments (i + 1) l)

http_attachments-Indexed :
    (i : ℕ) (l : List OutgoingAttachment)
    → i + length l ≤ 18446744073709551615
    → Indexed i (http_attachments i l)
unfolding http_attachments
http_attachments-Indexed i [] h = tt
http_attachments-Indexed i (a ∷ l) h =
    (omega arith, http_attachments-Indexed (i + 1) l (omega arith))

-- The parts that are cut off are batches, and joined they carry the attachments.
batches :
    (fuel : ℕ) (l : List OutgoingAttachment)
    → length l ≤ fuel
    → All IsBatch (map (http_attachments 0) (chunks_of fuel l))
      × (map payload (concat (map (http_attachments 0) (chunks_of fuel l)))
          ≡ map outgoing_payload l)
unfolding chunks_of
batches zero [] h = (tt, refl)
batches zero (a ∷ l) h = absurd (omega arith)
batches (suc fuel) [] h = (tt, refl)
batches (suc fuel) (a ∷ l) h =
    let rest = drop discord_attachment_limit (a ∷ l) in
    let part = take discord_attachment_limit (a ∷ l) in
    let size = length-take discord_attachment_limit (a ∷ l) in
    let later =
      batches fuel rest (let d = length-drop discord_attachment_limit (a ∷ l) in omega arith) in
    let count = length-http_attachments 0 part in
    (
      ((omega arith, omega arith, http_attachments-Indexed 0 part (omega arith)), later.0),
      map-append payload (http_attachments 0 part)
            (concat (map (http_attachments 0) (chunks_of fuel rest)))
          ∙ (ap (λ r. r ++ map payload (concat (map (http_attachments 0) (chunks_of fuel rest))))
                (map-payload 0 part)
              ∙ (ap (λ r. map outgoing_payload part ++ r) later.1
                  ∙ (sym (map-append outgoing_payload part rest)
                      ∙ ap (λ r. map outgoing_payload r)
                          (take-append-drop discord_attachment_limit (a ∷ l))))),
    )

-- Every batch has between one and ten attachments, numbered from 0 in order, and joined the batches
-- carry all the attachments in their order.
pub discord_attachment_batches-IsBatch :
    (attachments : List OutgoingAttachment)
    → All IsBatch (discord_attachment_batches attachments)
      × (map payload (concat (discord_attachment_batches attachments))
          ≡ map outgoing_payload attachments)
unfolding discord_attachment_batches
discord_attachment_batches-IsBatch attachments =
    batches (length attachments) attachments (omega arith)
