-- ===== src/Replay/Strip/Laws.antt =====
-- The loop that removes media references in crates/chudbot-bot/src/transcript.rs ends, since each
-- round makes the text shorter.
use chudbot.Common.{
  ℕ, zero, suc, ◌+◌, ◌-◌, ◌<◌, ◌≤◌, true, false, ◌&&◌, ◌≡◌, refl, ap, none, some, List, [], ◌∷◌,
  ◌++◌, take, drop, length, if◌then◌else◌, ltb, ◌==◌, is_empty, Text, starts_with, Bool-cases,
  Option-cases, inl, inr, arith, length-append, length-take, length-drop, eq_of_some,
}
use chudbot.Replay.Strip.{
  find, rfind_char, is_at, link_label_start, markdown_link_bounds, removal_bounds, strip_reference,
  strip_references, strip_generated_media_refs, normalize_stripped_reply,
}

fits_of_starts_with :
    (needle text : Text) → starts_with needle text ≡ true → length needle ≤ length text
unfolding starts_with
fits_of_starts_with [] text h = omega arith
fits_of_starts_with (a ∷ needle) [] h = cc
fits_of_starts_with (a ∷ needle) (b ∷ text) h =
    omega (arith, fits_of_starts_with needle text (ground (arith, h)))

-- A needle that is found lies within the text.
find_within :
    (needle text : Text) (i : ℕ) → find needle text ≡ some i → i + length needle ≤ length text
unfolding find
find_within [] [] i h = omega (arith, eq_of_some h)
find_within (a ∷ needle) [] i h = cc
find_within needle (c ∷ text) i h = elim (Bool-cases (starts_with needle (c ∷ text))) [
  | inl here ↦
      (let e : some 0 ≡ some i = rw (find, here) at h in
        omega (arith, eq_of_some e, fits_of_starts_with needle (c ∷ text) here))
  | inr further ↦ elim (Option-cases (find needle text)) [
    | inl e ↦ cc (rw (find, further, e) at h)
    | inr (j, e) ↦
        (let q : some (suc j) ≡ some i = rw (find, further, e) at h in
          omega (arith, eq_of_some q, find_within needle text j e))
  ]
]

is_at_within : (i c : ℕ) (text : Text) → is_at i c text ≡ true → i < length text
unfolding is_at
is_at_within i c [] h = cc
is_at_within zero c (d ∷ text) h = omega arith
is_at_within (suc i) c (d ∷ text) h = omega (arith, is_at_within i c text h)

rfind_char_within : (c : ℕ) (text : Text) (i : ℕ) → rfind_char c text ≡ some i → i < length text
unfolding rfind_char
rfind_char_within c [] i h = cc
rfind_char_within c (d ∷ text) i h = elim (Option-cases (rfind_char c text)) [
  | inr (j, e) ↦
      (let q : some (suc j) ≡ some i = rw (e) at h in
        omega (arith, eq_of_some q, rfind_char_within c text j e))
  | inl e ↦ elim (Bool-cases (d == c)) [
    | inl here ↦ (let q : some 0 ≡ some i = rw (e, here) at h in omega (arith, eq_of_some q))
    | inr other ↦ cc (rw (e, other) at h)
  ]
]

link_label_start_within : (text : Text) (n i : ℕ) → link_label_start text n ≡ some i → i < n
unfolding link_label_start
link_label_start_within text zero i h = cc
link_label_start_within text (suc n) i h = elim (Bool-cases (is_at n 93 text)) [
  | inl label ↦
      (let q : rfind_char 91 (take n text) ≡ some i = rw (label) at h in
        omega (arith, rfind_char_within 91 (take n text) i q, length-take n text))
  | inr plain ↦ cc (rw (plain) at h)
]

-- The bounds of a link hold some text, and lie within the text.
link_bounds_within :
    (text : Text) (index len s e : ℕ)
    → markdown_link_bounds text index len ≡ some (s, e)
    → (s < e) × (e ≤ length text)
unfolding markdown_link_bounds
link_bounds_within text zero len s e h = cc
link_bounds_within text (suc n) len s e h =
    elim (Bool-cases (is_at n 40 text && is_at (suc n + len) 41 text)) [
      | inr f ↦ cc (rw (f) at h)
      | inl t ↦ elim (Option-cases (link_label_start text n)) [
        | inl nothing ↦ cc (rw (t, nothing) at h)
        | inr (j, found) ↦
            (let inside = is_at_within (suc n + len) 41 text (ground (arith, t)) in
              let before = link_label_start_within text n j found in
              elim (Bool-cases (ltb 0 j && is_at (j - 1) 33 text)) [
                | inl image ↦
                    (let q : some (j - 1, suc n + len + 1) ≡ some (s, e) =
                        rw (t, found, image) at h in
                      let w = eq_of_some q in
                      (
                        omega (arith, ap (λ b. b.0) w, ap (λ b. b.1) w, before),
                        omega (arith, ap (λ b. b.1) w, inside),
                      ))
                | inr link ↦
                    (let q : some (j, suc n + len + 1) ≡ some (s, e) = rw (t, found, link) at h in
                      let w = eq_of_some q in
                      (
                        omega (arith, ap (λ b. b.0) w, ap (λ b. b.1) w, before),
                        omega (arith, ap (λ b. b.1) w, inside),
                      ))
              ])
      ]
    ]

not_empty : (t : Text) → is_empty t ≡ false → 0 < length t
not_empty [] h = cc
not_empty (c ∷ t) h = omega arith

-- What a round removes holds some text and lies within the text.
removal_within :
    (reference out : Text) (index : ℕ)
    → is_empty reference ≡ false
    → find reference out ≡ some index
    → (let bounds = removal_bounds out index (length reference) in
        (bounds.0 < bounds.1) × (bounds.1 ≤ length out))
unfolding removal_bounds
removal_within reference out index some_text found =
    elim (Option-cases (markdown_link_bounds out index (length reference))) [
      | inl e ↦
          rw (removal_bounds, e)
            (omega (arith, not_empty reference some_text), find_within reference out index found)
      | inr ((s, t), e) ↦
          rw (removal_bounds, e) (link_bounds_within out index (length reference) s t e)
    ]

cut_shorter :
    (out : Text) (s e : ℕ) → s < e → e ≤ length out → length (take s out ++ drop e out) < length out
cut_shorter out s e p q =
    omega (arith, length-append (take s out) (drop e out), length-take s out, length-drop e out)

-- The loop on enough fuel.
strip_reference_ends :
    (fuel : ℕ) (reference out : Text)
    → is_empty reference ≡ false
    → length out < fuel
    → (next : Text) × (strip_reference fuel reference out ≡ some next)
      × (find reference next ≡ none)
      × (length next ≤ length out)
unfolding strip_reference
strip_reference_ends zero reference out some_text enough = absurd (omega arith)
strip_reference_ends (suc fuel) reference out some_text enough =
    elim (Option-cases (find reference out)) [
      | inl e ↦ (out, rw (strip_reference, e) refl, e, omega arith)
      | inr (index, e) ↦
          (let bounds = removal_bounds out index (length reference) in
            let (p, q) = removal_within reference out index some_text e in
            let cut = take bounds.0 out ++ drop bounds.1 out in
            let shorter : length cut < length out = cut_shorter out bounds.0 bounds.1 p q in
            let (next, r, gone, short) =
              strip_reference_ends fuel reference cut some_text (omega (arith, shorter, enough)) in
            (next, rw (strip_reference, e) r, gone, omega (arith, short, shorter)))
    ]

-- Removing references always ends, and gives a text that is no longer.
strip_references-ends :
    (refs : List Text) (out : Text)
    → (next : Text) × (strip_references out refs ≡ some next) × (length next ≤ length out)
unfolding strip_references
strip_references-ends [] out = (out, refl, omega arith)
strip_references-ends (reference ∷ refs) out = elim (Bool-cases (is_empty reference)) [
  | inl skipped ↦
      (let (next, r, short) = strip_references-ends refs out in (next, rw (skipped) r, short))
  | inr some_text ↦
      (let (mid, r, _, short) =
          strip_reference_ends (length out + 1) reference out some_text (omega arith) in
        let (next, q, shorter) = strip_references-ends refs mid in
        (next, rw (some_text, r) q, omega (arith, short, shorter)))
]

-- Removing media references from a reply always ends, whatever the reply and the references: with
-- fuel for one round more than the text has characters, the loops give a text that is no longer
-- than the reply, and the result is that text with its blank lines normalised, or the reply itself
-- when there is no reference.
pub strip_generated_media_refs-ends :
    (text : Text) (refs : List Text)
    → (stripped : Text) × (strip_references text refs ≡ some stripped)
      × (length stripped ≤ length text)
      × (strip_generated_media_refs text refs
          ≡ some (if is_empty refs then text else normalize_stripped_reply stripped))
unfolding strip_generated_media_refs strip_references
strip_generated_media_refs-ends text [] = (text, refl, omega arith, refl)
strip_generated_media_refs-ends text (reference ∷ refs) =
    let (stripped, r, short) = strip_references-ends (reference ∷ refs) text in
    (stripped, r, short, rw (strip_generated_media_refs, r) refl)

-- After the loop over the references, the last one, if it is not empty, is nowhere in the text.
pub strip_references-last :
    (refs : List Text) (reference out : Text)
    → is_empty reference ≡ false
    → (next : Text) × (strip_references out (refs ++ reference ∷ []) ≡ some next)
      × (find reference next ≡ none)
unfolding strip_references
strip_references-last [] reference out some_text =
    let (next, r, gone, _) =
      strip_reference_ends (length out + 1) reference out some_text (omega arith) in
    (next, rw (some_text, r) refl, gone)
strip_references-last (first ∷ refs) reference out some_text = elim (Bool-cases (is_empty first)) [
  | inl skipped ↦
      (let (next, r, gone) = strip_references-last refs reference out some_text in
        (next, rw (skipped) r, gone))
  | inr full ↦
      (let (mid, r, _, _) = strip_reference_ends (length out + 1) first out full (omega arith) in
        let (next, q, gone) = strip_references-last refs reference mid some_text in
        (next, rw (full, r) q, gone))
]
