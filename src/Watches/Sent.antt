-- ===== src/Watches/Sent.antt =====
-- What `publish` in crates/chudbot-web/src/vibe_collections.rs sends to one watch.
use mathlib.Core.List.{append_assoc, append-nil}
use chudbot.Common.{
  ℕ, zero, suc, ◌+◌, ◌-◌, ◌≤◌, Bool, true, false, ◌&&◌, ◌||◌, not, ◌≡◌, refl, sym, ap, ◌∙◌, inl,
  inr, ◌⊎◌, List, [], ◌∷◌, ◌++◌, if◌then◌else◌, ltb, length, length-append, length-take, take, Text,
  Bool-cases, arith,
}
use chudbot.Watches.{
  Documents, CollectionChange, WatchClient, document_matches, change_message, try_send,
  offer_changes, receive,
}

take_nil : (n : ℕ) → take {A = Text} n [] ≡ []
take_nil zero = refl
take_nil (suc n) = refl

ltb-suc : (a b : ℕ) → ltb (suc a) (suc b) ≡ ltb a b
ltb-suc a b = ground arith

take_all : (n : ℕ) (xs : List Text) → ltb n (length xs) ≡ false → take n xs ≡ xs
take_all zero [] h = refl
take_all zero (x ∷ xs) h = ground (arith, h)
take_all (suc n) [] h = refl
take_all (suc n) (x ∷ xs) h = ap (λ r. x ∷ r) (take_all n xs (sym (ltb-suc n (length xs)) ∙ h))

queued_cases : (xs : List Text) → (xs ≡ []) ⊎ ((x : Text) × (rest : List Text) × (xs ≡ x ∷ rest))
queued_cases [] = inl refl
queued_cases (x ∷ rest) = inr (x, rest, refl)

ltb_zero : (n : ℕ) → ltb n 0 ≡ false
ltb_zero n = ground arith

not-or : (a b : Bool) → (a || b) ≡ false → (not a && not b) ≡ true
not-or a b e = ground arith

not-or_true : (a b : Bool) → (a || b) ≡ true → (not a && not b) ≡ false
not-or_true a b e = ground arith

or-ltb_zero : (b : Bool) (n : ℕ) → (b || ltb 0 (suc n)) ≡ true
or-ltb_zero b n = ground arith

module _ {V : Type 0} (documents : Documents V) where
  abbrev pub message_of : List (Text × V) → CollectionChange V → Text
  message_of filters change =
      change_message documents change (document_matches documents change.before filters)
        (document_matches documents change.after filters)

  -- The messages of the changes that match before or after.
  unfoldable pub messages_for : List (Text × V) → List (CollectionChange V) → List Text
  unfolding document_matches change_message
  messages_for filters [] = []
  messages_for filters (change ∷ changes) =
      let rest = messages_for filters changes in
      if document_matches documents change.before filters
        || document_matches documents change.after filters
      then message_of filters change ∷ rest
      else rest

  messages_for-append :
      (filters : List (Text × V)) (xs ys : List (CollectionChange V))
      → messages_for filters (xs ++ ys) ≡ messages_for filters xs ++ messages_for filters ys
  unfolding messages_for
  messages_for-append filters [] ys = refl
  messages_for-append filters (x ∷ xs) ys =
      elim (Bool-cases (
        document_matches documents x.before filters
        || document_matches documents x.after filters)) [
          | inl e ↦ rw (e, messages_for-append filters xs ys) refl
          | inr e ↦ rw (e, messages_for-append filters xs ys) refl
        ]

  module _ (outbound_queue : ℕ) where
    abbrev pub free : WatchClient V → ℕ
    free client = outbound_queue - length client.queued

    -- The client with as many of the messages as its channel takes, cancelled if that is not all.
    abbrev pub sent : List Text → WatchClient V → WatchClient V
    sent messages client = record client {
      queued = client.queued ++ take (free client) messages;
      cancelled = client.cancelled || ltb (free client) (length messages);
    }

    sent-nil : (client : WatchClient V) → sent [] client ≡ client
    sent-nil client =
        rw (take_nil (free client), append-nil client.queued, ltb_zero (free client)) (ground arith)

    sent-room :
        (message : Text) (messages : List Text) (client : WatchClient V)
        → ltb (length client.queued) outbound_queue ≡ true
        → sent messages (record client { queued = client.queued ++ message ∷ [] })
          ≡ sent (message ∷ messages) client
    sent-room message messages client room =
        let less : free client ≡ suc (outbound_queue - (length client.queued + 1)) =
          ground (arith, room) in
        rw
          (
            length-append client.queued (message ∷ []),
            less,
            append_assoc client.queued (message ∷ [])
                (take (outbound_queue - (length client.queued + 1)) messages),
            ltb-suc (outbound_queue - (length client.queued + 1)) (length messages),
          )
          refl

    sent-full :
        (message : Text) (messages : List Text) (client : WatchClient V)
        → ltb (length client.queued) outbound_queue ≡ false
        → record client { cancelled = true } ≡ sent (message ∷ messages) client
    sent-full message messages client full =
        let none_free : free client ≡ 0 = ground (arith, full) in
        rw (none_free, append-nil client.queued, or-ltb_zero client.cancelled (length messages))
          refl

    -- Of the messages of the changes that match, `publish` puts the first ones in the channel
    -- of a watch, as many as it has room for, and cancels the watch exactly if that is not all
    -- of them.
    pub offer_changes_lem :
        (changes : List (CollectionChange V)) (client : WatchClient V)
        → offer_changes documents outbound_queue changes client
          ≡ sent (messages_for client.filters changes) client
    unfolding offer_changes messages_for try_send
    offer_changes_lem [] client = sym (sent-nil client)
    offer_changes_lem (change ∷ changes) client =
        let before = document_matches documents change.before client.filters in
        let after = document_matches documents change.after client.filters in
        let message = message_of client.filters change in
        elim (Bool-cases (before || after)) [
          | inr e ↦ rw (not-or before after e, e) (offer_changes_lem changes client)
          | inl e ↦ elim (Bool-cases (ltb (length client.queued) outbound_queue)) [
            | inl room ↦
                rw (not-or_true before after e, e, room)
                  (offer_changes_lem changes
                      (record client { queued = client.queued ++ message ∷ [] })
                    ∙ sent-room message (messages_for client.filters changes) client room)
            | inr full ↦
                rw (not-or_true before after e, e, full)
                  (sent-full message (messages_for client.filters changes) client full)
          ]
        ]

    -- Unless it is cancelled, a watch has been sent the messages of the changes, in order: those that its
    -- task has taken, then those in the channel.
    unfoldable pub IsUpToDate : List (Text × V) → List (CollectionChange V) → WatchClient V → Type 0
    unfolding messages_for
    IsUpToDate filters changes client =
        (client.filters ≡ filters)
        × length client.queued ≤ outbound_queue
        × (client.cancelled ≡ false
            → client.received ++ client.queued ≡ messages_for filters changes)

    pub offer_changes-IsUpToDate :
        (filters : List (Text × V)) (before changes : List (CollectionChange V))
        (client : WatchClient V)
        → IsUpToDate filters before client
        → IsUpToDate filters
            (before ++ changes)
            (offer_changes documents outbound_queue changes client)
    unfolding IsUpToDate
    offer_changes-IsUpToDate filters before changes client (same, fits, held) =
        let messages = messages_for client.filters changes in
        rw (offer_changes_lem changes client) (
          same,
          rw
              (
                length-append client.queued (take (free client) messages),
                length-take (free client) messages,
              )
              (omega (arith, fits)),
          λ running.
              let all_fit = take_all (free client) messages (ground (arith, running)) in
              rw
                (
                  all_fit,
                  messages_for-append filters before changes,
                  sym (append_assoc client.received client.queued messages),
                  held (ground (arith, running)),
                  same,
                )
                refl,
        )

    pub receive-IsUpToDate :
        (filters : List (Text × V)) (changes : List (CollectionChange V)) (client : WatchClient V)
        → IsUpToDate filters changes client
        → IsUpToDate filters changes (receive client)
    unfolding IsUpToDate receive
    receive-IsUpToDate filters changes client (same, fits, held) =
        elim (queued_cases client.queued) [
          | inl e ↦ rw (receive, e) (same, fits, held)
          | inr (message, rest, e) ↦
              rw (receive, e)
                (
                  same,
                  omega (arith, fits, ap (λ (q : List Text). length q) e),
                  λ running.
                      rw (append_assoc client.received (message ∷ []) rest, sym e) (held running),
                )
        ]
