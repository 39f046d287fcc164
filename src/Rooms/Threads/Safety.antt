-- ===== src/Rooms/Threads/Safety.antt =====
-- Connections of crates/chudbot-web/src/vibe_rooms.rs that join and leave at the same time: a client is
-- always in the room that the map has under its name, and that room is open.
use chudbot.Common.{
  ℕ, true, false, ◌≡◌, ◌≢◌, sym, some, ◌==◌, ==_iff, Text, text_key, lookup, inl, inr, Bool-cases,
}
use chudbot.Rooms.{RoomLimits}
use chudbot.Rooms.Threads.{
  Site, Pc, System, Step, Reach, begin, join, leave, start, later, init, act, update, is_client,
}
use chudbot.Rooms.Threads.Kept.{IsSiteOk, IsThreadOk, IsClientOf, Keeps-IsThreadOk}
use chudbot.Rooms.Threads.Moves.{
  Moves, thread_at, begin_step-Moves, join_step-Moves, leave_step-Moves,
}

-- The site and every connection.
pub record Inv (s : System) : Type 0 where
  pub site_ok : IsSiteOk s.site
  pub threads_ok : (j : ℕ) → IsThreadOk s.site j (s.pc j)

act-Inv :
    (i : ℕ) (s : System) (site : Site) (pc : Pc)
    → Inv s
    → Moves i s.site (site, pc)
    → Inv (act i s (site, pc))
unfolding update
act-Inv i s site pc inv moves = record {
  site_ok = moves.keeps.still_ok;
  threads_ok = λ j. elim (Bool-cases (i == j)) [
    | inl e ↦ (let q = (==_iff i j).0 e in rw (e, sym q) moves.own)
    | inr e ↦ rw (e) (
        Keeps-IsThreadOk moves.who s.site site j (s.pc j) moves.keeps (moves.of_others j e)
          (inv.threads_ok j))
  ];
}

Step-Inv : (limits : RoomLimits) {s t : System} → Inv s → Step limits s t → Inv t
Step-Inv limits {s} inv (begin i name) =
    act-Inv i s _ _ inv
      (begin_step-Moves limits i s.site inv.site_ok name (s.pc i) (inv.threads_ok i))
Step-Inv limits {s} inv (join i) =
    act-Inv i s _ _ inv (join_step-Moves limits i s.site inv.site_ok (s.pc i) (inv.threads_ok i))
Step-Inv limits {s} inv (leave i) =
    act-Inv i s _ _ inv (leave_step-Moves limits i s.site inv.site_ok (s.pc i) (inv.threads_ok i))

init-Inv : Inv init
unfolding lookup IsThreadOk
init-Inv = record {
  site_ok = record { opened = λ name r m. cc; made = λ name r m. cc; one_name = λ a b r m n. cc };
  threads_ok = λ j. tt;
}

pub Reach-Inv : (limits : RoomLimits) {s : System} → Reach limits s → Inv s
Reach-Inv limits start = init-Inv
Reach-Inv limits (later reach step) = Step-Inv limits (Reach-Inv limits reach) step

-- However connections that join and leave one site are interleaved, a connection that has joined a
-- room is a client of it, and that room is open and the one that the map has under its name, so
-- that messages to the name reach it.
pub client-in-open-room :
    (limits : RoomLimits) {s : System} (i : ℕ) (name : Text) (r : ℕ)
    → Reach limits s
    → s.pc i ≡ Pc.joined name r
    → ((s.site.heap r).closed ≡ false)
      × (lookup name s.site.rooms ≡ some r)
      × (is_client i (s.site.heap r).clients ≡ true)
unfolding IsThreadOk IsClientOf
client-in-open-room limits {s} i name r reach at =
    let inv = Reach-Inv limits reach in
    let (m, c) : IsThreadOk s.site i (Pc.joined name r) =
      thread_at s.site i (s.pc i) _ at (inv.threads_ok i) in
    (inv.site_ok.opened name r m, m, c)

-- However joins and leaves are interleaved, no leave of a connection that has joined returns
-- early: it finds the room under the name, and itself among the clients.
pub leave-ne-lost : (limits : RoomLimits) {s : System} (i : ℕ) → Reach limits s → s.pc i ≢ Pc.lost
unfolding IsThreadOk
leave-ne-lost limits {s} i reach at =
    thread_at s.site i (s.pc i) Pc.lost at ((Reach-Inv limits reach).threads_ok i)
