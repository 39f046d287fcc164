-- ===== src/Rooms/Commands/Rate.antt =====
-- The rate limit on commands in crates/chudbot-web/src/vibe_rooms.rs.
use chudbot.Common.{
  ℕ, ◌+◌, ◌-◌, ◌≤◌, ◌<◌, false, ◌≡◌, inl, inr, List, [], ◌∷◌, arith, if◌then◌else◌, leb, All,
  Bool-cases,
}
use chudbot.Rooms.Commands.{CommandRate, command_window, renewed, admit}

-- How many of the commands at the given times are admitted.
unfoldable pub admitted : List ℕ → CommandRate → ℕ
unfolding admit
admitted [] rate = 0
admitted (now ∷ rest) rate =
    let (next, passed) = admit now rate in
    let later = admitted rest next in if passed then later + 1 else later

-- Of any number of commands before a window is over, no more are admitted than the maximum less
-- those that the window has already.
pub admitted-bounds :
    (times : List ℕ) (rate : CommandRate)
    → All (λ (now : ℕ). now - rate.window_started < command_window) times
    → admitted times rate ≤ rate.maximum - rate.commands
unfolding admitted renewed
admitted-bounds [] rate h = omega arith
admitted-bounds (now ∷ rest) rate (early, h) =
    let same : leb command_window (now - rate.window_started) ≡ false = ground arith in
    elim (Bool-cases (leb rate.maximum rate.commands)) [
      | inl full ↦ (let later = admitted-bounds rest rate h in rw (same, full, admitted) later)
      | inr room ↦
          (let later = admitted-bounds rest (record rate { commands = rate.commands + 1 }) h in
            rw (same, room, admitted) (ground arith))
    ]
