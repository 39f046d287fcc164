-- ===== src/Rooms/Commands.antt =====
-- The commands of one connection in crates/chudbot-web/src/vibe_rooms.rs: their rate and their
-- checks. Times are nanoseconds.
pub mod Rate
use chudbot.Common.{
  ℕ, ◌+◌, ◌-◌, Bool, true, false, not, ◌&&◌, ◌||◌, List, all, if◌then◌else◌, leb, ltb, ◌==◌, length,
  is_empty, Text, codes, starts_with,
}
use chudbot.Rooms.{RoomError, invalid_event_label, reserved_event_label, Reply, ok, err}

abbrev pub max_name_bytes : ℕ
max_name_bytes = 64

pub record CommandRate : Type 0 where
  pub window_started : ℕ
  pub commands : ℕ
  pub maximum : ℕ

abbrev pub command_window : ℕ
command_window = 1000000000

-- The rate after the window was renewed, if it is over.
unfoldable pub renewed : ℕ → CommandRate → CommandRate
renewed now rate =
    if leb command_window (now - rate.window_started)
    then record rate { window_started = now; commands = 0 }
    else rate

unfoldable pub admit : ℕ → CommandRate → CommandRate × Bool
unfolding renewed
admit now rate =
    let r = renewed now rate in
    if leb r.maximum r.commands then (r, false) else (record r { commands = r.commands + 1 }, true)

abbrev pub is_token_byte : ℕ → Bool
is_token_byte b =
    (leb b'0' b && leb b b'9')
    || (leb b'A' b && leb b b'Z')
    || (leb b'a' b && leb b b'z')
    || b == b':'
    || b == b'_'
    || b == b'-'

unfoldable pub validate_token : Text → RoomError → Reply (Unit {0})
validate_token value error =
    if is_empty value || ltb max_name_bytes (length value) || not (all is_token_byte value)
    then err error
    else ok tt

unfoldable pub validate_event_label : Text → Reply (Unit {0})
unfolding validate_token starts_with
validate_event_label label = elim (validate_token label invalid_event_label) [
  | err e ↦ err e
  | ok _ ↦ if starts_with (codes "user:") label then err reserved_event_label else ok tt
]
