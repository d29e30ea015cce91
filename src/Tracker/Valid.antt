-- ===== src/Tracker/Valid.antt =====
-- The invariant of GPS_tracker_Single_Split.ino between two passes of its loop.
pub mod Lengths
pub mod First
pub mod Second
pub mod Pass
use speed_feed.Common.{ℕ, ◌-◌, ◌≤◌, ◌<◌, ◌≡◌, Bool, true, false, not, length, ◌==◌}
use speed_feed.Double.{Double}
use speed_feed.Waypoint.{Waypoint}
use speed_feed.Eeprom.{Bus}
use speed_feed.Receiver.Bounds.{IsInBounds}
use speed_feed.Tracker.State.{Kit, State, st_reset, st_init, st_sfset, st_wpset, st_race}
use speed_feed.Tracker.Startup.{Sketch}

-- Whether a state needs the start line: all but booting, and setting waypoints.
abbrev pub needs_start : State → ℕ → Bool
needs_start st_reset booted = not (booted == 0)
needs_start st_wpset booted = false
needs_start _ booted = true

module _ (D : Double) (B : Bus) (kit : Kit D.Real) where
  pub record IsValid (t : Sketch D B kit) : Type 0 where
    pub nonempty : needs_start t.next_state t.boot_flag ≡ true → 0 < length t.waypoints
    pub next_in : t.wp_next ≤ length t.waypoints - 1
    pub last_in : t.wp_last ≤ length t.waypoints - 1
    pub short : length t.tracks ≤ 3
    pub bounds : IsInBounds t.receiver
