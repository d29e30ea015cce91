-- ===== src/Tracker/Colours.antt =====
-- The LEDs of a tracker sketch always have valid colours: what `setup` and each pass keep.
pub mod Button
pub mod Fix
pub mod Runs
pub mod Signal
use speed_feed.Common.{ℕ}
use speed_feed.Lights.{Lights}
use speed_feed.Lights.Silent.{AreColoured}
use speed_feed.Waypoint.{Waypoint}
use speed_feed.Tracker.State.{Kit}

-- The signals of a sketch keep the colours valid.
pub record KeepsColours {R : Type 0} (kit : Kit R) : Type 0 where
  pub signal : (p : Waypoint R) (l : Lights) → AreColoured l → AreColoured (kit.signal p l)
  pub start : (l : Lights) → AreColoured l → AreColoured (kit.start_signal l)
  pub close : (l : Lights) → AreColoured l → AreColoured (kit.close_signal l)
