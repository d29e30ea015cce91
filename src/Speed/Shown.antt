-- ===== src/Speed/Shown.antt =====
-- What the LEDs show after a crossing in a race (GPS_tracker_Single_Speed.ino, case ST_RACE).
use speed_feed.Monitor.{print_text}
use mathlib.Core.Path.{subst}
use speed_feed.Tracker.Racing.{cross}
use speed_feed.Tracker.Shown.{cross-IsShown}
use speed_feed.Tracker.State.{done}
use speed_feed.Common.{sym, length, get_elem?, ℕ, ◌<◌, ◌≡◌, some}
use speed_feed.Speed.Signal.{IsSpeedSignal, speed_signal-IsSpeedSignal}
use speed_feed.Double.{Double}
use speed_feed.Eeprom.{Bus}
use speed_feed.Waypoint.{Waypoint}
use speed_feed.Speed.{speed_split, speed_kit, SpeedSketch}
use speed_feed.Platform.{tick}

module _ (D : Double) (B : Bus) (memory : ℕ → Waypoint D.Real) where
  open D use {Real}

  -- After a crossing in a race, with the index of the next waypoint in bounds, both LEDs show the
  -- signal for the speed margin at that waypoint, whatever they showed before: blinking green for
  -- five seconds for one above one, blinking red for one below minus one, and dark for any other,
  -- be it not a number.
  pub cross-IsSpeedSignal :
      (gate : Waypoint Real) (t u : SpeedSketch D B memory)
      → cross D B (speed_kit D memory) gate t ≡ done u
      → t.wp_next < length t.waypoints
      → (p : Waypoint Real) × (get_elem? u.waypoints t.wp_next ≡ some p)
        × IsSpeedSignal D p.speed_margin u.lights
  unfolding speed_kit
  cross-IsSpeedSignal gate t u h n =
      let c = cross-IsShown D B (speed_kit D memory) gate t u h n in
      let l = record t.lights {
        world = print_text (speed_split D c.passed t.tracks t.lights) (tick t.lights.world);
      } in
      (
        c.passed,
        c.is_passed,
        subst (IsSpeedSignal D c.passed.speed_margin) (sym c.shown)
            (speed_signal-IsSpeedSignal D c.passed l),
      )
