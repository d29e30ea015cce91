-- ===== src/Speed.antt =====
-- The sketch GPS_tracker_Single_Speed/GPS_tracker_Single_Speed.ino. It is that of
-- GPS_tracker_Single_Split but for the signal after a split, which tells of the speed, and for
-- what it prints on the monitor.
pub mod Signal
pub mod Runs
pub mod Shown
use speed_feed.Common.{[], ◌++◌, ℕ, Bool, Option, List, if◌then◌else◌}
use speed_feed.Platform.{World}
use speed_feed.Double.{Double}
use speed_feed.Led.{Led, off, red, green}
use speed_feed.Lights.{Lights, set_lap_splt, blink_splt_lap}
use speed_feed.Waypoint.{Waypoint}
use speed_feed.Eeprom.{Bus}
use speed_feed.Tracker.State.{Kit, State, Run}
use speed_feed.Tracker.Startup.{Sketch}
use speed_feed.Tracker.Setting.{wpset_case}
use speed_feed.Tracker.Racing.{split_kit, race_button, record_split, no_cross, race_case}
use speed_feed.Tracker.Loop.{
  take_interrupt, by_state, init_case, close_track, by_fix, use_fix, pass,
}
use speed_feed.Tracker.Setup.{setup}
use speed_feed.Monitor.{line_end}
use speed_feed.Geometry.{Point}

module _ (D : Double) where
  open D use {Real, literal, neg, lt, show_long}

  -- How fast the LEDs blink for a margin of the speed above zero, and for one below.
  unfoldable pub speed_gain_rate : Real → ℕ
  speed_gain_rate m =
      if lt (literal 5) m
      then 100
      else (if lt (literal 4) m
          then 200
          else (if lt (literal 3) m then 300 else (if lt (literal 2) m then 400 else 500)))

  unfoldable pub speed_loss_rate : Real → ℕ
  speed_loss_rate m =
      if lt m (neg (literal 5))
      then 100
      else (if lt m (neg (literal 4))
          then 200
          else (if lt m (neg (literal 3))
              then 300
              else (if lt m (neg (literal 2)) then 400 else 500)))

  -- Green for a speed above the best by more than one, red for one below it by more than one.
  unfoldable pub speed_signal : Waypoint Real → Lights → Lights
  unfolding speed_gain_rate speed_loss_rate
  speed_signal p l =
      let m = p.speed_margin in
      let dark = set_lap_splt off 0 l in
      if lt (literal 1) m
      then blink_splt_lap green (speed_gain_rate m) (speed_gain_rate m) 5000 dark
      else (if lt m (neg (literal 1))
          then blink_splt_lap red (speed_loss_rate m) (speed_loss_rate m) 5000 dark
          else dark)

  -- the time limit of the lap LED
  unfoldable pub speed_split : Waypoint Real → List (Point Real) → Lights → List ℕ
  speed_split p ps l = show_long l.lap.end_time ++ line_end

  -- `memory` is as in `Kit`.
  unfoldable pub speed_kit : (ℕ → Waypoint Real) → Kit Real
  unfolding split_kit
  speed_kit memory = record (split_kit memory) {
    signal = speed_signal;
    sentence_text = λ s. [];
    split_text = speed_split;
  }

module _ (D : Double) (B : Bus) (memory : ℕ → Waypoint D.Real) where
  abbrev pub SpeedSketch : Type 0
  SpeedSketch = Sketch D B (speed_kit D memory)

  unfoldable pub speed_setup : (blank : Led) → World → B.State → SpeedSketch
  speed_setup = setup D B (speed_kit D memory)

  -- The first `switch` of its loop.
  unfoldable pub speed_by_state : ℕ → State → SpeedSketch → Run SpeedSketch
  speed_by_state = by_state D B (speed_kit D memory)

  -- The second one.
  unfoldable pub speed_by_fix : State → SpeedSketch → Run SpeedSketch
  speed_by_fix = by_fix D B (speed_kit D memory)

  unfoldable pub speed_pass : ℕ → Option ℕ → SpeedSketch → Run SpeedSketch
  speed_pass = pass D B (speed_kit D memory)

  -- The interrupt of its button.
  unfoldable pub speed_interrupt : SpeedSketch → SpeedSketch
  speed_interrupt = take_interrupt D B (speed_kit D memory)
