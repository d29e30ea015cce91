-- ===== src/TwoLeds.antt =====
-- The sketch GPS_tracker_2LEDs_Split/GPS_tracker_2LEDs_Split.ino. Its loop is that of
-- GPS_tracker_Single_Split with an LED each for the split and the lap, and more lines on the
-- monitor, for GPS_visualizer. It builds a position from two numbers by a constructor that SpeedFeed.h does not
-- declare: what that one leaves as the speed is the parameter `no_speed`.
pub mod Verdict
pub mod Shown
use speed_feed.Common.{
  List, [], ◌∷◌, ◌++◌, none, some, length, get_elem?, ◌-◌, ◌==◌, ℕ, Option, if◌then◌else◌, slt32,
}
use speed_feed.Platform.{World}
use speed_feed.Double.{Double}
use speed_feed.Led.{Led, off, red, green, yellow}
use speed_feed.Lights.{Lights, set_lap, set_splt, set_lap_splt}
use speed_feed.Waypoint.{Waypoint}
use speed_feed.Eeprom.{Bus}
use speed_feed.Tracker.State.{Kit, State, Run}
use speed_feed.Tracker.Startup.{Sketch}
use speed_feed.Tracker.Loop.{take_interrupt, by_state, by_fix, pass}
use speed_feed.Tracker.Setup.{setup}
use speed_feed.Monitor.{codes, csv_line, line_end}
use speed_feed.Monitor.Lines.{gate_line}
use speed_feed.Geometry.{Point}
use speed_feed.Nmea.{Gps}

-- The colour for a margin: green below zero, red above 100 ms, yellow between.
unfoldable pub margin_colour : ℕ → ℕ
margin_colour m = if slt32 m 0 then green else (if slt32 100 m then red else yellow)

unfoldable pub two_leds_signal : {R : Type 0} → Waypoint R → Lights → Lights
unfolding margin_colour
two_leds_signal p l =
    set_lap (margin_colour p.lap_margin) 0 (set_splt (margin_colour p.split_margin) 3000 l)

unfoldable pub two_leds_close : Lights → Lights
two_leds_close l = set_splt yellow 3000 (set_lap yellow 0 l)

unfoldable pub two_leds_start : Lights → Lights
unfolding two_leds_close
two_leds_start l = two_leds_close (set_lap_splt off 0 l)

module _ (D : Double) where
  open D use {Real, show8, show_long}

  unfoldable pub two_leds_gate : ℕ → Waypoint Real → List ℕ
  two_leds_gate n p = gate_line D (codes (if n == 1 then "startfinish" else "waypoint")) p

  unfoldable pub two_leds_position : Gps Real → List ℕ
  two_leds_position gps = csv_line (codes "track" ∷ show8 gps.longitude ∷ show8 gps.latitude ∷ [])

  -- `line` of the first position and the last one; there is always one.
  unfoldable pub with_ends : (Point Real → Point Real → List ℕ) → List (Point Real) → List ℕ
  with_ends line ps = elim (get_elem? ps 0) [
    | none ↦ []
    | some a ↦ elim (get_elem? ps (length ps - 1)) [ none ↦ [] | some b ↦ line a b ]
  ]

  unfoldable pub test_line : Point Real → Point Real → List ℕ
  test_line a b = csv_line (codes "test" ∷ show8 a.x ∷ show8 a.y ∷ show8 b.x ∷ show8 b.y ∷ [])

  unfoldable pub two_leds_tracks : List (Point Real) → List ℕ
  unfolding with_ends test_line
  two_leds_tracks = with_ends test_line

  unfoldable pub split_line : Waypoint Real → Point Real → Point Real → List ℕ
  split_line p a b = csv_line (
      codes "split"
      ∷ show_long p.lap_margin
      ∷ show_long p.lap_best
      ∷ show8 b.x
      ∷ show8 b.y
      ∷ show8 a.x
      ∷ show8 a.y
      ∷ [])

  -- the adjustment on a line of its own, and the split
  unfoldable pub two_leds_split : Waypoint Real → List (Point Real) → Lights → List ℕ
  unfolding with_ends split_line
  two_leds_split p ps l = (show_long p.adjustment ++ line_end) ++ with_ends (split_line p) ps

  unfoldable pub two_leds_kit : (ℕ → Waypoint Real) → (no_speed : Real) → Kit Real
  two_leds_kit memory no_speed = record {
    memory = memory;
    signal = two_leds_signal;
    start_signal = two_leds_start;
    close_signal = two_leds_close;
    point_speed = λ gps. no_speed;
    gate_text = two_leds_gate;
    sentence_text = λ s. s ++ line_end;
    position_text = two_leds_position;
    tracks_text = two_leds_tracks;
    split_text = two_leds_split;
  }

module _ (D : Double) (B : Bus) (memory : ℕ → Waypoint D.Real) (no_speed : D.Real) where
  abbrev pub TwoLedsSketch : Type 0
  TwoLedsSketch = Sketch D B (two_leds_kit D memory no_speed)

  unfoldable pub two_leds_setup : (blank : Led) → World → B.State → TwoLedsSketch
  two_leds_setup = setup D B (two_leds_kit D memory no_speed)

  -- The first `switch` of its loop.
  unfoldable pub two_leds_by_state : ℕ → State → TwoLedsSketch → Run TwoLedsSketch
  two_leds_by_state = by_state D B (two_leds_kit D memory no_speed)

  -- The second one.
  unfoldable pub two_leds_by_fix : State → TwoLedsSketch → Run TwoLedsSketch
  two_leds_by_fix = by_fix D B (two_leds_kit D memory no_speed)

  unfoldable pub two_leds_pass : ℕ → Option ℕ → TwoLedsSketch → Run TwoLedsSketch
  two_leds_pass = pass D B (two_leds_kit D memory no_speed)

  -- The interrupt of its button.
  unfoldable pub two_leds_interrupt : TwoLedsSketch → TwoLedsSketch
  two_leds_interrupt = take_interrupt D B (two_leds_kit D memory no_speed)
