-- ===== src/FullDebug.antt =====
-- The sketch GPS_tracker_FULL_DEBUG/GPS_tracker_FULL_DEBUG.ino: the same text as
-- GPS_tracker_2LEDs_Split, under another name.
use speed_feed.Common.{ℕ, Option}
use speed_feed.Platform.{World}
use speed_feed.Double.{Double}
use speed_feed.Led.{Led}
use speed_feed.Lights.{Lights}
use speed_feed.Waypoint.{Waypoint}
use speed_feed.Eeprom.{Bus}
use speed_feed.Tracker.State.{State, Run}
use speed_feed.TwoLeds.{
  two_leds_interrupt, two_leds_signal, TwoLedsSketch, two_leds_setup, two_leds_by_state,
  two_leds_by_fix, two_leds_pass,
}

unfoldable pub debug_signal : {R : Type 0} → Waypoint R → Lights → Lights
debug_signal = two_leds_signal

module _ (D : Double) (B : Bus) (memory : ℕ → Waypoint D.Real) (no_speed : D.Real) where
  abbrev pub DebugSketch : Type 0
  DebugSketch = TwoLedsSketch D B memory no_speed

  unfoldable pub debug_setup : (blank : Led) → World → B.State → DebugSketch
  debug_setup = two_leds_setup D B memory no_speed

  unfoldable pub debug_by_state : ℕ → State → DebugSketch → Run DebugSketch
  debug_by_state = two_leds_by_state D B memory no_speed

  unfoldable pub debug_by_fix : State → DebugSketch → Run DebugSketch
  debug_by_fix = two_leds_by_fix D B memory no_speed

  unfoldable pub debug_pass : ℕ → Option ℕ → DebugSketch → Run DebugSketch
  debug_pass = two_leds_pass D B memory no_speed

  -- The interrupt of its button.
  unfoldable pub debug_interrupt : DebugSketch → DebugSketch
  debug_interrupt = two_leds_interrupt D B memory no_speed
