-- ===== src/Speed/Signal.antt =====
-- What the driver sees of the margin of the speed (GPS_tracker_Single_Speed.ino).
use speed_feed.Common.{arith, if◌then◌else◌}
use speed_feed.Double.{Double}
use speed_feed.Led.{off, red, green}
use speed_feed.Led.Blink.{IsDark}
use speed_feed.Waypoint.{Waypoint}
use speed_feed.Lights.{Lights, set_lap, set_splt}
use speed_feed.Tracker.Feedback.{Blinks, set_splt-set_lap-IsDark, blink-Blinks}
use speed_feed.Speed.{speed_gain_rate, speed_loss_rate, speed_signal}

module _ (D : Double) where
  open D use {Real, literal, neg, lt}

  -- Both LEDs alike: green above one, red below minus one, dark between.
  abbrev pub IsSpeedSignal : Real → Lights → Type 0
  IsSpeedSignal m l =
      if lt (literal 1) m
      then Blinks green (speed_gain_rate D m) l.lap × Blinks green (speed_gain_rate D m) l.splt
      else (if lt m (neg (literal 1))
          then Blinks red (speed_loss_rate D m) l.lap × Blinks red (speed_loss_rate D m) l.splt
          else IsDark l.lap × IsDark l.splt)

  -- After a split the two LEDs show the same signal, whatever they showed before: blinking green
  -- for five seconds for a speed margin above one, blinking red for one below minus one, and
  -- dark for any other, be it not a number.
  pub speed_signal-IsSpeedSignal :
      (p : Waypoint Real) (l : Lights) → IsSpeedSignal p.speed_margin (speed_signal D p l)
  unfolding speed_signal
  speed_signal-IsSpeedSignal p l =
      let dark = set_splt off 0 (set_lap off 0 l) in
      let d = set_splt-set_lap-IsDark l in
      let m = p.speed_margin in
      ground (
        arith,
        d,
        blink-Blinks green (speed_gain_rate D m) dark d.0 d.1 (omega arith),
        blink-Blinks red (speed_loss_rate D m) dark d.0 d.1 (omega arith),
      )
