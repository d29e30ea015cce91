-- ===== src/Tracker/Colours/Signal.antt =====
-- The signals of the three sketches with this loop keep the colours valid.
use speed_feed.Common.{ℕ, ◌≤◌, Bool, true, false, arith, if◌then◌else◌, slt32, neg32}
use speed_feed.Double.{Double}
use speed_feed.Led.{off, red, green, yellow}
use speed_feed.Lights.{Lights, set_lap, set_splt, set_lap_splt, blink_splt_lap}
use speed_feed.Lights.Silent.{
  AreColoured, set_lap_splt-silent, set_lap-silent, set_splt-silent, blink_splt_lap-silent,
}
use speed_feed.Waypoint.{Waypoint}
use speed_feed.Tracker.Racing.{gain_rate, loss_rate, feedback, split_signal, split_kit}
use speed_feed.Tracker.Colours.{KeepsColours}
use speed_feed.TwoLeds.{
  two_leds_signal, two_leds_close, two_leds_start, two_leds_kit, margin_colour,
}
use speed_feed.TwoLeds.Verdict.{margin_colour-valid}
use speed_feed.Speed.{speed_gain_rate, speed_loss_rate, speed_signal, speed_kit}

darkens : (l : Lights) → AreColoured l → AreColoured (set_lap_splt off 0 l)
darkens l c = (set_lap_splt-silent off 0 l (omega arith) c).0

-- blinking, or not, after putting the LEDs out
blinks :
    (color rate : ℕ) (l : Lights)
    → color ≤ yellow
    → AreColoured l
    → AreColoured (blink_splt_lap color rate rate 5000 (set_lap_splt off 0 l))
blinks color rate l h c =
    (blink_splt_lap-silent color rate rate 5000 (set_lap_splt off 0 l) h (darkens l c)).0

one_of :
    (b b' : Bool) (l l' l'' : Lights)
    → AreColoured l
    → AreColoured l'
    → AreColoured l''
    → AreColoured (if b then l else (if b' then l' else l''))
one_of true b' l l' l'' c c' c'' = c
one_of false true l l' l'' c c' c'' = c'
one_of false false l l' l'' c c' c'' = c''

feedback-AreColoured : (m : ℕ) (l : Lights) → AreColoured l → AreColoured (feedback m l)
unfolding feedback
feedback-AreColoured m l c =
    one_of (slt32 m (neg32 200)) (slt32 200 m) _ _ _ (blinks green (gain_rate m) l (omega arith) c)
      (blinks red (loss_rate m) l (omega arith) c) (darkens l c)

pub split_kit-KeepsColours :
    {R : Type 0} (memory : ℕ → Waypoint R) → KeepsColours (split_kit memory)
unfolding split_kit split_signal
split_kit-KeepsColours memory = record {
  signal = λ p l c. feedback-AreColoured p.split_margin l c;
  start = darkens;
  close = darkens;
}

two_leds_close-AreColoured : (l : Lights) → AreColoured l → AreColoured (two_leds_close l)
unfolding two_leds_close
two_leds_close-AreColoured l c =
    (set_splt-silent yellow 3000 (set_lap yellow 0 l) (omega arith)
      (set_lap-silent yellow 0 l (omega arith) c).0).0

module _ (D : Double) where
  open D use {Real, literal, neg, lt}

  pub two_leds_kit-KeepsColours :
      (memory : ℕ → Waypoint Real) (no_speed : Real) → KeepsColours (two_leds_kit D memory no_speed)
  unfolding two_leds_kit two_leds_signal two_leds_start
  two_leds_kit-KeepsColours memory no_speed = record {
    signal = λ p l c.
        (set_lap-silent (margin_colour p.lap_margin) 0
          (set_splt (margin_colour p.split_margin) 3000 l) (margin_colour-valid p.lap_margin)
          (set_splt-silent (margin_colour p.split_margin) 3000 l
            (margin_colour-valid p.split_margin) c).0).0;
    start = λ l c. two_leds_close-AreColoured (set_lap_splt off 0 l) (darkens l c);
    close = two_leds_close-AreColoured;
  }

  pub speed_kit-KeepsColours : (memory : ℕ → Waypoint Real) → KeepsColours (speed_kit D memory)
  unfolding speed_kit speed_signal split_kit
  speed_kit-KeepsColours memory = record {
    signal = λ p l c.
        (let m = p.speed_margin in
          one_of (lt (literal 1) m) (lt m (neg (literal 1))) _ _ _
            (blinks green (speed_gain_rate D m) l (omega arith) c)
            (blinks red (speed_loss_rate D m) l (omega arith) c) (darkens l c));
    start = darkens;
    close = darkens;
  }
