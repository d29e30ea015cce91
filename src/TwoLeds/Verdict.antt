-- ===== src/TwoLeds/Verdict.antt =====
-- What the two LEDs of GPS_tracker_2LEDs_Split.ino show in the time after a split.
use speed_feed.Common.{ℕ, ◌<◌, ◌≤◌, ◌^◌, ◌≡◌, ap, ◌∙◌, List, arith, ltb, if◌then◌else◌, neg32}
use speed_feed.Platform.{millis}
use speed_feed.Led.{red, green, yellow, set_led}
use speed_feed.Led.Run.{run_led}
use speed_feed.Led.Pulse.{any_after, prior_state, state-run_led-set_led, steady_lem}
use speed_feed.Lights.{Lights, set_lap, set_splt}
use speed_feed.Waypoint.{Waypoint}
use speed_feed.TwoLeds.{margin_colour, two_leds_signal}

-- A time that is some milliseconds ahead of the best, or behind it, by as much as a signed word
-- holds, and the word that the sketch has for it.
pub data Margin : Type 0 where
  ahead : ℕ → Margin
  behind : ℕ → Margin

abbrev pub IsMargin : Margin → Type 0
IsMargin (ahead s) = (0 < s) × (s ≤ 2 ^ 31)
IsMargin (behind s) = s < 2 ^ 31

abbrev pub word_of : Margin → ℕ
word_of (ahead s) = neg32 s
word_of (behind s) = s

abbrev pub colour_of : Margin → ℕ
colour_of (ahead s) = green
colour_of (behind s) = if ltb 100 s then red else yellow

margin_colour-word_of : (m : Margin) → IsMargin m → margin_colour (word_of m) ≡ colour_of m
unfolding margin_colour
margin_colour-word_of (ahead s) h = ground arith
margin_colour-word_of (behind s) h = ground arith

-- After a split that is `split` from the best split and `lap` from the best lap, and after any
-- number of passes of `ledUpdate` at the given times: the lap LED shows the colour of the lap,
-- and the split LED that of the split until a pass comes more than three seconds after, and then
-- what it showed before, or nothing if it was blinking. The colour is green for a time ahead of
-- the best, red for one more than 100 ms behind it, and yellow otherwise.
pub two_leds_signal_lem :
    {R : Type 0} (p : Waypoint R) (split lap : Margin) (l : Lights) (times : List ℕ)
    → IsMargin split
    → IsMargin lap
    → p.split_margin ≡ word_of split
    → p.lap_margin ≡ word_of lap
    → let l' = two_leds_signal p l in
      ((run_led times l'.lap l'.world).0.state ≡ colour_of lap)
      × ((run_led times l'.splt l'.world).0.state
          ≡ (if any_after (millis l.world) 3000 times then prior_state l.splt else colour_of split))
unfolding two_leds_signal set_lap set_splt
two_leds_signal_lem p split lap l times hs hl es el =
    let w = (set_led l.splt (margin_colour p.split_margin) 3000 l.world).1 in
    let v = (set_led l.lap (margin_colour p.lap_margin) 0 w).1 in
    let a = ap margin_colour es ∙ margin_colour-word_of split hs in
    let b = ap margin_colour el ∙ margin_colour-word_of lap hl in
    (
      steady_lem l.lap (margin_colour p.lap_margin) w times ∙ b,
      rw (← a) (
          state-run_led-set_led l.splt (margin_colour p.split_margin) 3000 l.world v times
            (omega arith)),
    )

-- the colour of a margin is one of the four
pub margin_colour-valid : (m : ℕ) → margin_colour m ≤ yellow
unfolding margin_colour
margin_colour-valid m = ground arith
