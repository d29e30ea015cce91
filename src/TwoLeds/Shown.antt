-- ===== src/TwoLeds/Shown.antt =====
-- What the LEDs show after a crossing in a race (GPS_tracker_2LEDs_Split.ino, case ST_RACE).
use speed_feed.Monitor.{print_text}
use speed_feed.Tracker.Laps.View.{times}
use speed_feed.Tracker.Racing.{cross}
use speed_feed.Tracker.Shown.{cross-IsShown}
use speed_feed.Tracker.State.{done}
use speed_feed.Common.{
  some-injective, if◌then◌else◌, length, get_elem?, ℕ, ◌<◌, ◌≡◌, sym, ap, ◌∙◌, some, List,
}
use speed_feed.Led.Pulse.{any_after, prior_state}
use speed_feed.Led.Run.{run_led}
use speed_feed.TwoLeds.Verdict.{Margin, IsMargin, word_of, colour_of, two_leds_signal_lem}
use speed_feed.Double.{Double}
use speed_feed.Eeprom.{Bus}
use speed_feed.Waypoint.{Waypoint}
use speed_feed.TwoLeds.{two_leds_split, two_leds_kit, TwoLedsSketch}
use speed_feed.Platform.{millis, tick}

module _ (D : Double) (B : Bus) (memory : ℕ → Waypoint D.Real) (no_speed : D.Real) where
  open D use {Real}

  -- A crossing in a race, with the index of the next waypoint in bounds, after which that
  -- waypoint has the given margins: after any number of passes of `ledUpdate` at the given times
  -- the lap LED shows the colour of the lap, and the split LED that of the split until a pass
  -- comes more than three seconds after, and then what it showed before, or nothing if it was
  -- blinking. The colour is green for a time ahead of the best, red for one more than 100 ms
  -- behind it, and yellow otherwise.
  pub cross-colour_of :
      (split lap : Margin) (times : List ℕ) (gate p : Waypoint Real)
      (t u : TwoLedsSketch D B memory no_speed)
      → cross D B (two_leds_kit D memory no_speed) gate t ≡ done u
      → t.wp_next < length t.waypoints
      → get_elem? u.waypoints t.wp_next ≡ some p
      → IsMargin split
      → IsMargin lap
      → p.split_margin ≡ word_of split
      → p.lap_margin ≡ word_of lap
      → ((run_led times u.lights.lap u.lights.world).0.state ≡ colour_of lap)
        × ((run_led times u.lights.splt u.lights.world).0.state ≡ (
            if any_after (millis (tick t.lights.world)) 3000 times
            then prior_state t.lights.splt
            else colour_of split))
  unfolding two_leds_kit
  cross-colour_of split lap times gate p t u h n at hs hl es el =
      let c = cross-IsShown D B (two_leds_kit D memory no_speed) gate t u h n in
      let same : c.passed ≡ p = some-injective (sym c.is_passed ∙ at) in
      let l = record t.lights {
        world = print_text (two_leds_split D c.passed t.tracks t.lights) (tick t.lights.world);
      } in
      rw c.shown (
        two_leds_signal_lem c.passed split lap l times hs hl
          (ap (λ (q : Waypoint Real). q.split_margin) same ∙ es)
          (ap (λ (q : Waypoint Real). q.lap_margin) same ∙ el))
