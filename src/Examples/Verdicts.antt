-- ===== src/Examples/Verdicts.antt =====
-- The two LEDs of GPS_tracker_2LEDs_Split.ino after a split, and lines heard_text by the receiver.
use speed_feed.TwoLeds.Shown.{cross-colour_of}
use speed_feed.Tracker.Racing.{record_split, cross}
use speed_feed.Tracker.State.{Tracker, Kit, Run, done}
use speed_feed.Examples.Chip.{Chip, chip_bus}
use speed_feed.Examples.Race.{third_next}
use speed_feed.Receiver.Plain.{hear, hear_all, view}
use speed_feed.Receiver.Refine.{AllChars, feed_refines}
use speed_feed.Common.{
  get_elem?, Option, none, some, neg32, ℕ, ◌≡◌, refl, true, false, List, [], ◌∷◌, arith,
}
use speed_feed.Examples.Track.{gate}
use speed_feed.Examples.Sketch.{blank_gates, result}
use speed_feed.Examples.Numbers.{whole, whole_numbers, Whole}
use speed_feed.Led.Pulse.{prior_state}
use speed_feed.Led.Run.{run_led}
use speed_feed.TwoLeds.Verdict.{ahead, behind}
use speed_feed.Waypoint.{check_split, Waypoint}
use speed_feed.Led.{red}
use speed_feed.Receiver.{init_receiver, last_nmea, feed}
use speed_feed.TwoLeds.{two_leds_kit}

-- a gate with a best split and a best lap
abbrev pub verdict_gate : Waypoint Whole
verdict_gate = record gate { split_best = 5000; lap_best = 2000 }

abbrev pub waypoint_at : Option (Waypoint Whole) → Waypoint Whole
waypoint_at none = gate
waypoint_at (some p) = p

abbrev pub two_kit : Kit Whole
two_kit = two_leds_kit whole_numbers blank_gates (whole 0)

abbrev verdict_cross : Run (Tracker Whole Chip)
verdict_cross = cross whole_numbers chip_bus two_kit verdict_gate third_next

abbrev verdict_point : Waypoint Whole
verdict_point = waypoint_at (get_elem? (result verdict_cross).waypoints 2)

verdict-done :
    (verdict_cross ≡ done (result verdict_cross))
    × (get_elem? (result verdict_cross).waypoints 2 ≡ some verdict_point)
unfolding cross record_split check_split
verdict-done = (refl, refl)

abbrev passes_at : List ℕ
passes_at = 900 ∷ 2000 ∷ 3500 ∷ 7000 ∷ []

-- four seconds ahead of the best split, and one behind the best lap
margins : (verdict_point.split_margin ≡ neg32 4000) × (verdict_point.lap_margin ≡ 1000)
unfolding cross record_split check_split
margins = (refl, refl)

cross-colour_of_example :
    let u = result verdict_cross in
    ((run_led passes_at u.lights.lap u.lights.world).0.state ≡ red)
    × ((run_led passes_at u.lights.splt u.lights.world).0.state
        ≡ prior_state third_next.lights.splt)
cross-colour_of_example =
    cross-colour_of whole_numbers chip_bus blank_gates (whole 0) (ahead 4000) (behind 1000)
      passes_at verdict_gate verdict_point third_next (result verdict_cross) verdict-done.0
      (omega arith) verdict-done.1 (omega arith, omega arith) (omega arith) margins.0 margins.1

-- a broken line, a line, and the start of another
abbrev heard_text : List ℕ
heard_text = b'$' ∷ b'G' ∷ b'$' ∷ b'P' ∷ 13 ∷ 10 ∷ b'A' ∷ []

heard_text-AllChars : AllChars heard_text
heard_text-AllChars = ground arith

feed_refines_example :
    ((last_nmea (feed heard_text init_receiver)).0 ≡ b'$' ∷ b'P' ∷ [])
    × ((feed heard_text init_receiver).recvdflag ≡ true)
    × (view (last_nmea (feed heard_text init_receiver)).1
        ≡ record { partial = b'A' ∷ []; whole = b'$' ∷ b'P' ∷ []; news = false })
unfolding hear_all hear
feed_refines_example = feed_refines heard_text heard_text-AllChars
