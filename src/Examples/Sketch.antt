-- ===== src/Examples/Sketch.antt =====
-- States of the sketch GPS_tracker_Single_Split, and the theorems on its loop at work on them.
use speed_feed.Waypoint.{Waypoint}
use speed_feed.Common.{ℕ, ◌-◌, ◌≡◌, true, refl, none, some, [], ◌∷◌, ◌++◌, length, arith}
use speed_feed.Geometry.{intersection, meets, meeting_point, new_point}
use speed_feed.Receiver.{zeros, read, last_nmea}
use speed_feed.Sentence.{checksum_ok, next_field}
use speed_feed.Nmea.{parse, parse_rmc, angle_of}
use speed_feed.Lights.{Lights}
use speed_feed.Tracker.State.{Kit, st_reset, st_race, Tracker, Run, done, fault}
use speed_feed.Tracker.Loop.{
  pass, by_state, second_half, on_sentence, after_parse, took, echo_sentence, use_fix, push_track,
  by_fix, end_pass,
}
use speed_feed.Tracker.Racing.{
  split_kit, race_case, race_button, note_press, hold_reset, timer_or, race_on, test_gate, cross,
  record_split,
}
use speed_feed.Tracker.Valid.Pass.{IsSettled}
use speed_feed.Tracker.Defined.{Ends, pass-Ends}
use speed_feed.Tracker.Boot.{pass-blank}
use speed_feed.Examples.Numbers.{Whole, whole, whole_numbers}
use speed_feed.Examples.Chip.{Chip, chip_bus, chip-IsEeprom, blank_chip}
use speed_feed.Examples.Board.{world, lap_led, splt_led}
use speed_feed.Examples.Track.{gate_at, position}
use speed_feed.Examples.Wire.{receiver, gps, rmc, parse-rmc}

abbrev pub lights : Lights
lights = record { lap = lap_led; splt = splt_led; world = world }

abbrev pub blank_gates : ℕ → Waypoint Whole
blank_gates i = gate_at (whole 0) (whole 0) (whole 0) (whole 0) (whole 0)

abbrev pub kit : Kit Whole
kit = split_kit blank_gates

-- switched on, with a blank chip
abbrev pub switched_on : Tracker Whole Chip
switched_on = record {
  waypoints = [];
  lights = lights;
  tracks = [];
  gps = gps;
  receiver = receiver;
  eeprom = blank_chip;
  pb_flag = 0;
  wp_next = 0;
  wp_last = 0;
  current_state = st_reset;
  next_state = st_reset;
  boot_flag = 0;
  reset_flag = 0;
  pb_timer = none;
  reset_timer = none;
  last_interrupt_time = 0;
}

pass-blank_example : pass whole_numbers chip_bus kit 10 none switched_on ≡ fault
pass-blank_example =
    pass-blank whole_numbers chip_bus chip-IsEeprom kit 10 none switched_on refl refl refl refl
      (λ h. ground arith)

-- A race over two gates, with the car before the second one and a sentence that puts it behind.
abbrev pub racing : Tracker Whole Chip
racing = record switched_on {
  waypoints =
      record (gate_at (whole 0) (whole 28600000) (whole 14000000) (whole 28600000)
        (whole 15000000)) { last = 3000 }
      ∷ gate_at (whole 0) (whole 28700000) (whole 14000000) (whole 28700000) (whole 15000000)
      ∷ [];
  tracks = position 28650000 14400000 4000 ∷ [];
  receiver = record receiver { line2 = rmc ++ zeros (120 - length rmc); recvdflag = true };
  wp_next = 1;
  current_state = st_race;
  next_state = st_race;
  boot_flag = 1;
}

abbrev pub result : Run (Tracker Whole Chip) → Tracker Whole Chip
result (done t) = t
result _ = switched_on

abbrev pub next_pass : Run (Tracker Whole Chip)
next_pass = pass whole_numbers chip_bus kit 10 (some b'$') racing

-- The gate is crossed: the first is next.
pub next_pass-done : (next_pass ≡ done (result next_pass)) × ((result next_pass).wp_next ≡ 0)
unfolding pass by_state read second_half on_sentence last_nmea parse parse_rmc checksum_ok
    next_field angle_of after_parse took echo_sentence use_fix push_track new_point by_fix race_case
    race_button note_press hold_reset timer_or race_on test_gate intersection meets meeting_point
    cross record_split end_pass
next_pass-done = (refl, refl)

pub racing-IsSettled : IsSettled whole_numbers chip_bus kit racing
racing-IsSettled = record {
  valid = record {
    nonempty = λ h. omega arith;
    next_in = omega arith;
    last_in = omega arith;
    short = omega arith;
    bounds = record { size1 = refl; size2 = refl; index = omega arith };
  };
  agree = refl;
}

-- the sentence that the pass takes up
racing-sentence : (last_nmea (read (some b'$') racing.receiver).1).0 ≡ rmc
unfolding last_nmea read
racing-sentence = refl

pass-Ends_example : Ends next_pass
pass-Ends_example =
    pass-Ends whole_numbers chip_bus kit 10 (some b'$') racing racing-IsSettled refl
      (λ came. rw (racing-sentence, parse-rmc) (λ h. cc))
