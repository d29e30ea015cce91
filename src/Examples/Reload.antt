-- ===== src/Examples/Reload.antt =====
-- A track closed by GPS_tracker_Single_Split.ino and loaded again, on numbers of four bits.
use speed_feed.Lights.{set_lap, set_splt, update_lights}
use speed_feed.Waypoint.{check_split}
use speed_feed.Tracker.Valid.Pass.{IsSettled, pass-IsSettled}
use speed_feed.Tracker.Stored.Survives.{track_survives}
use speed_feed.Tracker.Stored.Before.{KeepsCells}
use speed_feed.Tracker.Stored.Runs.{Passes-KeepsCells}
use speed_feed.Tracker.Graph.Runs.{Passes}
use speed_feed.Tracker.Racing.{split_kit, timer_or, note_press, hold_reset, race_button, test_gate}
use speed_feed.Tracker.State.{st_wpset, st_race, Tracker, Kit, Run, done}
use speed_feed.Tracker.Setup.{set_up_board, setup}
use speed_feed.Tracker.Setting.{wpset_case}
use speed_feed.Tracker.Loop.{
  by_state, store_and_race, close_on, close_track, by_fix, push_track, end_pass, took,
  echo_sentence, use_fix, after_parse, on_sentence, second_half, pass,
}
use speed_feed.Common.{
  length, ◌-◌, ◌≡◌, refl, Bool, true, false, none, some, [], ◌∷◌, ◌++◌, map, arith,
}
use speed_feed.Examples.Chip.{Chip, chip_bus, chip-IsEeprom, blank_chip}
use speed_feed.Examples.Track.{gate_at}
use speed_feed.Examples.Wire.{receiver, rmc}
use speed_feed.Examples.Numbers.{Nibble, nibble, nibbles, nibbles-IsLayout}
use speed_feed.Examples.Board.{world, led_at}
use speed_feed.Eeprom.RoundTrip.{ends}
use speed_feed.Sentence.{checksum_ok, next_field}
use speed_feed.Nmea.{init_gps, angle_of, parse_rmc, parse}
use speed_feed.Waypoint.{check_split, Waypoint}
use speed_feed.Led.{update_led, led_update, drive, new_led}
use speed_feed.Receiver.{zeros, init_receiver, read, last_nmea}
use speed_feed.Geometry.{new_point, meeting_point, meets, intersection}

abbrev pub zero_nibble : Nibble
zero_nibble = nibble false false false false

abbrev pub nibble_gate : Bool → Waypoint Nibble
nibble_gate b =
    gate_at zero_nibble (nibble b true false true) (nibble true b true false)
      (nibble false b b true) (nibble b b false false)

abbrev pub nibble_kit : Kit Nibble
nibble_kit = split_kit (λ i. nibble_gate false)

-- Two gates set, and a sentence that has come.
abbrev pub two_set : Tracker Nibble Chip
two_set = record (setup nibbles chip_bus nibble_kit (led_at 2 3 1) world blank_chip) {
  waypoints = nibble_gate true ∷ nibble_gate false ∷ [];
  receiver = record receiver { line2 = rmc ++ zeros (120 - length rmc); recvdflag = true };
  wp_next = 1;
  current_state = st_wpset;
  next_state = st_wpset;
  boot_flag = 1;
}

abbrev pub tracker_of : Run (Tracker Nibble Chip) → Tracker Nibble Chip
tracker_of (done t) = t
tracker_of _ = two_set

abbrev closed : Run (Tracker Nibble Chip)
closed = pass nibbles chip_bus nibble_kit 10 none two_set

-- The start line is crossed.
closed-done :
    (closed ≡ done (tracker_of closed))
    × ((tracker_of closed).current_state ≡ st_race)
    × (length (tracker_of closed).waypoints ≡ 2)
unfolding pass by_state read wpset_case second_half on_sentence last_nmea parse parse_rmc
    checksum_ok next_field angle_of after_parse took echo_sentence use_fix push_track new_point
    by_fix close_track close_on store_and_race test_gate intersection meets meeting_point end_pass
    setup set_up_board new_led drive init_gps
closed-done = (refl, refl, refl)

abbrev raced : Run (Tracker Nibble Chip)
raced = pass nibbles chip_bus nibble_kit 10 (some b'$') (tracker_of closed)

-- a pass in the race
raced-done : raced ≡ done (tracker_of raced)
unfolding pass by_state read wpset_case second_half on_sentence last_nmea parse parse_rmc
    checksum_ok next_field angle_of after_parse took echo_sentence use_fix push_track new_point
    by_fix close_track close_on store_and_race test_gate intersection meets meeting_point end_pass
    setup set_up_board new_led drive init_gps race_button note_press hold_reset timer_or
    update_lights led_update update_led split_kit set_splt set_lap check_split
raced-done = refl

two_set-IsSettled : IsSettled nibbles chip_bus nibble_kit two_set
unfolding setup
two_set-IsSettled = record {
  valid = record {
    nonempty = λ h. omega arith;
    next_in = omega arith;
    last_in = omega arith;
    short = omega arith;
    bounds = record { size1 = refl; size2 = refl; index = omega arith };
  };
  agree = refl;
}

abbrev after_closing : Passes nibbles chip_bus nibble_kit (tracker_of closed) (tracker_of raced)
after_closing = Passes.next 10 (some b'$') Passes.start raced-done

track_survives_example :
    (x : Tracker Nibble Chip) × (pass nibbles chip_bus nibble_kit 5
        (some b'$')
        (setup nibbles chip_bus nibble_kit (led_at 2 3 1) world (tracker_of raced).eeprom)
      ≡ done x)
    × (map ends x.waypoints ≡ map ends (tracker_of closed).waypoints)
unfolding setup set_up_board read init_receiver new_led drive
track_survives_example =
    track_survives nibbles nibbles-IsLayout chip_bus chip-IsEeprom nibble_kit 10 5 none (some b'$')
      two_set (tracker_of closed) (tracker_of raced) (led_at 2 3 1) world closed-done.0
      two_set-IsSettled refl closed-done.1 (omega (arith, closed-done.2)) after_closing refl refl

Passes-KeepsCells_example :
    KeepsCells nibbles chip_bus chip-IsEeprom nibble_kit (tracker_of closed) (tracker_of raced)
Passes-KeepsCells_example =
    Passes-KeepsCells nibbles chip_bus chip-IsEeprom nibble_kit (tracker_of closed)
      (tracker_of raced) after_closing
      (pass-IsSettled nibbles chip_bus nibble_kit 10 none two_set (tracker_of closed) closed-done.0
        two_set-IsSettled)
      (rw closed-done.1 refl)
