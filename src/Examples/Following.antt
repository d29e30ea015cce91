-- ===== src/Examples/Following.antt =====
-- A run of GPS_tracker_2LEDs_Split that GPS_visualizer follows.
use speed_feed.Visualizer.Following.{Follows}
use speed_feed.TwoLeds.{two_leds_kit}
use speed_feed.Waypoint.{new_waypoint}
use speed_feed.Tracker.Racing.{test_gate}
use speed_feed.Geometry.{meeting_point, meets, intersection, new_point}
use speed_feed.Sentence.{next_field, checksum_ok}
use speed_feed.Examples.Sketch.{lights}
use speed_feed.Visualizer.Texts.{PlainTexts}
use speed_feed.Tracker.Setting.{set_here, add_waypoint, wpset_case}
use speed_feed.Receiver.{last_nmea, init_receiver, read}
use speed_feed.Eeprom.{store_waypoints, read_anything, load_waypoints}
use speed_feed.Led.{drive, new_led}
use speed_feed.Tracker.Startup.{await_fix, send_waypoints, reset_case}
use speed_feed.Common.{
  none, length, Bool, ◌%◌, ◌+◌, ◌/◌, ◌<◌, ℕ, zero, suc, ◌≡◌, refl, true, false, ◌++◌, some, List,
  [], ◌∷◌, arith, map,
}
use speed_feed.Eeprom.RoundTrip.{store_waypoints-HoldsTrack}
use speed_feed.Monitor.{codes, line_end, monitor}
use speed_feed.Nmea.{angle_of, parse_rmc, parse, init_gps}
use speed_feed.Tracker.State.{Tracker, disk1, done, st_reset, st_wpset}
use speed_feed.Tracker.Loop.{
  store_and_race, close_on, close_track, by_fix, push_track, use_fix, echo_sentence, took,
  after_parse, on_sentence, end_pass, second_half, by_state, pass, take_interrupt,
}
use speed_feed.Tracker.Setup.{greet, set_up_board, setup}
use speed_feed.Visualizer.{same_text, Shown, new_view, take_text}
use speed_feed.Visualizer.Gates.{with_track, AllRead, Reads}
use speed_feed.Visualizer.Lines.{Plain, lacks}
use speed_feed.Visualizer.Follow.{ShowsTrack, corners_read}
use speed_feed.Visualizer.Runs.{setup-ShowsTrack}
use speed_feed.Visualizer.Hearing.{Hears-Follows, IsSentence, SwitchReads, Hears}
use speed_feed.Examples.Board.{world, led_at}
use speed_feed.Examples.Chip.{Chip, chip_bus, chip-IsEeprom, blank_chip}
use speed_feed.Examples.Lines.{
  lights-AreColoured, one_line, there, here, two_nibble_kit, nibble_memory,
}
use speed_feed.Examples.Numbers.{
  Nibble, nibble, nibbles, nibbles-IsLayout, size_of, decimal, decimal_from,
}
use speed_feed.Examples.Pictures.{java, two_gates, stored}
use speed_feed.Examples.Reload.{two_set, tracker_of, zero_nibble}

decimal_from-lacks :
    (d fuel n : ℕ) (rest : List ℕ)
    → d < 48
    → lacks d rest ≡ true
    → lacks d (decimal_from fuel n rest) ≡ true
decimal_from-lacks d zero n rest h l = l
decimal_from-lacks d (suc fuel) n rest h l =
    ground (arith, decimal_from-lacks d fuel (n / 10) ((b'0' + n % 10) ∷ rest) h)

decimal-Plain : (n : ℕ) → Plain (decimal n)
decimal-Plain n = (
  decimal_from-lacks 10 20 n [] (omega arith) refl,
  decimal_from-lacks b',' 20 n [] (omega arith) refl,
)

-- what is read from the text of one of the sixteen numbers
abbrev IsRead : Nibble → Type 0
IsRead a =
    (same_text (nibbles.show8 a) (codes "nan") ≡ false)
    × (java.parse_float (nibbles.show8 a) ≡ some (size_of a))
    × (java.parse_float (nibbles.show8 a ++ line_end) ≡ some (size_of a))

nibbles-IsRead : (a : Nibble) → IsRead a
nibbles-IsRead (nibble false false false false) = (refl, refl, refl)
nibbles-IsRead (nibble false false false true) = (refl, refl, refl)
nibbles-IsRead (nibble false false true false) = (refl, refl, refl)
nibbles-IsRead (nibble false false true true) = (refl, refl, refl)
nibbles-IsRead (nibble false true false false) = (refl, refl, refl)
nibbles-IsRead (nibble false true false true) = (refl, refl, refl)
nibbles-IsRead (nibble false true true false) = (refl, refl, refl)
nibbles-IsRead (nibble false true true true) = (refl, refl, refl)
nibbles-IsRead (nibble true false false false) = (refl, refl, refl)
nibbles-IsRead (nibble true false false true) = (refl, refl, refl)
nibbles-IsRead (nibble true false true false) = (refl, refl, refl)
nibbles-IsRead (nibble true false true true) = (refl, refl, refl)
nibbles-IsRead (nibble true true false false) = (refl, refl, refl)
nibbles-IsRead (nibble true true false true) = (refl, refl, refl)
nibbles-IsRead (nibble true true true false) = (refl, refl, refl)
nibbles-IsRead (nibble true true true true) = (refl, refl, refl)

nibbles-Reads : (a : Nibble) → Reads nibbles java a (size_of a)
nibbles-Reads a =
    let (number, read, read_end) = nibbles-IsRead a in
    record { plain = decimal-Plain (size_of a); number = number; read = read; read_end = read_end }

nibbles-PlainTexts : PlainTexts nibbles java
nibbles-PlainTexts = record { real = λ a. decimal-Plain (size_of a); long = decimal-Plain }

two_gates-Read : AllRead nibbles java two_gates (map (corners_read nibbles java size_of) two_gates)
two_gates-Read = ground arith

abbrev on : Tracker Nibble Chip
on = tracker_of (
    pass nibbles chip_bus two_nibble_kit 5 (some b'$')
      (setup nibbles chip_bus two_nibble_kit (led_at 2 3 1) world stored))

abbrev heard_a : Tracker Nibble Chip
heard_a = tracker_of (pass nibbles chip_bus two_nibble_kit 5 (some b'A') on)

-- The two passes come to their end, and no line is complete.
on-done :
    (pass nibbles chip_bus two_nibble_kit 5
        (some b'$')
        (setup nibbles chip_bus two_nibble_kit (led_at 2 3 1) world stored)
      ≡ done on)
    × (pass nibbles chip_bus two_nibble_kit 5 (some b'A') on ≡ done heard_a)
    × ((read (some b'A') on.receiver).1.recvdflag ≡ false)
    × (on.current_state ≡ st_reset)
unfolding pass by_state setup reset_case new_led drive send_waypoints load_waypoints read_anything
    store_waypoints second_half await_fix init_gps read init_receiver end_pass
on-done = (refl, refl, refl, refl)

not_both : {A : Type 0} (b : Bool) → b ≡ false → b ≡ true → A
not_both true e h = cc
not_both false e h = cc

not_set_yet :
    {A : Type 0} (t : Tracker Nibble Chip)
    → t.current_state ≡ st_reset
    → t.current_state ≡ st_wpset
    → A
not_set_yet t i w = cc

-- a pass that hears a character, and the button
abbrev whole_run :
    Hears nibbles chip_bus two_nibble_kit java size_of on
      (take_interrupt nibbles chip_bus two_nibble_kit heard_a)
whole_run = Hears.press (
    Hears.next 5 (some b'A') Hears.start on-done.1 (not_both _ on-done.2)
      (not_set_yet on on-done.3))

setup-ShowsTrack_example :
    (v : Shown java) × (take_text java
        (monitor (take_interrupt nibbles chip_bus two_nibble_kit heard_a).lights.world)
        (new_view java)
      ≡ some v)
    × ShowsTrack nibbles java size_of
        (take_interrupt nibbles chip_bus two_nibble_kit heard_a).waypoints
        v
unfolding setup set_up_board read init_receiver new_led drive greet
setup-ShowsTrack_example =
    setup-ShowsTrack nibbles nibbles-IsLayout chip_bus chip-IsEeprom nibble_memory zero_nibble java
      size_of nibbles-PlainTexts 5 (some b'$') (led_at 2 3 1) world stored two_gates (new_view java)
      on (take_interrupt nibbles chip_bus two_nibble_kit heard_a)
      (store_waypoints-HoldsTrack nibbles nibbles-IsLayout chip_bus chip-IsEeprom disk1 two_gates 0
        blank_chip (omega arith))
      (omega arith) (omega arith) refl refl two_gates-Read (refl, refl) refl on-done.0 whole_run

-- service mode, the button just pressed at the third gate of a track, and a sentence that has come
abbrev setting : Tracker Nibble Chip
setting = record two_set {
  lights = lights;
  pb_flag = 1;
  tracks = here ∷ there ∷ [];
  gps = record (init_gps nibbles) { fixquality = 1 };
}

abbrev third_set : Tracker Nibble Chip
third_set = tracker_of (pass nibbles chip_bus two_nibble_kit 5 none setting)

third_set-done :
    (pass nibbles chip_bus two_nibble_kit 5 none setting ≡ done third_set)
    × (length third_set.waypoints ≡ 3)
unfolding pass by_state read wpset_case second_half on_sentence last_nmea parse parse_rmc
    checksum_ok next_field angle_of after_parse took echo_sentence use_fix push_track new_point
    by_fix close_track close_on test_gate intersection meets meeting_point end_pass setup
    store_and_race set_up_board new_led drive init_gps add_waypoint new_waypoint set_here
    two_leds_kit
third_set-done = (refl, refl)

abbrev ThirdReads : Type 0
ThirdReads = SwitchReads nibbles chip_bus two_nibble_kit java size_of (
    by_state nibbles chip_bus two_nibble_kit 5 setting.current_state
      (record setting { receiver = (read none setting.receiver).1 }))

third_set-reads : ThirdReads
unfolding by_state read wpset_case add_waypoint new_waypoint set_here two_leds_kit
third_set-reads = ground arith

third_set-IsSentence : IsSentence (last_nmea (read none setting.receiver).1).0
unfolding read last_nmea
third_set-IsSentence = record { rest = one_line; is_text = refl; one_line = refl }

-- the view in which the first two gates are shown
abbrev two_shown : Shown java
two_shown =
    with_track nibbles java (map (corners_read nibbles java size_of) two_gates) (new_view java)

Hears-Follows_example :
    Follows nibbles chip_bus two_nibble_kit java size_of setting
      (take_interrupt nibbles chip_bus two_nibble_kit third_set)
      two_shown
Hears-Follows_example =
    Hears-Follows nibbles chip_bus nibble_memory zero_nibble java size_of nibbles-PlainTexts setting
      (take_interrupt nibbles chip_bus two_nibble_kit third_set) two_shown
      (Hears.press (
        Hears.next 5 none Hears.start third_set-done.0 (λ h. third_set-IsSentence)
          λ h. third_set-reads))
      (record { coloured = lights-AreColoured; booted = refl; shown = (refl, refl) })
