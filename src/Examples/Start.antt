-- ===== src/Examples/Start.antt =====
-- The start of the sketch GPS_tracker_Single_Split and its service mode, at work.
use speed_feed.Common.{
  ℕ, ◌-◌, ◌≡◌, ◌≢◌, refl, true, none, List, [], ◌∷◌, ◌++◌, length, if◌then◌else◌, ◌==◌,
}
use speed_feed.Led.{new_led, drive}
use speed_feed.Eeprom.{load_waypoints, load_each, load_gate, read_anything}
use speed_feed.Receiver.{init_receiver, zeros, read, last_nmea}
use speed_feed.Sentence.{checksum_ok, next_field, atoi}
use speed_feed.Nmea.{init_gps, parse, parse_gga, angle_of}
use speed_feed.Tracker.State.{st_sfset, st_wpset, Tracker, Run, done}
use speed_feed.Tracker.Startup.{await_fix, reset_case, boot, load_track, send_waypoints}
use speed_feed.Tracker.Setting.{wpset_case}
use speed_feed.Tracker.Loop.{
  take_interrupt, pass, by_state, second_half, on_sentence, after_parse, took, echo_sentence,
  use_fix, end_pass,
}
use speed_feed.Tracker.Valid.Pass.{IsSettled}
use speed_feed.Tracker.Graph.Runs.{Passes}
use speed_feed.Tracker.Setup.{set_up_board, setup}
use speed_feed.Tracker.Setup.Start.{setup-Passes}
use speed_feed.Tracker.Service.{IsWaiting, NoRmc, NoRmc-IsWaiting}
use speed_feed.Examples.Numbers.{Whole, whole_numbers}
use speed_feed.Examples.Chip.{Chip, chip_bus}
use speed_feed.Examples.Board.{world, led_at}
use speed_feed.Examples.Track.{gate}
use speed_feed.Examples.Wire.{receiver}
use speed_feed.Examples.Sketch.{kit, racing, result}

-- a chip with one gate stored
abbrev pub one_gate : Chip
one_gate = record { pointer = 0; memory = λ d a. if a == 0 then 0x24 else 1 }

abbrev set_up : Tracker Whole Chip
set_up = setup whole_numbers chip_bus kit (led_at 2 3 1) world one_gate

abbrev pub first_pass : Run (Tracker Whole Chip)
first_pass = pass whole_numbers chip_bus kit 10 none set_up

-- the gate is loaded
pub first_pass-done :
    (first_pass ≡ done (result first_pass)) × (length (result first_pass).waypoints ≡ 1)
unfolding pass by_state read reset_case boot load_track load_waypoints load_each load_gate
    read_anything send_waypoints second_half end_pass setup set_up_board new_led drive await_fix
    init_gps init_receiver
first_pass-done = (refl, refl)

setup-Passes_example :
    IsSettled whole_numbers chip_bus kit (result first_pass)
    × ((result first_pass).current_state ≢ st_sfset)
setup-Passes_example =
    setup-Passes whole_numbers chip_bus kit (led_at 2 3 1) world one_gate (result first_pass)
      (Passes.next 10 none Passes.start first_pass-done.0)

-- $GPGGA,1,4000,N,8000,E,2,5,1,9,M,8,
abbrev gga : List ℕ
gga =
    b'$' ∷ b'G' ∷ b'P' ∷ b'G' ∷ b'G' ∷ b'A' ∷ b',' ∷ b'1' ∷ b',' ∷ b'4' ∷ b'0' ∷ b'0' ∷ b'0' ∷ b','
    ∷ b'N' ∷ b',' ∷ b'8' ∷ b'0' ∷ b'0' ∷ b'0' ∷ b',' ∷ b'E' ∷ b',' ∷ b'2' ∷ b',' ∷ b'5' ∷ b','
    ∷ b'1' ∷ b',' ∷ b'9' ∷ b',' ∷ b'M' ∷ b',' ∷ b'8' ∷ b',' ∷ []

-- Service mode, the button pressed, and the sentence come.
abbrev in_service : Tracker Whole Chip
in_service = record racing {
  waypoints = gate ∷ [];
  tracks = [];
  receiver = record receiver { line2 = gga ++ zeros (120 - length gga); recvdflag = true };
  pb_flag = 1;
  current_state = st_wpset;
  next_state = st_wpset;
}

abbrev service_pass : Run (Tracker Whole Chip)
service_pass = pass whole_numbers chip_bus kit 10 none in_service

-- The quality of the fix is read, and the press is used up.
service_pass-done :
    (service_pass ≡ done (result service_pass))
    × ((result service_pass).gps.fixquality ≡ 2)
    × ((result service_pass).pb_flag ≡ 0)
unfolding pass by_state read wpset_case second_half on_sentence last_nmea parse parse_gga
    checksum_ok next_field angle_of atoi after_parse took echo_sentence use_fix end_pass
service_pass-done = (refl, refl, refl)

-- the pass, and a press after it
abbrev pressed : Tracker Whole Chip
pressed = take_interrupt whole_numbers chip_bus kit (result service_pass)

NoRmc-IsWaiting_example : IsWaiting whole_numbers chip_bus kit (gate ∷ []) pressed
unfolding read last_nmea
NoRmc-IsWaiting_example =
    NoRmc-IsWaiting whole_numbers chip_bus kit (gate ∷ []) in_service pressed
      (NoRmc.press (NoRmc.next 10 none NoRmc.start (λ came. refl) service_pass-done.0))
      (record {
        setting = refl;
        stays = refl;
        no_fix = refl;
        no_tracks = refl;
        same_waypoints = refl;
      })
