-- ===== src/Examples/Speeds.antt =====
-- The sketch GPS_tracker_Single_Speed at work.
use speed_feed.Tracker.Colours.Signal.{speed_kit-KeepsColours}
use speed_feed.Tracker.Colours.Runs.{setup-AreColoured}
use speed_feed.Lights.Silent.{AreColoured}
use speed_feed.Tracker.Racing.{cross}
use speed_feed.Examples.Race.{third_next}
use speed_feed.Speed.Shown.{cross-IsSpeedSignal}
use speed_feed.Common.{get_elem?, arith, ◌≡◌, refl, some, none}
use speed_feed.Waypoint.{Waypoint}
use speed_feed.Receiver.{read}
use speed_feed.Tracker.State.{Tracker, Run, done}
use speed_feed.Tracker.Graph.Runs.{Passes}
use speed_feed.Speed.{speed_kit, speed_setup}
use speed_feed.Speed.Signal.{IsSpeedSignal}
use speed_feed.Tracker.Loop.{pass, by_state, second_half, end_pass}
use speed_feed.Tracker.Startup.{await_fix, reset_case, boot, load_track, send_waypoints}
use speed_feed.Tracker.Setup.{set_up_board, setup}
use speed_feed.Eeprom.{load_waypoints, load_each, load_gate, read_anything}
use speed_feed.Led.{new_led, drive}
use speed_feed.Nmea.{init_gps}
use speed_feed.Receiver.{init_receiver}
use speed_feed.Examples.Numbers.{Whole, whole_numbers}
use speed_feed.Examples.Chip.{Chip, chip_bus}
use speed_feed.Examples.Board.{world, led_at}
use speed_feed.Examples.Track.{gate}
use speed_feed.Examples.Sketch.{blank_gates, kit, result}
use speed_feed.Examples.Start.{one_gate}

abbrev after_speed_cross : Tracker Whole Chip
after_speed_cross =
    result (cross whole_numbers chip_bus (speed_kit whole_numbers blank_gates) gate third_next)

speed_cross-done :
    cross whole_numbers chip_bus (speed_kit whole_numbers blank_gates) gate third_next
    ≡ done after_speed_cross
unfolding cross
speed_cross-done = refl

cross-IsSpeedSignal_example :
    (p : Waypoint Whole) × (get_elem? after_speed_cross.waypoints 2 ≡ some p)
    × IsSpeedSignal whole_numbers p.speed_margin after_speed_cross.lights
cross-IsSpeedSignal_example =
    cross-IsSpeedSignal whole_numbers chip_bus blank_gates gate third_next after_speed_cross
      speed_cross-done (omega arith)

abbrev speed_start : Tracker Whole Chip
speed_start = speed_setup whole_numbers chip_bus kit.memory (led_at 2 3 1) world one_gate

abbrev speed_first : Run (Tracker Whole Chip)
speed_first = pass whole_numbers chip_bus (speed_kit whole_numbers kit.memory) 10 none speed_start

speed_first-done : (speed_first ≡ done (result speed_first)) × ((result speed_first).boot_flag ≡ 1)
unfolding pass by_state read reset_case boot load_track load_waypoints load_each load_gate
    read_anything send_waypoints second_half end_pass setup set_up_board new_led drive await_fix
    init_gps init_receiver speed_setup
speed_first-done = (refl, refl)

setup-AreColoured_example : AreColoured (result speed_first).lights
unfolding speed_setup
setup-AreColoured_example =
    setup-AreColoured whole_numbers chip_bus (speed_kit whole_numbers kit.memory)
      (speed_kit-KeepsColours whole_numbers kit.memory) (led_at 2 3 1) world one_gate
      (result speed_first) (Passes.next 10 none Passes.start speed_first-done.0)
