-- ===== src/Tracker/Setup.antt =====
-- The start of GPS_tracker_Single_Split.ino: its globals and `setup`.
pub mod Start
use speed_feed.Common.{◌∷◌, ◌++◌, ℕ, none, List, []}
use speed_feed.Platform.{World, pin_mode, command, emit}
use speed_feed.Double.{Double}
use speed_feed.Led.{Led, off, new_led}
use speed_feed.Lights.{Lights}
use speed_feed.Waypoint.{Waypoint}
use speed_feed.Eeprom.{Bus}
use speed_feed.Receiver.{init_receiver}
use speed_feed.Nmea.{init_gps}
use speed_feed.Tracker.State.{Kit, st_reset}
use speed_feed.Tracker.Startup.{Sketch}
use speed_feed.Monitor.{codes, line_end, print_text}

abbrev pub pin_pb : ℕ
pin_pb = 3

abbrev pub pin_lap_red : ℕ
pin_lap_red = 8

abbrev pub pin_lap_grn : ℕ
pin_lap_grn = 6

abbrev pub pin_splt_red : ℕ
pin_splt_red = 12

abbrev pub pin_splt_grn : ℕ
pin_splt_grn = 11

-- PMTK_SET_NMEA_OUTPUT_GGAONLY, PMTK_SET_NMEA_UPDATE_5HZ, PMTK_ENABLE_SBAS,
-- PMTK_API_SET_DGPS_MODE_WAAS and PMTK_Q_EASY, the last one outermost
unfoldable pub send_commands : World → World
send_commands w =
    emit (command 6) (emit (command 5) (emit (command 4) (emit (command 3) (emit (command 2) w))))

-- The first lines on the monitor: an empty one, and "reset," twice.
unfoldable pub greet : World → World
greet w =
    let reset = codes "reset," ++ line_end in
    print_text reset (print_text reset (print_text (10 ∷ line_end) w))

-- The calls that act on the LEDs, the button and the GPS module. `blank` is the memory that an
-- LED is built in.
unfoldable pub set_up_board : (blank : Led) → World → Lights
unfolding send_commands
set_up_board blank w =
    let w' = emit (pin_mode pin_pb) (send_commands w) in
    let (lap, w1) = new_led blank pin_lap_red pin_lap_grn off w' in
    let (splt, w2) = new_led blank pin_splt_red pin_splt_grn off w1 in
    record { lap = lap; splt = splt; world = w2 }

module _ (D : Double) (B : Bus) (kit : Kit D.Real) where
  -- The sketch when `setup` is done. The globals that have no initial value, and the static
  -- variables of `loop`, start at zero.
  unfoldable pub setup : (blank : Led) → World → B.State → Sketch D B kit
  unfolding set_up_board greet
  setup blank w eeprom = record {
    waypoints = [];
    lights = set_up_board blank (greet w);
    tracks = [];
    gps = init_gps D;
    receiver = init_receiver;
    eeprom = eeprom;
    pb_flag = 0;
    wp_next = 0;
    wp_last = 0;
    current_state = st_reset;
    next_state = st_reset;
    boot_flag = 0;
    reset_flag = 0;
    pb_timer = none;
    reset_timer = none;
    last_interrupt_time = 0;
  }
