-- ===== src/Examples/Pictures.antt =====
-- A concrete Java, and the theorems on GPS_visualizer at work.
use speed_feed.Common.{
  ℕ, ◌+◌, ◌-◌, ◌*◌, ◌≡◌, refl, true, false, ◌&&◌, Option, none, some, List, [], ◌∷◌, arith, leb,
  ◌==◌, if◌then◌else◌,
}
use speed_feed.Led.{new_led, drive}
use speed_feed.Eeprom.{store_waypoints}
use speed_feed.Eeprom.RoundTrip.{store_waypoints-HoldsTrack}
use speed_feed.Receiver.{init_receiver, read}
use speed_feed.Waypoint.{Waypoint}
use speed_feed.Monitor.{monitor}
use speed_feed.Tracker.State.{disk1, done}
use speed_feed.Tracker.Loop.{pass}
use speed_feed.Tracker.Setup.{greet, set_up_board, setup}
use speed_feed.Tracker.Startup.{Sketch}
use speed_feed.Visualizer.{Java, Corners, new_view, take_text}
use speed_feed.Visualizer.Gates.{AllRead, with_track}
use speed_feed.Visualizer.Boot.{first_pass-shows}
use speed_feed.Examples.Board.{world, led_at}
use speed_feed.Examples.Chip.{Chip, chip_bus, chip-IsEeprom, blank_chip}
use speed_feed.Examples.Numbers.{Nibble, nibbles, nibbles-IsLayout}
use speed_feed.Examples.Reload.{nibble_gate, nibble_kit}

-- the number at the start of a text, with nothing but a line end after it
abbrev number_from : ℕ → List ℕ → Option ℕ
number_from n [] = some n
number_from n (c ∷ cs) =
    let rest = number_from (n * 10 + (c - b'0')) cs in
    if leb b'0' c && leb c b'9' then rest else (if c == 13 then some n else none)

abbrev number_of : List ℕ → Option ℕ
number_of [] = none
number_of (c ∷ cs) = if leb b'0' c && leb c b'9' then number_from 0 (c ∷ cs) else none

-- A number in the picture is that on the track and 100 more.
abbrev pub java : Java
java = record {
  Float = ℕ;
  zero = 0;
  parse_float = number_of;
  rescale = λ value from to low high. value + 100;
  x_min = 0;
  x_max = 1;
  y_min = 0;
  y_max = 1;
  width = 914;
  height = 764;
  thousandth = λ n. b'0' ∷ b'.' ∷ [];
  is_zero = λ n. n == 0;
}

abbrev pub two_gates : List (Waypoint Nibble)
two_gates = nibble_gate true ∷ nibble_gate false ∷ []

abbrev two_ends : List (Corners ℕ)
two_ends =
    record { x1 = 11; y1 = 7; x2 = 14; y2 = 3 } ∷ record { x1 = 10; y1 = 5; x2 = 8; y2 = 0 } ∷ []

two_gates-AllRead : AllRead nibbles java two_gates two_ends
two_gates-AllRead = ground arith

-- the chip with the two gates
abbrev pub stored : Chip
stored = store_waypoints nibbles chip_bus disk1 0 two_gates blank_chip

first_pass-shows_example :
    (x : Sketch nibbles chip_bus nibble_kit) × (pass nibbles chip_bus nibble_kit 5
        (some b'$')
        (setup nibbles chip_bus nibble_kit (led_at 2 3 1) world stored)
      ≡ done x)
    × (take_text java (monitor x.lights.world) (new_view java)
        ≡ some (with_track nibbles java two_ends (new_view java)))
unfolding set_up_board read init_receiver new_led drive greet
first_pass-shows_example =
    first_pass-shows nibbles nibbles-IsLayout chip_bus chip-IsEeprom nibble_kit java 5 (some b'$')
      (led_at 2 3 1) world stored two_gates two_ends (new_view java)
      (store_waypoints-HoldsTrack nibbles nibbles-IsLayout chip_bus chip-IsEeprom disk1 two_gates 0
        blank_chip (omega arith))
      (omega arith) (omega arith) refl refl two_gates-AllRead (refl, refl) refl
