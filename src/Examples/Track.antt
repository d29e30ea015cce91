-- ===== src/Examples/Track.antt =====
-- Gates and positions in whole numbers, a track of nibbles on the chip, and the theorems on
-- waypoints, crossings and the stored track at work on them.
use speed_feed.Common.{ℕ, ◌≡◌, true, false, List, [], ◌∷◌, arith, map, neg32}
use speed_feed.Platform.{World}
use speed_feed.Waypoint.{Waypoint, reset_waypoint}
use speed_feed.Waypoint.Best.{check_all, check_all-reset}
use speed_feed.Geometry.{Point}
use speed_feed.Eeprom.{load_waypoints, store_waypoints}
use speed_feed.Eeprom.RoundTrip.{ends, load-store}
use speed_feed.Examples.Numbers.{
  Whole, whole, whole_numbers, Nibble, nibble, nibbles, nibbles-IsLayout,
}
use speed_feed.Examples.Chip.{chip_bus, chip-IsEeprom, blank_chip}
use speed_feed.Examples.Board.{world}

abbrev pub gate_at : {R : Type 0} → R → (x1 y1 x2 y2 : R) → Waypoint R
gate_at none_yet x1 y1 x2 y2 = record {
  x1 = x1;
  y1 = y1;
  x2 = x2;
  y2 = y2;
  split_best = 0;
  split_margin = 0;
  last = 0;
  lap_best = 0;
  lap_margin = 0;
  speed = none_yet;
  speed_best = none_yet;
  speed_margin = none_yet;
  adjustment = 0;
}

-- from (50, 10) to (50, 90)
abbrev pub gate : Waypoint Whole
gate = gate_at (whole 0) (whole 50) (whole 10) (whole 50) (whole 90)

-- A waypoint with a best split of 4 s and a best lap of 60 s.
abbrev timed : Waypoint Whole
timed = record gate { split_best = 4000; lap_best = 60000; last = 900 }

-- the waypoint before it, last passed at 1500, with an adjustment of -200 ms
abbrev passed : Waypoint Whole
passed = record gate { last = 1500; adjustment = neg32 200 }

abbrev at_time : ℕ → World
at_time now = record world { clock = λ n. now }

-- Splits of 3.3 s, 2.9 s and 3.1 s.
check_all-reset_example :
    let p = check_all whole_numbers (reset_waypoint whole_numbers timed) (
      (passed, 1000, at_time 5000)
      ∷ (passed, 1000, at_time 4600)
      ∷ (passed, 1000, at_time 4800)
      ∷ []) in
    (p.split_best ≡ 2900) × (p.lap_best ≡ 3400)
check_all-reset_example =
    check_all-reset whole_numbers timed passed 1000 (at_time 5000)
      ((passed, 1000, at_time 4600) ∷ (passed, 1000, at_time 4800) ∷ []) (omega arith) (omega arith)

abbrev pub position : (x y t : ℕ) → Point Whole
position x y t = record { x = whole x; y = whole y; v = whole 40; t = t }

-- Two gates of nibbles, stored at address 0 of a blank chip and loaded.
abbrev stored_track : List (Waypoint Nibble)
stored_track =
    gate_at (nibble false false false false) (nibble true false false false)
      (nibble false true false false) (nibble false false true false)
      (nibble false false false true)
    ∷ gate_at (nibble false false false false) (nibble true true false false)
        (nibble false true true false) (nibble false false true true) (nibble true false false true)
    ∷ []

load-store_example :
    map ends
      (load_waypoints nibbles chip_bus
        (λ i.
          gate_at
            (nibble true true true true)
            (nibble true true true true)
            (nibble true true true true)
            (nibble true true true true)
            (nibble true true true true))
        0x50
        0
        []
        world
        (store_waypoints nibbles chip_bus 0x50 0 stored_track blank_chip)).0
    ≡ map ends stored_track
load-store_example =
    load-store nibbles nibbles-IsLayout chip_bus chip-IsEeprom 0x50
      (λ i.
        gate_at (nibble true true true true) (nibble true true true true)
          (nibble true true true true) (nibble true true true true) (nibble true true true true))
      stored_track 0 world blank_chip (omega arith)
