-- ===== src/Examples/Board.antt =====
-- Two LEDs on the pins of the sketches, and the theorems on LEDs at work on them.
use speed_feed.Common.{ℕ, ◌+◌, ◌*◌, ◌≡◌, true, false, [], ◌∷◌, arith}
use speed_feed.Platform.{World, digital_write}
use speed_feed.Led.{Led, off, red, green, set_led, blink_continuous}
use speed_feed.Led.Run.{run_led}
use speed_feed.Led.Pulse.{pulse_lem}
use speed_feed.Led.Blink.{IsDark, blink_continuous_lem}

-- A clock of 100 ms a call; the button is up; two LEDs are lit green, on pins 2 and 3, and red,
-- on pins 4 and 5.
abbrev pub world : World
world = record {
  clock = λ n. 5000 + n * 100;
  clock_reads = 0;
  button = λ n. true;
  button_reads = 0;
  log =
      digital_write 5 false
      ∷ digital_write 4 true
      ∷ digital_write 3 true
      ∷ digital_write 2 false
      ∷ [];
}

abbrev pub led_at : (pin_red pin_grn state : ℕ) → Led
led_at pin_red pin_grn state = record {
  pin_red = pin_red;
  pin_grn = pin_grn;
  state = state;
  blink = off;
  next_state = state;
  high_time = 0;
  low_time = 0;
  start_time = 0;
  end_time = 0;
  blink_start_time = 0;
}

abbrev pub lap_led : Led
lap_led = led_at 2 3 green

abbrev pub splt_led : Led
splt_led = led_at 4 5 red

-- Red for a second over green: the pass at 5800 leaves it red, the one at 6100 ends it.
pulse_lem_example :
    (run_led
      (5800 ∷ 6100 ∷ [])
      (set_led lap_led red 1000 world).0
      (set_led lap_led red 1000 world).1).0.state
    ≡ green
pulse_lem_example = pulse_lem lap_led red 1000 world (5800 ∷ 6100 ∷ []) (omega arith)

-- Green for at most 5 s: the pass at 10100 is past the limit.
blink_continuous_lem_example :
    IsDark
      (run_led
        (5600 ∷ 10100 ∷ [])
        (blink_continuous lap_led green 500 500 5000 world).0
        (blink_continuous lap_led green 500 500 5000 world).1).0
blink_continuous_lem_example =
    blink_continuous_lem lap_led green 500 500 5000 world (5600 ∷ 10100 ∷ []) (λ h. ground arith)
      (λ h. ground arith)
