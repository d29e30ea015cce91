-- ===== src/Led/Shows.antt =====
-- The pins agree with the state that an LED believes to show (SpeedFeed.cpp, class LED).
use speed_feed.Common.{ℕ, ◌<◌, ◌≡◌, ◌≢◌, Bool, ◌||◌, arith, ◌==◌}
use speed_feed.Platform.{World, level}
use speed_feed.Led.{
  Led, off, red, green, yellow, drive, set_pins, set_led, blink_continuous, update_led, expire,
  alternate, toggle, settle,
}

-- whether the red, and the green, half of the LED is lit in a state
abbrev pub red_lit : ℕ → Bool
red_lit s = s == red || s == yellow

abbrev pub grn_lit : ℕ → Bool
grn_lit s = s == green || s == yellow

abbrev pub IsColour : ℕ → Type 0
IsColour s = s < 4

-- Every state that the LED holds is one of the four, and the pins show the present one.
pub record Shows (l : Led) (w : World) : Type 0 where
  pub pins_differ : l.pin_red ≢ l.pin_grn
  pub state_valid : IsColour l.state
  pub next_valid : IsColour l.next_state
  pub blink_valid : IsColour l.blink
  pub red_agrees : level w l.pin_red ≡ red_lit l.state
  pub grn_agrees : level w l.pin_grn ≡ grn_lit l.state

pub set_pins-Shows :
    (l : Led) (s : ℕ) (w : World)
    → l.pin_red ≢ l.pin_grn
    → IsColour s
    → IsColour l.next_state
    → IsColour l.blink
    → Shows (set_pins l s w).0 (set_pins l s w).1
unfolding set_pins drive
set_pins-Shows l s w d h n b = ground arith

-- `set` with one of the four colours keeps the pins in step.
pub set_led-Shows :
    (l : Led) (s dt : ℕ) (w : World)
    → Shows l w
    → IsColour s
    → Shows (set_led l s dt w).0 (set_led l s dt w).1
unfolding set_led drive
set_led-Shows l s dt w h v = ground arith

pub blink_continuous-Shows :
    (l : Led) (color high low limit : ℕ) (w : World)
    → Shows l w
    → IsColour color
    → Shows
        (blink_continuous l color high low limit w).0
        (blink_continuous l color high low limit w).1
unfolding blink_continuous drive
blink_continuous-Shows l color high low limit w h v = ground arith

expire-Shows :
    (now : ℕ) (l : Led) (w : World) → Shows l w → Shows (expire now l w).0 (expire now l w).1
unfolding expire drive
expire-Shows now l w h = ground arith

toggle-Shows :
    (now time after : ℕ) (l : Led) (w : World)
    → Shows l w
    → IsColour after
    → Shows (toggle now time after l w).0 (toggle now time after l w).1
unfolding toggle drive
toggle-Shows now time after l w h v = ground arith

alternate-Shows :
    (now : ℕ) (l : Led) (w : World) → Shows l w → Shows (alternate now l w).0 (alternate now l w).1
unfolding alternate
alternate-Shows now l w h =
    ground
      (arith, toggle-Shows now l.low_time off l w h, toggle-Shows now l.high_time l.blink l w h)

settle-Shows :
    (now : ℕ) (l : Led) (w : World) → Shows l w → Shows (settle now l w).0 (settle now l w).1
unfolding settle drive
settle-Shows now l w h = ground arith

pub update_led-Shows :
    (now : ℕ) (l : Led) (w : World)
    → Shows l w
    → Shows (update_led now l w).0 (update_led now l w).1
unfolding update_led
update_led-Shows now l w h = ground (
  arith,
  settle-Shows now l w h,
  alternate-Shows now (expire now l w).0 (expire now l w).1 (expire-Shows now l w h),
)
