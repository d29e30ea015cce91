-- ===== src/Lights.antt =====
-- The two LEDs of a tracker sketch: `myLEDs` with its entries LED_LAP and LED_SPLT, as setup()
-- of GPS_tracker_Single_Split/GPS_tracker_Single_Split.ino fills it, beside the world that their
-- pins are in.
pub mod Silent
use speed_feed.Common.{ℕ, List, [], ◌∷◌}
use speed_feed.Platform.{World}
use speed_feed.Led.{Led, set_led, blink_continuous, led_update}

pub record Lights : Type 0 where
  pub lap : Led
  pub splt : Led
  pub world : World

with_lap : Lights → Led × World → Lights
with_lap l (led, w) = record l { lap = led; world = w }

with_splt : Lights → Led × World → Lights
with_splt l (led, w) = record l { splt = led; world = w }

-- `myLEDs[LED_LAP].set(s, dt)` and `myLEDs[LED_SPLT].set(s, dt)`
unfoldable pub set_lap : (s dt : ℕ) → Lights → Lights
unfolding with_lap
set_lap s dt l = with_lap l (set_led l.lap s dt l.world)

unfoldable pub set_splt : (s dt : ℕ) → Lights → Lights
unfolding with_splt
set_splt s dt l = with_splt l (set_led l.splt s dt l.world)

-- `blinkContinuous` of the one and the other
unfoldable pub blink_lap : (color high low limit : ℕ) → Lights → Lights
unfolding with_lap
blink_lap color high low limit l = with_lap l (blink_continuous l.lap color high low limit l.world)

unfoldable pub blink_splt : (color high low limit : ℕ) → Lights → Lights
unfolding with_splt
blink_splt color high low limit l =
    with_splt l (blink_continuous l.splt color high low limit l.world)

-- The two in one order and the other; a sketch calls them so.
abbrev pub set_lap_splt : (s dt : ℕ) → Lights → Lights
set_lap_splt s dt l = set_splt s dt (set_lap s dt l)

abbrev pub set_splt_lap : (s dt : ℕ) → Lights → Lights
set_splt_lap s dt l = set_lap s dt (set_splt s dt l)

abbrev pub blink_lap_splt : (color high low limit : ℕ) → Lights → Lights
blink_lap_splt color high low limit l =
    blink_splt color high low limit (blink_lap color high low limit l)

abbrev pub blink_splt_lap : (color high low limit : ℕ) → Lights → Lights
blink_splt_lap color high low limit l =
    blink_lap color high low limit (blink_splt color high low limit l)

with_both : Lights → List Led × World → Lights
with_both l (lap ∷ (splt ∷ rest), w) = record { lap = lap; splt = splt; world = w }
with_both l (_, w) = record l { world = w }

-- `ledUpdate(myLEDs)`
unfoldable pub update_lights : Lights → Lights
unfolding with_both
update_lights l = with_both l (led_update (l.lap ∷ l.splt ∷ []) l.world)
