-- ===== src/Led.antt =====
-- The two-colour LEDs of libraries/SpeedFeed/SpeedFeed.cpp: class LED and ledUpdate. An LED holds
-- a steady colour, shows one colour for a time and goes back, or blinks.
pub mod Shows
pub mod Frame
pub mod Board
pub mod Run
pub mod Pulse
pub mod Blink
pub mod Silent
use speed_feed.Common.{
  ◌++◌, ℕ, Bool, true, false, not, ◌&&◌, List, [], ◌∷◌, ltb, ◌==◌, if◌then◌else◌, sub32,
}
use speed_feed.Platform.{print, World, pin_mode, digital_write, millis, tick, emit}
use speed_feed.Monitor.{codes, line_end}

abbrev pub off : ℕ
off = 0

abbrev pub red : ℕ
red = 1

abbrev pub green : ℕ
green = 2

abbrev pub yellow : ℕ
yellow = 3

pub record Led : Type 0 where
  pub pin_red : ℕ
  pub pin_grn : ℕ
  pub state : ℕ
  pub blink : ℕ
  pub next_state : ℕ
  pub high_time : ℕ
  pub low_time : ℕ
  pub start_time : ℕ
  pub end_time : ℕ
  pub blink_start_time : ℕ

-- `Serial.println("Invalid LED State...")`
abbrev pub invalid_led_state : List ℕ
invalid_led_state = codes "Invalid LED State..." ++ line_end

abbrev both : Led → Bool → Bool → World → World
both l r g w = emit (digital_write l.pin_grn g) (emit (digital_write l.pin_red r) w)

-- The `switch` of `setPins`.
unfoldable pub drive : Led → ℕ → World → World
drive l s w =
    if s == red
    then both l true false w
    else (if s == green
        then both l false true w
        else (if s == yellow
            then both l true true w
            else (if s == off then both l false false w else emit (print invalid_led_state) w)))

unfoldable pub set_pins : Led → ℕ → World → Led × World
set_pins l s w = (record l { state = s }, drive l s w)

-- `if (blink) { blink = OFF; setPins(OFF); }`
stop_blink : Led → World → Led × World
unfolding set_pins
stop_blink l w = if l.blink == off then (l, w) else set_pins (record l { blink = off }) off w

-- The last part of `set`: a steady colour, or one that gives way to the state of before.
set_colour : Led → ℕ → ℕ → World → Led × World
unfolding set_pins
set_colour l s dt w =
    let (l', w') = set_pins l s w in
    if dt == 0
    then (record l' { next_state = s }, w')
    else set_pins (record l { next_state = l.state }) s w

unfoldable pub set_led : Led → ℕ → ℕ → World → Led × World
unfolding stop_blink set_colour
set_led l s dt w =
    let (l', w') = stop_blink (record l { high_time = dt; start_time = millis w }) (tick w) in
    set_colour l' s dt w'

-- `memory` is the object before its constructor runs: `lowTime`, `endTime` and `blinkStartTime`
-- keep what stood there.
unfoldable pub new_led : Led → (red_pin grn_pin init : ℕ) → World → Led × World
unfolding set_led
new_led memory red_pin grn_pin init w =
    set_led
      (record memory {
        pin_red = red_pin;
        pin_grn = grn_pin;
        next_state = init;
        state = init;
        blink = off;
      })
      init 0 (emit (pin_mode grn_pin) (emit (pin_mode red_pin) w))

unfoldable pub blink_continuous : Led → (color high low limit : ℕ) → World → Led × World
unfolding set_pins
blink_continuous l color high low limit w =
    let l' = record l {
      blink = color;
      low_time = low;
      high_time = high;
      start_time = millis w;
      blink_start_time = millis (tick w);
      end_time = limit;
    } in
    let (lit, w') = set_pins l' color (tick (tick w)) in
    if l.blink == color then (l, w) else (record lit { next_state = off }, w')

-- The time limit of a blinking LED: `updateTime - startTime > endTime && endTime`.
expire : ℕ → Led → World → Led × World
unfolding set_pins
expire now l w =
    if ltb l.end_time (sub32 now l.start_time) && not (l.end_time == 0)
    then set_pins (record l { blink = off; next_state = off }) off w
    else (l, w)

-- One side of the blinking: `after` is the state that follows the one which is shown now.
toggle : ℕ → ℕ → ℕ → Led → World → Led × World
unfolding set_pins
toggle now time after l w =
    let (l', w') = set_pins l l.next_state w in
    if ltb time (sub32 now l.blink_start_time)
    then (record l' { next_state = after; blink_start_time = millis w' }, tick w')
    else (l, w)

alternate : ℕ → Led → World → Led × World
unfolding toggle
alternate now l w =
    if l.state == off then toggle now l.low_time off l w else toggle now l.high_time l.blink l w

-- The `else` of `if (it->blink)`: after `highTime` the next state is shown.
settle : ℕ → Led → World → Led × World
unfolding set_pins
settle now l w =
    if ltb l.high_time (sub32 now l.start_time) then set_pins l l.next_state w else (l, w)

-- The body of the loop of `ledUpdate`.
unfoldable pub update_led : ℕ → Led → World → Led × World
unfolding expire alternate settle
update_led now l w =
    let (l', w') = expire now l w in if l.blink == off then settle now l w else alternate now l' w'

update_each : ℕ → List Led → World → List Led × World
update_each now [] w = ([], w)
update_each now (l ∷ ls) w =
    let (l', w') = update_led now l w in let (ls', w'') = update_each now ls w' in (l' ∷ ls', w'')

unfoldable pub led_update : List Led → World → List Led × World
unfolding update_each
led_update ls w = update_each (millis w) ls (tick w)
