-- ===== src/Led/Blink.antt =====
-- `LED::blinkContinuous` followed by any number of passes of `ledUpdate` (SpeedFeed.cpp).
use speed_feed.Common.{
  ℕ, ◌≡◌, ◌≢◌, ◌⊎◌, inl, inr, Bool, true, false, not, ◌&&◌, ◌||◌, List, [], ◌∷◌, arith, ltb, ◌==◌,
  Bool-cases, if◌then◌else◌, sub32,
}
use speed_feed.Platform.{World, millis}
use speed_feed.Led.{Led, off, drive, blink_continuous, update_led}
use speed_feed.Led.Run.{run_led}

-- Dark, and it stays so.
pub record IsDark (l : Led) : Type 0 where
  pub no_blink : l.blink ≡ off
  pub dark : l.state ≡ off
  pub stays_dark : l.next_state ≡ off

-- One of the two sides of the blinking; `next_state` holds the other.
pub record IsBlinking (l : Led) (color start limit : ℕ) : Type 0 where
  pub blinks : l.blink ≡ color
  pub side : ((l.state ≡ color) × (l.next_state ≡ off)) ⊎ ((l.state ≡ off) × (l.next_state ≡ color))
  pub started : l.start_time ≡ start
  pub limited : l.end_time ≡ limit

-- whether the time limit has passed; a limit of 0 is none
abbrev pub is_over : ℕ → ℕ → ℕ → Bool
is_over start limit now = ltb limit (sub32 now start) && not (limit == 0)

pub blink_continuous-IsBlinking :
    (l : Led) (color high low limit : ℕ) (w : World)
    → l.blink ≢ color
    → IsBlinking (blink_continuous l color high low limit w).0 color (millis w) limit
unfolding blink_continuous
blink_continuous-IsBlinking l color high low limit w h = ground arith

update_led-IsDark : (now : ℕ) (l : Led) (w : World) → IsDark l → IsDark (update_led now l w).0
unfolding update_led
update_led-IsDark now l w h = ground arith

run_led-IsDark : (times : List ℕ) (l : Led) (w : World) → IsDark l → IsDark (run_led times l w).0
unfolding run_led
run_led-IsDark [] l w h = h
run_led-IsDark (now ∷ times) l w h =
    run_led-IsDark times (update_led now l w).0 (update_led now l w).1 (update_led-IsDark now l w h)

update_led-over :
    (now : ℕ) (l : Led) (w : World) {color start limit : ℕ}
    → color ≢ off
    → IsBlinking l color start limit
    → is_over start limit now ≡ true
    → IsDark (update_led now l w).0
unfolding update_led
update_led-over now l w c h o = ground arith

update_led-IsBlinking :
    (now : ℕ) (l : Led) (w : World) {color start limit : ℕ}
    → color ≢ off
    → IsBlinking l color start limit
    → is_over start limit now ≡ false
    → IsBlinking (update_led now l w).0 color start limit
unfolding update_led
update_led-IsBlinking now l w c h o = ground arith

abbrev pub any_over : ℕ → ℕ → List ℕ → Bool
any_over start limit [] = false
any_over start limit (now ∷ times) = is_over start limit now || any_over start limit times

run_led-IsBlinking :
    (times : List ℕ) (l : Led) (w : World) (color start limit : ℕ)
    → color ≢ off
    → IsBlinking l color start limit
    → (if any_over start limit times
        then IsDark (run_led times l w).0
        else IsBlinking (run_led times l w).0 color start limit)
unfolding run_led
run_led-IsBlinking [] l w color start limit c h = h
run_led-IsBlinking (now ∷ times) l w color start limit c h =
    elim (Bool-cases (is_over start limit now)) [
      | inl over ↦ rw over (run_led-IsDark times _ _ (update_led-over now l w c h over))
      | inr more ↦ rw more (
          run_led-IsBlinking times _ _ color start limit c (update_led-IsBlinking now l w c h more))
    ]

-- After `blinkContinuous` with a colour that is not OFF and not the present one, and any number
-- of passes of `ledUpdate`: if one of the passes came after a time limit that is not 0, the LED
-- has stopped blinking and is dark; if none did, it is on one of the two sides of the blinking,
-- with the other side next.
pub blink_continuous_lem :
    (l : Led) (color high low limit : ℕ) (w : World) (times : List ℕ)
    → l.blink ≢ color
    → color ≢ off
    → let (l', w') = blink_continuous l color high low limit w in
      if any_over (millis w) limit times
      then IsDark (run_led times l' w').0
      else IsBlinking (run_led times l' w').0 color (millis w) limit
blink_continuous_lem l color high low limit w times n c =
    run_led-IsBlinking times _ _ color (millis w) limit c
      (blink_continuous-IsBlinking l color high low limit w n)

-- how long the present side of the blinking is shown
abbrev pub side_time : Led → ℕ
side_time l = if l.state == off then l.low_time else l.high_time

-- A pass of `ledUpdate` before the time limit takes a blinking LED to its other side, and times
-- that side from a new reading of the clock, exactly when the time of the present side has
-- passed; otherwise it changes nothing of the LED.
pub update_led-side :
    (now : ℕ) (l : Led) (w : World) {color start limit : ℕ}
    → color ≢ off
    → IsBlinking l color start limit
    → is_over start limit now ≡ false
    → (update_led now l w).0 ≡ (
        if ltb (side_time l) (sub32 now l.blink_start_time)
        then record l { state = l.next_state; next_state = l.state; blink_start_time = millis w }
        else l)
unfolding update_led drive
update_led-side now l w c h o = ground arith

-- A sketch calls `blinkContinuous` in every pass of its loop: a second call with the colour that
-- the LED already blinks in, at whatever times, leaves the blinking as it is.
pub blink_continuous_again :
    (l : Led) (color high low limit high' low' limit' : ℕ) (w : World)
    → let (l', w') = blink_continuous l color high low limit w in
      blink_continuous l' color high' low' limit' w' ≡ (l', w')
unfolding blink_continuous
blink_continuous_again l color high low limit high' low' limit' w = ground arith
