-- ===== src/Tracker/Feedback.antt =====
-- What the driver sees of the margin of a split (GPS_tracker_Single_Split.ino, case ST_RACE).
use speed_feed.Common.{ℕ, ◌^◌, ◌≤◌, ◌<◌, ◌≡◌, arith, ltb, if◌then◌else◌, neg32}
use speed_feed.Platform.{World}
use speed_feed.Led.{Led, off, red, green, set_led, blink_continuous}
use speed_feed.Led.Blink.{IsDark}
use speed_feed.Lights.{Lights, set_lap, set_splt, blink_lap, blink_splt}
use speed_feed.Tracker.Racing.{gain_rate, loss_rate, feedback}

-- The time of one side of the blinking for a margin of `size` milliseconds, either way.
abbrev pub rate_of : ℕ → ℕ
rate_of size =
    if ltb 1000 size
    then 100
    else (if ltb 800 size
        then 200
        else (if ltb 400 size then 300 else (if ltb 300 size then 400 else 500)))

-- blinking with both sides alike, from lit, for five seconds at most
pub record Blinks (color rate : ℕ) (l : Led) : Type 0 where
  pub blinks : l.blink ≡ color
  pub lit : l.state ≡ color
  pub dark_next : l.next_state ≡ off
  pub high : l.high_time ≡ rate
  pub low : l.low_time ≡ rate
  pub limit : l.end_time ≡ 5000

-- What both LEDs show: nothing up to 200 ms, and the colour beyond.
abbrev pub IsSignal : ℕ → ℕ → Lights → Type 0
IsSignal color size l =
    if ltb 200 size
    then Blinks color (rate_of size) l.lap × Blinks color (rate_of size) l.splt
    else IsDark l.lap × IsDark l.splt

blink_off-Blinks :
    (l : Led) (color rate : ℕ) (w : World)
    → IsDark l
    → off < color
    → Blinks color rate (blink_continuous l color rate rate 5000 w).0
unfolding blink_continuous
blink_off-Blinks l color rate w d h = ground arith

set_led-IsDark : (l : Led) (w : World) → IsDark (set_led l off 0 w).0
unfolding set_led
set_led-IsDark l w = ground arith

gain_rate-neg32 : (size : ℕ) → size ≤ 2 ^ 31 → gain_rate (neg32 size) ≡ rate_of size
unfolding gain_rate
gain_rate-neg32 size h = ground arith

loss_rate_eq : (size : ℕ) → size < 2 ^ 31 → loss_rate size ≡ rate_of size
unfolding loss_rate
loss_rate_eq size h = ground arith

pub set_splt-set_lap-IsDark :
    (l : Lights)
    → IsDark (set_splt off 0 (set_lap off 0 l)).lap × IsDark (set_splt off 0 (set_lap off 0 l)).splt
unfolding set_lap set_splt
set_splt-set_lap-IsDark l =
    let (lap, w) = set_led l.lap off 0 l.world in
    (set_led-IsDark l.lap l.world, set_led-IsDark l.splt w)

pub blink-Blinks :
    (color rate : ℕ) (l : Lights)
    → IsDark l.lap
    → IsDark l.splt
    → off < color
    → let l' = blink_lap color rate rate 5000 (blink_splt color rate rate 5000 l) in
      Blinks color rate l'.lap × Blinks color rate l'.splt
unfolding blink_lap blink_splt
blink-Blinks color rate l d e h =
    let w = (blink_continuous l.splt color rate rate 5000 l.world).1 in
    (blink_off-Blinks l.lap color rate w d h, blink_off-Blinks l.splt color rate l.world e h)

-- For a split that is `size` ms better than the best, or worse, the two LEDs show the same
-- signal, whatever they showed before, green for the better and red for the worse: dark up to
-- 200 ms, and beyond it blinking for five seconds, the faster the larger the margin, in the steps
-- of `rate_of`. The sizes are all that a signed word holds.
pub feedback-IsSignal :
    (size : ℕ) (l : Lights)
    → size < 2 ^ 31
    → IsSignal green size (feedback (neg32 size) l) × IsSignal red size (feedback size l)
unfolding feedback
feedback-IsSignal size l h =
    let dark = set_splt off 0 (set_lap off 0 l) in
    let d = set_splt-set_lap-IsDark l in
    let g = gain_rate-neg32 size (omega arith) in
    let r = loss_rate_eq size h in
    ground (
      arith,
      g,
      r,
      d,
      blink-Blinks green (rate_of size) dark d.0 d.1 (omega arith),
      blink-Blinks red (rate_of size) dark d.0 d.1 (omega arith),
    )
