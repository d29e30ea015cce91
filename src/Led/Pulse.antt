-- ===== src/Led/Pulse.antt =====
-- `LED::set` followed by any number of passes of `ledUpdate` (SpeedFeed.cpp).
use speed_feed.Common.{
  ℕ, ◌<◌, ◌≡◌, refl, Bool, false, ◌||◌, List, [], ◌∷◌, arith, ltb, ◌==◌, if◌then◌else◌, sub32,
}
use speed_feed.Platform.{World, millis}
use speed_feed.Led.{Led, off, set_led, update_led, settle}
use speed_feed.Led.Run.{run_led}

-- whether one of the passes comes more than `dt` after `start`
abbrev pub any_after : ℕ → ℕ → List ℕ → Bool
any_after start dt [] = false
any_after start dt (now ∷ times) = ltb dt (sub32 now start) || any_after start dt times

-- A lit state that waits for `dt` to pass and then gives way to `prior`.
record IsPulse (l : Led) (start dt prior : ℕ) : Type 0 where
  pub no_blink : l.blink ≡ off
  pub started : l.start_time ≡ start
  pub lasts : l.high_time ≡ dt
  pub then_prior : l.next_state ≡ prior

update_led-IsPulse :
    (now : ℕ) (l : Led) (w : World) {start dt prior : ℕ}
    → IsPulse l start dt prior
    → IsPulse (update_led now l w).0 start dt prior
unfolding update_led settle
update_led-IsPulse now l w h = ground arith

update_led-state :
    (now : ℕ) (l : Led) (w : World) {start dt prior : ℕ}
    → IsPulse l start dt prior
    → (update_led now l w).0.state ≡ (if ltb dt (sub32 now start) then prior else l.state)
unfolding update_led settle
update_led-state now l w h = ground arith

run_led-IsPulse :
    (times : List ℕ) (l : Led) (w : World) (start dt prior : ℕ)
    → IsPulse l start dt prior
    → (run_led times l w).0.state ≡ (if any_after start dt times then prior else l.state)
unfolding run_led
run_led-IsPulse [] l w start dt prior h = refl
run_led-IsPulse (now ∷ times) l w start dt prior h = ground (
  arith,
  update_led-state now l w h,
  run_led-IsPulse times (update_led now l w).0 (update_led now l w).1 start dt prior
      (update_led-IsPulse now l w h),
)

-- the state that `set` goes back to: that of before, or dark if the LED was blinking
abbrev pub prior_state : Led → ℕ
prior_state l = if l.blink == off then l.state else off

set_led-IsPulse :
    (l : Led) (s dt : ℕ) (w : World)
    → 0 < dt
    → IsPulse (set_led l s dt w).0 (millis w) dt (prior_state l)
unfolding set_led
set_led-IsPulse l s dt w h = ground arith

set_led-IsPulse_steady : (l : Led) (s : ℕ) (w : World) → IsPulse (set_led l s 0 w).0 (millis w) 0 s
unfolding set_led
set_led-IsPulse_steady l s w = ground arith

state-set_led : (l : Led) (s dt : ℕ) (w : World) → (set_led l s dt w).0.state ≡ s
unfolding set_led
state-set_led l s dt w = ground arith

-- After `set(s, dT)` with `dT` not 0, and any number of passes of `ledUpdate`, the LED is in
-- state `s` as long as no pass came more than `dT` milliseconds after the call; from the first
-- pass that did, it is in the state of before the call, or dark if it was blinking then.
pub pulse_lem :
    (l : Led) (s dt : ℕ) (w : World) (times : List ℕ)
    → 0 < dt
    → let (l', w') = set_led l s dt w in
      (run_led times l' w').0.state ≡ (if any_after (millis w) dt times then prior_state l else s)
pulse_lem l s dt w times h = ground (
  arith,
  run_led-IsPulse times (set_led l s dt w).0 (set_led l s dt w).1 (millis w) dt (prior_state l)
      (set_led-IsPulse l s dt w h),
  state-set_led l s dt w,
)

-- After `set(s)` the LED stays in state `s` through any number of passes of `ledUpdate`, also if
-- it was blinking before.
pub steady_lem :
    (l : Led) (s : ℕ) (w : World) (times : List ℕ)
    → let (l', w') = set_led l s 0 w in (run_led times l' w').0.state ≡ s
steady_lem l s w times = ground (
  arith,
  run_led-IsPulse times (set_led l s 0 w).0 (set_led l s 0 w).1 (millis w) 0 s
      (set_led-IsPulse_steady l s w),
  state-set_led l s 0 w,
)

-- The two in a world that others have changed since: the passes read no clock for such an LED.
pub state-run_led-set_led :
    (l : Led) (s dt : ℕ) (w v : World) (times : List ℕ)
    → 0 < dt
    → (run_led times (set_led l s dt w).0 v).0.state
      ≡ (if any_after (millis w) dt times then prior_state l else s)
state-run_led-set_led l s dt w v times h = ground (
  arith,
  run_led-IsPulse times (set_led l s dt w).0 v (millis w) dt (prior_state l)
      (set_led-IsPulse l s dt w h),
  state-set_led l s dt w,
)
