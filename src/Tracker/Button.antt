-- ===== src/Tracker/Button.antt =====
-- The interrupt of the push button in GPS_tracker_Single_Split.ino, `interruptPB`, and the wait
-- for the button at boot.
pub mod Debounce
use speed_feed.Common.{ℕ, zero, suc, ltb, if◌then◌else◌, sub32}
use speed_feed.Platform.{World, pin_level, sample}
use speed_feed.Tracker.State.{Run, done, waiting}

-- The static `last_interrupt_time` and the global `pbFlag`.
pub record Press : Type 0 where
  pub last_interrupt_time : ℕ
  pub flag : ℕ

-- `now` is what `millis()` returns.
unfoldable pub interrupt_pb : ℕ → Press → Press
interrupt_pb now p =
    let flag = if ltb 400 (sub32 now p.last_interrupt_time) then 1 else p.flag in
    record { last_interrupt_time = now; flag = flag }

-- `while (!digitalRead(PIN_PB));` with a number of reads that it is followed for.
unfoldable pub wait_release : ℕ → World → Run World
wait_release zero w = waiting
wait_release (suc n) w =
    let rest = wait_release n (sample w) in if pin_level w then done (sample w) else rest
