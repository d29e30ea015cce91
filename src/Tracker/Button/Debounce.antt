-- ===== src/Tracker/Button/Debounce.antt =====
-- The push button of GPS_tracker_Single_Split.ino over a run of interrupts, and the wait for it
-- to be let go.
use speed_feed.Common.{
  ℕ, zero, suc, ◌+◌, ◌<◌, ◌≡◌, refl, ap, ◌∙◌, Bool, true, false, ◌||◌, List, [], ◌∷◌, arith, ltb,
  if◌then◌else◌, sub32,
}
use speed_feed.Platform.{World, pin_level, sample}
use speed_feed.Tracker.State.{done}
use speed_feed.Tracker.Button.{Press, interrupt_pb, wait_release}

-- The interrupts at the given times, one after the other.
unfoldable pub interrupts : List ℕ → Press → Press
interrupts [] p = p
interrupts (now ∷ times) p = interrupts times (interrupt_pb now p)

-- whether one of the times lies more than 400 ms after the one before it
abbrev pub any_spaced : ℕ → List ℕ → Bool
any_spaced before [] = false
any_spaced before (now ∷ times) = ltb 400 (sub32 now before) || any_spaced now times

abbrev pub last_of : ℕ → List ℕ → ℕ
last_of before [] = before
last_of before (now ∷ times) = last_of now times

-- Over any number of interrupts: `pbFlag` is set if one of them comes more than 400 ms after the
-- one before, and otherwise stays what it was, so that a burst of bounces sets it once at most;
-- `last_interrupt_time` is the time of the last one, whether it counted or not.
pub interrupts_lem :
    (times : List ℕ) (p : Press)
    → ((interrupts times p).flag ≡ (if any_spaced p.last_interrupt_time times then 1 else p.flag))
      × ((interrupts times p).last_interrupt_time ≡ last_of p.last_interrupt_time times)
unfolding interrupts interrupt_pb
interrupts_lem [] p = (refl, refl)
interrupts_lem (now ∷ times) p = ground (arith, interrupts_lem times (interrupt_pb now p))

-- the first read that finds the button up is the k-th from now
pub record IsReleasedAt (k : ℕ) (w : World) : Type 0 where
  pub down_before : (j : ℕ) → j < k → w.button (w.button_reads + j) ≡ false
  pub up_then : w.button (w.button_reads + k) ≡ true

later : (k : ℕ) (w : World) → IsReleasedAt (suc k) w → IsReleasedAt k (sample w)
later k w r = record {
  down_before = λ j h. ap w.button (omega arith) ∙ r.down_before (suc j) (omega arith);
  up_then = ap w.button (omega arith) ∙ r.up_then;
}

-- If the button is let go at some time, then the wait for it ends there: with patience for more
-- than the reads until then, the loop is done after just those reads.
pub wait_release-done :
    (patience k : ℕ) (w : World)
    → IsReleasedAt k w
    → k < patience
    → wait_release patience w ≡ done (record w { button_reads = w.button_reads + suc k })
unfolding wait_release
wait_release-done zero k w r h = absurd (omega arith)
wait_release-done (suc n) zero w r h =
    let up : pin_level w ≡ true = ap w.button (omega arith) ∙ r.up_then in
    rw up (ap (λ i. done (record w { button_reads = i })) (omega arith))
wait_release-done (suc n) (suc k) w r h =
    let down : pin_level w ≡ false = ap w.button (omega arith) ∙ r.down_before 0 (omega arith) in
    rw down (
      wait_release-done n k (sample w) (later k w r) (omega arith)
      ∙ ap (λ i. done (record w { button_reads = i })) (omega arith))
