-- ===== src/Examples/Race.antt =====
-- Runs and crossings of the sketch GPS_tracker_Single_Split, and its button, at work.
use speed_feed.Tracker.Shown.{cross-IsSignal}
use speed_feed.Common.{◌≡◌, refl, some, [], ◌∷◌, arith, get_elem?, neg32, ltb}
use speed_feed.Platform.{World}
use speed_feed.Led.{red, green}
use speed_feed.Waypoint.{Waypoint}
use speed_feed.Tracker.State.{Tracker, done}
use speed_feed.Tracker.Button.{wait_release}
use speed_feed.Tracker.Button.Debounce.{interrupts, interrupts_lem, IsReleasedAt, wait_release-done}
use speed_feed.Tracker.Racing.{cross}
use speed_feed.Tracker.Graph.Runs.{Passes, Halves, Passes-Halves}
use speed_feed.Tracker.Feedback.{IsSignal}
use speed_feed.Tracker.Split.{IsCrossed, SameTimes, cross-IsCrossed, cross-SameTimes}
use speed_feed.Examples.Numbers.{Whole, whole, whole_numbers}
use speed_feed.Examples.Chip.{Chip, chip_bus}
use speed_feed.Examples.Board.{world}
use speed_feed.Examples.Track.{gate}
use speed_feed.Examples.Sketch.{
  blank_gates, kit, racing, racing-IsSettled, result, next_pass, next_pass-done,
}

-- one pass, in which the second gate is crossed
pub one_pass : Passes whole_numbers chip_bus kit racing (result next_pass)
one_pass = Passes.next 10 (some b'$') Passes.start next_pass-done.0

Passes-Halves_example :
    Halves whole_numbers chip_bus kit 10 (some b'$') racing (result next_pass)
    × ((result next_pass).current_state ≡ (result next_pass).next_state)
Passes-Halves_example =
    Passes-Halves whole_numbers chip_bus kit 10 (some b'$') racing racing (result next_pass)
      Passes.start racing-IsSettled next_pass-done.0

-- Three gates; the third is next and the second was passed last.
abbrev pub third_next : Tracker Whole Chip
third_next = record racing {
  waypoints = record gate { last = 2000 } ∷ record gate { last = 4000 } ∷ gate ∷ [];
  wp_last = 1;
  wp_next = 2;
}

abbrev after_cross : Waypoint Whole → Tracker Whole Chip
after_cross g = result (cross whole_numbers chip_bus kit g third_next)

cross-done :
    (g : Waypoint Whole) → cross whole_numbers chip_bus kit g third_next ≡ done (after_cross g)
unfolding cross
cross-done g = refl

cross-IsCrossed_example : IsCrossed whole_numbers chip_bus kit gate third_next (after_cross gate)
cross-IsCrossed_example =
    cross-IsCrossed whole_numbers chip_bus kit gate third_next (after_cross gate) (cross-done gate)
      (omega arith)

cross-IsSignal_example :
    (p : Waypoint Whole) × (get_elem? (after_cross gate).waypoints 2 ≡ some p)
    × (p.split_margin ≡ neg32 500 → IsSignal green 500 (after_cross gate).lights)
    × (p.split_margin ≡ 500 → IsSignal red 500 (after_cross gate).lights)
cross-IsSignal_example =
    cross-IsSignal whole_numbers chip_bus blank_gates 500 gate third_next (after_cross gate)
      (cross-done gate) (omega arith) (omega arith)

abbrev gate' : Waypoint Whole
gate' = record gate { speed = whole 70; adjustment = neg32 300 }

cross-SameTimes_example :
    (p : Waypoint Whole) × (q : Waypoint Whole) × (get_elem? (after_cross gate).waypoints 2
      ≡ some p)
    × (get_elem? (after_cross gate').waypoints 2 ≡ some q)
    × SameTimes whole_numbers chip_bus kit p q
cross-SameTimes_example =
    cross-SameTimes whole_numbers chip_bus kit gate (neg32 300) (whole 70) third_next
      (after_cross gate) (after_cross gate') (cross-done gate) (cross-done gate') (omega arith)
      (λ h. omega arith) (λ h. omega arith)

-- A press at 1000 with two bounces.
interrupts_lem_example :
    ((interrupts (1000 ∷ 1003 ∷ 1050 ∷ []) (record { last_interrupt_time = 0; flag = 0 })).flag ≡ 1)
    × ((interrupts
          (1000 ∷ 1003 ∷ 1050 ∷ [])
          (record { last_interrupt_time = 0; flag = 0 })).last_interrupt_time
        ≡ 1050)
interrupts_lem_example =
    interrupts_lem (1000 ∷ 1003 ∷ 1050 ∷ []) (record { last_interrupt_time = 0; flag = 0 })

-- held for two reads
abbrev held : World
held = record world { button = λ n. ltb 1 n }

held-IsReleasedAt : IsReleasedAt 2 held
held-IsReleasedAt = record { down_before = λ j h. ground arith; up_then = refl }

wait_release-done_example : wait_release 5 held ≡ done (record held { button_reads = 3 })
wait_release-done_example = wait_release-done 5 2 held held-IsReleasedAt (omega arith)
