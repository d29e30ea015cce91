-- ===== src/Examples/Lap.antt =====
-- The lap timer of GPS_tracker_Single_Split.ino at work.
use speed_feed.Tracker.Laps.Reaction.{by_fix-react, time_of, stood, react}
use speed_feed.Tracker.Loop.{by_fix}
use speed_feed.Tracker.Laps.Round.{total_best}
use speed_feed.Tracker.Laps.Lap.{Lap, first_lap-total_best}
use speed_feed.Tracker.Laps.View.{times, timer}
use speed_feed.Tracker.Laps.Runs.{IsOrdered, Passes-IsOrdered}
use speed_feed.Tracker.Racing.{timer_or, race_on, race_case, record_split, cross, test_gate}
use speed_feed.Tracker.State.{Tracker, Run, done, st_race}
use speed_feed.Common.{true, get_elem?, ℕ, ◌%◌, ◌^◌, ◌≡◌, refl, Bool, some, [], ◌∷◌, map, arith}
use speed_feed.Examples.Chip.{Chip, chip_bus}
use speed_feed.Examples.Track.{gate, position}
use speed_feed.Examples.Sketch.{kit, racing, result, next_pass, racing-IsSettled}
use speed_feed.Examples.Numbers.{Whole, whole_numbers}
use speed_feed.Examples.Race.{one_pass}
use speed_feed.Waypoint.{Waypoint}
use speed_feed.Geometry.{meeting_point, meets, intersection}

-- The second of two gates is crossed: the first is next.
Passes-IsOrdered_example : IsOrdered whole_numbers chip_bus kit (result next_pass)
Passes-IsOrdered_example =
    Passes-IsOrdered whole_numbers chip_bus kit racing (result next_pass) one_pass racing-IsSettled
      (λ r. refl)

-- On the way to the second gate.
abbrev under_way : Tracker Whole Chip
under_way = record racing {
  tracks = position 28650000 14400000 4000 ∷ position 28750000 14400000 5000 ∷ [];
}

-- what `intersection` makes of a gate
abbrev touched : ℕ → Tracker Whole Chip → Run (Bool × Waypoint Whole)
touched i t = test_gate whole_numbers chip_bus kit i t

abbrev gate_of : Run (Bool × Waypoint Whole) → Waypoint Whole
gate_of (done (b, g)) = g
gate_of _ = gate

abbrev half_way : Tracker Whole Chip
half_way = result (cross whole_numbers chip_bus kit (gate_of (touched 1 under_way)) under_way)

-- On the way to the first.
abbrev homeward : Tracker Whole Chip
homeward = record half_way {
  tracks = position 28550000 14400000 8000 ∷ position 28650000 14400000 9000 ∷ [];
}

abbrev home : Tracker Whole Chip
home = result (cross whole_numbers chip_bus kit (gate_of (touched 0 homeward)) homeward)

whole_lap : Lap whole_numbers chip_bus kit under_way home 2
unfolding test_gate intersection meets meeting_point cross record_split
whole_lap =
    Lap.crosses (gate_of (touched 0 homeward))
      (Lap.goes_on {v = homeward} (Lap.crosses (gate_of (touched 1 under_way)) Lap.begins refl refl)
        (record { same_waypoints = refl; same_last = refl; same_next = refl; same_race = refl }))
      refl refl

first_lap-total_best_example :
    (q : Waypoint Whole) × (get_elem? home.waypoints 0 ≡ some q)
    × (q.lap_best ≡ total_best (map times home.waypoints) % 2 ^ 32)
first_lap-total_best_example =
    first_lap-total_best whole_numbers chip_bus kit under_way home _ whole_lap (refl, (refl, tt))
      refl refl refl (omega arith)

abbrev next_crossed : Run (Tracker Whole Chip)
next_crossed = by_fix whole_numbers chip_bus kit st_race under_way

next_crossed-done :
    (next_crossed ≡ done (result next_crossed))
    × (test_gate whole_numbers chip_bus kit 1 under_way
        ≡ done (true, gate_of (touched 1 under_way)))
unfolding by_fix race_case race_on timer_or test_gate intersection meets meeting_point cross
    record_split
next_crossed-done = (refl, refl)

by_fix-react_example :
    react st_race true
      (stood whole_numbers chip_bus kit under_way)
      (time_of whole_numbers chip_bus kit st_race under_way (gate_of (touched 1 under_way)))
      (timer whole_numbers chip_bus kit under_way)
    ≡ some (timer whole_numbers chip_bus kit (result next_crossed))
by_fix-react_example =
    by_fix-react whole_numbers chip_bus kit st_race under_way (result next_crossed) true
      (gate_of (touched 1 under_way)) refl next_crossed-done.1 next_crossed-done.0
