-- ===== src/Tracker/Laps/Reaction.antt =====
-- What the second `switch` of GPS_tracker_Single_Split.ino does to the times of the gates, in every
-- state and on every branch.
use speed_feed.Tracker.Laps.Second.{cross_start-timer, store_and_race-timer}
use speed_feed.Tracker.Loop.{init_case, by_fix, close_track, cross_start, close_on}
use speed_feed.Tracker.Split.{get_elem?-set_same}
use speed_feed.Tracker.Laps.Cross.{record_split-timer, get_elem?-length, gates_of}
use speed_feed.Tracker.Laps.View.{
  get_elem?-map, test_gate-times, times-set, times, times-reset, timer,
}
use speed_feed.Waypoint.{Waypoint}
use speed_feed.Tracker.Racing.{race_on, race_case, cross, test_gate, no_cross, timer_or}
use speed_feed.Platform.{millis, World}
use speed_feed.Tracker.Startup.{Sketch, on_world}
use speed_feed.Tracker.State.{lift-eq-done, lift, >>=-eq-done, done-injective, Kit}
use speed_feed.Eeprom.{Bus}
use speed_feed.Double.{Double}
use speed_feed.Tracker.Laps.{clear, go, start_at, cross_next, Timer}
use speed_feed.Tracker.State.{State, st_reset, st_sfset, st_init, st_wpset, st_race, done}
use speed_feed.Common.{
  ◌>>=◌, length-set, ◌∙◌, false, true, refl, sym, ap, inr, inl, Bool-cases, add32, ◌==◌, sub32, ltb,
  ◌&&◌, not, set, get_elem?, some, ℕ, Option, Bool, ◌≡◌,
}

-- What the times of the gates make of a test of a gate: whether it was crossed, whether the car has
-- stood for more than a second, and the time of the crossing.
unfoldable pub react : State → (crossed stood : Bool) → Option ℕ → Timer → Option Timer
unfolding cross_next
react st_init true stood time c = do
  now ← time
  first ← get_elem? c.gates 0
  some (start_at now first c)
react st_wpset true stood time c = do
  now ← time
  here ← get_elem? c.gates c.next_gate
  prev ← get_elem? c.gates c.last_gate
  first ← get_elem? c.gates 0
  some (go (cross_next now here prev first c))
react st_race true stood time c = do
  now ← time
  here ← get_elem? c.gates c.next_gate
  prev ← get_elem? c.gates c.last_gate
  first ← get_elem? c.gates 0
  some (cross_next now here prev first c)
react st_race false true time c = some (record (clear c) { racing = false })
react _ _ _ time c = some c

module _ (D : Double) (B : Bus) (kit : Kit D.Real) where
  open D use {Real, lt, literal}

  -- the gate that a state tests
  abbrev pub tested : State → Sketch D B kit → ℕ
  tested st_race t = t.wp_next
  tested _ t = 0

  -- the static `resetTimer` of ST_RACE, and the world after it was passed
  abbrev started : Sketch D B kit → ℕ × World
  started t = timer_or t.reset_timer t.lights.world

  -- The car is not faster than 1, and the timer, which is not 0, is more than a second old.
  abbrev pub stood : Sketch D B kit → Bool
  stood t =
      not (lt (literal 1) t.gps.speed)
      && (ltb 1000 (sub32 (millis (started t).1) (started t).0) && not ((started t).0 == 0))

  -- The clock, with the adjustment of the start line in ST_INIT, and of the gate crossed last in
  -- the other states; `gate` is the one that was tested, as `intersection` has left it.
  abbrev pub time_of : State → Sketch D B kit → Waypoint Real → Option ℕ
  time_of st_init t gate = some (add32 (millis t.lights.world) gate.adjustment)
  time_of st_race t gate = do
    prev ← get_elem? (set t.waypoints t.wp_next gate) t.wp_last
    some (add32 (millis (started t).1) prev.adjustment)
  time_of _ t gate = do
    prev ← get_elem? (set t.waypoints 0 gate) t.wp_last
    some (add32 (millis t.lights.world) prev.adjustment)

  no_cross-react :
      (n : ℕ) (t : Sketch D B kit) (time : Option ℕ)
      → t.next_state ≡ st_race
      → let still =
          not (lt (literal 1) t.gps.speed)
          && (ltb 1000 (sub32 (millis t.lights.world) n) && not (n == 0)) in
        react st_race false still time (timer D B kit t)
        ≡ some (timer D B kit (no_cross D B kit n t))
  unfolding react no_cross
  no_cross-react n t time e =
      let still = ltb 1000 (sub32 (millis t.lights.world) n) && not (n == 0) in
      elim (Bool-cases (lt (literal 1) t.gps.speed)) [
        | inl fast ↦ rw fast refl
        | inr slow ↦ elim (Bool-cases still) [
          | inl stands ↦
              rw (slow, stands)
                (ap (λ gs. some (record (timer D B kit t) { gates = gs; racing = false }))
                  (sym (times-reset D t.waypoints)))
          | inr moves ↦ rw (slow, moves) refl
        ]
      ]

  -- A gate that was tested as `r` and as `s`.
  same_test :
      (i : ℕ) (t : Sketch D B kit) (r s : Bool × Waypoint Real)
      → test_gate D B kit i t ≡ done r
      → test_gate D B kit i t ≡ done s
      → s ≡ r
  same_test i t r s e e' = done-injective (sym e' ∙ e)

  cross-react :
      (gate p : Waypoint Real) (t u : Sketch D B kit) (stands : Bool)
      → t.next_state ≡ st_race
      → get_elem? t.waypoints t.wp_next ≡ some p
      → times gate ≡ times p
      → cross D B kit gate t ≡ done u
      → let time = get_elem? (set t.waypoints t.wp_next gate) t.wp_last >>= λ prev.
          some (add32 (millis t.lights.world) prev.adjustment) in
        react st_race true stands time (timer D B kit t) ≡ some (timer D B kit u)
  unfolding cross react gates_of
  cross-react gate p t u stands n at same h =
      let ps = set t.waypoints t.wp_next gate in
      let l = get_elem?-length t.waypoints t.wp_next at in
      let e = times-set t.waypoints t.wp_next p gate at same in
      let a = get_elem?-set_same t.waypoints t.wp_next gate l in
      let (prev, e1, h1) = >>=-eq-done (lift (get_elem? ps t.wp_last)) _ h in
      let (first, e2, h2) = >>=-eq-done (lift (get_elem? ps 0)) _ h1 in
      let b = lift-eq-done (get_elem? ps t.wp_last) e1 in
      let c = lift-eq-done (get_elem? ps 0) e2 in
      let gs = gates_of D B kit t ps gate prev first e a b c in
      rw (b, gs.is_here, gs.is_prev, gs.is_first)
        (ap some (
          record_split-timer D B kit gate prev first ps t e a b c l
          ∙ ap (timer D B kit) (done-injective h2)))

  close_on-react :
      (gate p : Waypoint Real) (t u : Sketch D B kit) (stands : Bool)
      → get_elem? t.waypoints 0 ≡ some p
      → times gate ≡ times p
      → close_on D B kit t (true, gate) ≡ done u
      → react st_wpset true stands (time_of st_wpset t gate) (timer D B kit t)
        ≡ some (timer D B kit u)
  unfolding close_on react gates_of
  close_on-react gate p t u stands at same h =
      let ps = set t.waypoints 0 gate in
      let l = get_elem?-length t.waypoints 0 at in
      let e = times-set t.waypoints 0 p gate at same in
      let c = get_elem?-set_same t.waypoints 0 gate l in
      let (here, e1, h1) = >>=-eq-done (lift (get_elem? ps t.wp_next)) _ h in
      let (prev, e2, h2) = >>=-eq-done (lift (get_elem? ps t.wp_last)) _ h1 in
      let a = lift-eq-done (get_elem? ps t.wp_next) e1 in
      let b = lift-eq-done (get_elem? ps t.wp_last) e2 in
      let gs = gates_of D B kit t ps here prev gate e a b c in
      rw (b, gs.is_here, gs.is_prev, gs.is_first)
        (ap some (
          store_and_race-timer D B kit here prev gate ps t e (length-set t.waypoints 0 gate) c
          ∙ ap (timer D B kit) (done-injective h2)))

  init_case-react :
      (t u : Sketch D B kit) (crossed : Bool) (gate : Waypoint Real)
      → test_gate D B kit 0 t ≡ done (crossed, gate)
      → init_case D B kit t ≡ done u
      → react st_init crossed (stood t) (time_of st_init t gate) (timer D B kit t)
        ≡ some (timer D B kit u)
  unfolding init_case cross_start react
  init_case-react t u true gate e h =
      let (r, e', h') = >>=-eq-done (test_gate D B kit 0 t) _ h in
      let (p, at, same) = test_gate-times D B kit 0 t (true, gate) e in
      let left = ap (λ x. cross_start D B kit t x) (same_test 0 t (true, gate) r e e') in
      rw (get_elem?-map times t.waypoints 0 at) (
        ap some (
          cross_start-timer D B kit t gate p at same
          ∙ ap (timer D B kit) (sym left ∙ done-injective h')))
  init_case-react t u false gate e h =
      let (r, e', h') = >>=-eq-done (test_gate D B kit 0 t) _ h in
      let left = ap (λ x. cross_start D B kit t x) (same_test 0 t (false, gate) r e e') in
      ap (λ x. some (timer D B kit x)) (sym left ∙ done-injective h')

  close_track-react :
      (t u : Sketch D B kit) (crossed : Bool) (gate : Waypoint Real)
      → test_gate D B kit 0 t ≡ done (crossed, gate)
      → close_track D B kit t ≡ done u
      → react st_wpset crossed (stood t) (time_of st_wpset t gate) (timer D B kit t)
        ≡ some (timer D B kit u)
  unfolding close_track close_on react
  close_track-react t u true gate e h =
      let (r, e', h') = >>=-eq-done (test_gate D B kit 0 t) _ h in
      let (p, at, same) = test_gate-times D B kit 0 t (true, gate) e in
      let left = ap (close_on D B kit t) (same_test 0 t (true, gate) r e e') in
      close_on-react gate p t u (stood t) at same (sym left ∙ h')
  close_track-react t u false gate e h =
      let (r, e', h') = >>=-eq-done (test_gate D B kit 0 t) _ h in
      let left = ap (close_on D B kit t) (same_test 0 t (false, gate) r e e') in
      ap (λ x. some (timer D B kit x)) (done-injective (sym left ∙ h'))

  race_case-react :
      (t u : Sketch D B kit) (crossed : Bool) (gate : Waypoint Real)
      → t.next_state ≡ st_race
      → test_gate D B kit t.wp_next t ≡ done (crossed, gate)
      → race_case D B kit t ≡ done u
      → react st_race crossed (stood t) (time_of st_race t gate) (timer D B kit t)
        ≡ some (timer D B kit u)
  unfolding race_case race_on test_gate
  race_case-react t u true gate n e h =
      let (n0, w) = started t in
      let t' = record (on_world D B kit (λ _. w) t) { reset_timer = some n0 } in
      let (r, e', h') = >>=-eq-done (test_gate D B kit t.wp_next t') _ h in
      let (p, at, same) = test_gate-times D B kit t.wp_next t (true, gate) e in
      let left = ap (race_on D B kit n0 t') (same_test t.wp_next t (true, gate) r e e') in
      cross-react gate p t' u (stood t) n at same (sym left ∙ h')
  race_case-react t u false gate n e h =
      let (n0, w) = started t in
      let t' = record (on_world D B kit (λ _. w) t) { reset_timer = some n0 } in
      let (r, e', h') = >>=-eq-done (test_gate D B kit t.wp_next t') _ h in
      let left = ap (race_on D B kit n0 t') (same_test t.wp_next t (false, gate) r e e') in
      no_cross-react n0 t' (time_of st_race t gate) n
      ∙ ap (λ x. some (timer D B kit x)) (done-injective (sym left ∙ h'))

  -- What is done with a fix, in a sketch that goes on in the state in which it is: the gate that the
  -- state tests, the next one in a race and the start line otherwise, is found crossed or not, and
  -- the times of all gates, the two indices, and whether a race is on afterwards are those that
  -- `react` makes of the ones before: in ST_INIT the start line crossed notes the time and starts
  -- the race; in ST_WPSET it closes a lap at the next gate and starts the race; in ST_RACE the gate
  -- crossed books its split and lap against the bests, and without a crossing a car that stood for
  -- more than a second ends the race and clears all times; nothing is changed else.
  pub by_fix-react :
      (s : State) (t u : Sketch D B kit) (crossed : Bool) (gate : Waypoint Real)
      → t.next_state ≡ s
      → test_gate D B kit (tested s t) t ≡ done (crossed, gate)
      → by_fix D B kit s t ≡ done u
      → react s crossed (stood t) (time_of s t gate) (timer D B kit t) ≡ some (timer D B kit u)
  unfolding by_fix react
  by_fix-react st_init t u crossed gate n e h = init_case-react t u crossed gate e h
  by_fix-react st_wpset t u crossed gate n e h = close_track-react t u crossed gate e h
  by_fix-react st_race t u crossed gate n e h = race_case-react t u crossed gate n e h
  by_fix-react st_reset t u crossed gate n e h = ap (λ x. some (timer D B kit x)) (done-injective h)
  by_fix-react st_sfset t u crossed gate n e h = ap (λ x. some (timer D B kit x)) (done-injective h)
