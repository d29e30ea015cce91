-- ===== src/Tracker/Laps/Second.antt =====
-- The second `switch` of the loop as steps of the lap timer.
use speed_feed.Tracker.Laps.View.{
  times, is_race, get_elem?-map, map-set, times-set, times-reset, timer, timer_eq, test_gate-times,
}
use speed_feed.Tracker.Laps.Cross.{
  get_elem?-length, Refines, SameTimer, Refines-same, length-waypoints, gates_of, booked,
  cross-Refines,
}
use speed_feed.Tracker.Racing.{timer_or, no_cross, test_gate, race_on, race_case}
use speed_feed.Tracker.State.{
  State, st_reset, st_init, st_sfset, st_wpset, st_race, Kit, done, lift, >>=-eq-done, lift-eq-done,
  done-injective,
}
use speed_feed.Tracker.Laps.{go, start_at, Times, cross_next, Step, Steps, one}
use speed_feed.Tracker.Loop.{cross_start, init_case, store_and_race, close_on, close_track, by_fix}
use speed_feed.Tracker.Split.{get_elem?-set_same}
use speed_feed.Common.{
  leb, if◌then◌else◌, Bool-cases, length, get_elem?, set, length-set, add32, ℕ, ◌%◌, ◌<◌, ◌≡◌, refl,
  sym, ap, ◌∙◌, ◌⊎◌, inl, inr, Bool, true, false, some, List, map, arith,
}
use speed_feed.Double.{Double}
use speed_feed.Eeprom.{Bus}
use speed_feed.Waypoint.{Waypoint, reset, check_split}
use speed_feed.Tracker.Startup.{on_world, Sketch}
use speed_feed.Platform.{millis}
use mathlib.Core.Path.{subst}
use native.Mathlib.Nat.{mod-eq_of_lt}

first_index : (n : ℕ) → 0 < n → 1 % n ≡ (if leb n 1 then 0 else 1)
first_index n h = elim (Bool-cases (leb n 1)) [
  | inl small ↦ let e : n ≡ 1 = ground arith in rw (small, e) refl
  | inr large ↦ rw large (mod-eq_of_lt (ground arith))
]

module _ (D : Double) (B : Bus) (kit : Kit D.Real) where
  open D use {Real}

  first_next :
      (t : Sketch D B kit) (gs : List Times) (ps : List (Waypoint Real))
      → 0 < length t.waypoints
      → length gs ≡ length (timer D B kit t).gates
      → length ps ≡ length t.waypoints
      → 1 % length gs ≡ (if leb (length ps) 1 then 0 else 1)
  first_next t gs ps h e k =
      rw (e, length-waypoints D B kit t, k) (first_index (length t.waypoints) h)

  -- What a crossing of the start line leaves.
  pub cross_start-timer :
      (t : Sketch D B kit) (gate p : Waypoint Real)
      → get_elem? t.waypoints 0 ≡ some p
      → times gate ≡ times p
      → let now = add32 (millis t.lights.world) gate.adjustment in
        start_at now (times p) (timer D B kit t)
        ≡ timer D B kit (cross_start D B kit t (true, gate))
  unfolding cross_start
  cross_start-timer t gate p h e =
      let now = add32 (millis t.lights.world) gate.adjustment in
      let gs = set (timer D B kit t).gates 0 (record (times p) { last = now }) in
      let size = length-set (timer D B kit t).gates 0 (record (times p) { last = now }) in
      timer_eq D B kit
        (sym (
          map-set times t.waypoints 0 (record gate { last = now })
          ∙ ap (λ (x : Times). set (timer D B kit t).gates 0 (record x { last = now })) e))
        refl
        (first_next t gs _ (get_elem?-length t.waypoints 0 h) size
          (length-set t.waypoints 0 (record gate { last = now })))
        refl

  cross_start-Refines :
      (t : Sketch D B kit) (r : Bool × Waypoint Real) (p : Waypoint Real)
      → get_elem? t.waypoints 0 ≡ some p
      → times r.1 ≡ times p
      → is_race t.next_state ≡ false
      → Refines D B kit t (cross_start D B kit t r)
  unfolding cross_start
  cross_start-Refines t (true, gate) p h e n =
      let now = add32 (millis t.lights.world) gate.adjustment in
      subst (Steps (timer D B kit t)) (cross_start-timer t gate p h e)
        (one (Step.starts now (times p) n (get_elem?-map times t.waypoints 0 h)))
  cross_start-Refines t (false, gate) p h e n = Steps.none_yet

  init_case-Refines :
      (t u : Sketch D B kit)
      → init_case D B kit t ≡ done u
      → is_race t.next_state ≡ false
      → Refines D B kit t u
  unfolding init_case
  init_case-Refines t u h n =
      let (r, e, h') = >>=-eq-done (test_gate D B kit 0 t) _ h in
      let (p, at, same) = test_gate-times D B kit 0 t r e in
      subst (Refines D B kit t) (done-injective h') (cross_start-Refines t r p at same n)

  -- What `store_and_race` leaves: the lap is closed at the gate that is next.
  pub store_and_race-timer :
      (here prev gate : Waypoint Real) (ps : List (Waypoint Real)) (t : Sketch D B kit)
      → map times ps ≡ map times t.waypoints
      → length ps ≡ length t.waypoints
      → get_elem? ps 0 ≡ some gate
      → let now = add32 (millis t.lights.world) prev.adjustment in
        go (cross_next now (times here) (times prev) (times gate) (timer D B kit t))
        ≡ timer D B kit (store_and_race D B kit here prev gate ps t)
  unfolding store_and_race cross_next
  store_and_race-timer here prev gate ps t e k c =
      let now = add32 (millis t.lights.world) prev.adjustment in
      let p = (check_split D here prev gate.last t.lights.world).0 in
      let gs = (cross_next now (times here) (times prev) (times gate) (timer D B kit t)).gates in
      let size : length gs ≡ length (timer D B kit t).gates =
        length-set (timer D B kit t).gates t.wp_next _ in
      timer_eq D B kit (sym (booked D B kit t ps here prev gate e)) refl
        (first_next t gs _ (rw (← k) (get_elem?-length ps 0 c)) size
          (length-set ps t.wp_next p ∙ k))
        refl

  store_and_race-Refines :
      (here prev gate : Waypoint Real) (ps : List (Waypoint Real)) (t : Sketch D B kit)
      → map times ps ≡ map times t.waypoints
      → length ps ≡ length t.waypoints
      → get_elem? ps t.wp_next ≡ some here
      → get_elem? ps t.wp_last ≡ some prev
      → get_elem? ps 0 ≡ some gate
      → is_race t.next_state ≡ false
      → Refines D B kit t (store_and_race D B kit here prev gate ps t)
  unfolding gates_of
  store_and_race-Refines here prev gate ps t e k a b c n =
      let now = add32 (millis t.lights.world) prev.adjustment in
      subst (Steps (timer D B kit t)) (store_and_race-timer here prev gate ps t e k c)
        (one (Step.closes now (gates_of D B kit t ps here prev gate e a b c) n))

  close_on-Refines :
      (t u : Sketch D B kit) (r : Bool × Waypoint Real) (p : Waypoint Real)
      → close_on D B kit t r ≡ done u
      → get_elem? t.waypoints 0 ≡ some p
      → times r.1 ≡ times p
      → is_race t.next_state ≡ false
      → Refines D B kit t u
  unfolding close_on
  close_on-Refines t u (false, gate) p h at same n =
      subst (Refines D B kit t) (done-injective h) Steps.none_yet
  close_on-Refines t u (true, gate) p h at same n =
      let ps = set t.waypoints 0 gate in
      let (here, e1, h1) = >>=-eq-done (lift (get_elem? ps t.wp_next)) _ h in
      let (prev, e2, h2) = >>=-eq-done (lift (get_elem? ps t.wp_last)) _ h1 in
      subst (Refines D B kit t) (done-injective h2) (
        store_and_race-Refines here prev gate ps t (times-set t.waypoints 0 p gate at same)
          (length-set t.waypoints 0 gate) (lift-eq-done (get_elem? ps t.wp_next) e1)
          (lift-eq-done (get_elem? ps t.wp_last) e2)
          (get_elem?-set_same t.waypoints 0 gate (get_elem?-length t.waypoints 0 at)) n)

  -- The race is given up.
  record GivesUp (t u : Sketch D B kit) : Type 0 where
    cleared : u.waypoints ≡ reset D t.waypoints
    gives_last : u.wp_last ≡ t.wp_last
    gives_next : u.wp_next ≡ t.wp_next
    over : is_race u.next_state ≡ false

  no_cross-either :
      (timer : ℕ) (t : Sketch D B kit)
      → SameTimer D B kit t (no_cross D B kit timer t) ⊎ GivesUp t (no_cross D B kit timer t)
  unfolding no_cross
  no_cross-either timer t = ground arith

  either-Refines :
      (t u : Sketch D B kit)
      → SameTimer D B kit t u ⊎ GivesUp t u
      → is_race t.next_state ≡ true
      → Refines D B kit t u
  either-Refines t u (inl s) n = Refines-same D B kit t u s
  either-Refines t u (inr g) n =
      subst (Steps (timer D B kit t))
        (timer_eq D B kit (sym (ap (map times) g.cleared ∙ times-reset D t.waypoints))
          (sym g.gives_last) (sym g.gives_next) (sym g.over))
        (one (Step.gives_up n))

  race_on-Refines :
      (timer : ℕ) (t u : Sketch D B kit) (r : Bool × Waypoint Real) (p : Waypoint Real)
      → race_on D B kit timer t r ≡ done u
      → get_elem? t.waypoints t.wp_next ≡ some p
      → times r.1 ≡ times p
      → is_race t.next_state ≡ true
      → Refines D B kit t u
  unfolding race_on
  race_on-Refines timer t u (true, gate) p h at same n =
      cross-Refines D B kit gate p t u h at same n
  race_on-Refines timer t u (false, gate) p h at same n =
      subst (Refines D B kit t) (done-injective h)
        (either-Refines t (no_cross D B kit timer t) (no_cross-either timer t) n)

  race_case-Refines :
      (t u : Sketch D B kit)
      → race_case D B kit t ≡ done u
      → is_race t.next_state ≡ true
      → Refines D B kit t u
  unfolding race_case
  race_case-Refines t u h n =
      let (timer', w) = timer_or t.reset_timer t.lights.world in
      let t' = record (on_world D B kit (λ _. w) t) { reset_timer = some timer' } in
      let (r, e, h') = >>=-eq-done (test_gate D B kit t.wp_next t') _ h in
      let (p, at, same) = test_gate-times D B kit t.wp_next t' r e in
      race_on-Refines timer' t' u r p h' at same n

  pub by_fix-Refines :
      (s : State) (t u : Sketch D B kit)
      → by_fix D B kit s t ≡ done u
      → t.next_state ≡ s
      → Refines D B kit t u
  unfolding by_fix close_track
  by_fix-Refines st_reset t u h n = subst (Refines D B kit t) (done-injective h) Steps.none_yet
  by_fix-Refines st_init t u h n = init_case-Refines t u h (ap is_race n)
  by_fix-Refines st_sfset t u h n = subst (Refines D B kit t) (done-injective h) Steps.none_yet
  by_fix-Refines st_wpset t u h n =
      let (r, e, h') = >>=-eq-done (test_gate D B kit 0 t) _ h in
      let (p, at, same) = test_gate-times D B kit 0 t r e in
      close_on-Refines t u r p h' at same (ap is_race n)
  by_fix-Refines st_race t u h n = race_case-Refines t u h (ap is_race n)
