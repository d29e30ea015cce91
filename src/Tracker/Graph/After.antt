-- ===== src/Tracker/Graph/After.antt =====
-- The moves of the second `switch` of the loop, after a sentence, in the graph of states.
use mathlib.Core.Path.{subst}
use speed_feed.Common.{
  ℕ, ◌≡◌, ◌∙◌, some, ◌⊎◌, inl, inr, refl, Bool, true, false, arith, set, get_elem?,
}
use speed_feed.Double.{Double}
use speed_feed.Waypoint.{Waypoint}
use speed_feed.Eeprom.{Bus}
use speed_feed.Tracker.State.{
  Kit, State, st_reset, st_init, st_sfset, st_wpset, st_race, done, >>=-eq-done, lift,
  done-injective,
}
use speed_feed.Tracker.Startup.{Sketch, on_world}
use speed_feed.Tracker.Racing.{
  cross, record_split, no_cross, race_on, race_case, test_gate, timer_or,
}
use speed_feed.Tracker.Loop.{by_fix, init_case, cross_start, close_on, close_track, store_and_race}
use speed_feed.Tracker.Graph.Edges.{
  FixMove, stays, starts, closes, stops, FixMove-either, FixMove-same,
}

module _ (D : Double) (B : Bus) (kit : Kit D.Real) where
  open D use {Real}

  cross_start-next :
      (t : Sketch D B kit) (r : Bool × Waypoint Real)
      → ((cross_start D B kit t r).next_state ≡ t.next_state)
        ⊎ ((cross_start D B kit t r).next_state ≡ st_race)
  unfolding cross_start
  cross_start-next t (true, gate) = inr refl
  cross_start-next t (false, gate) = inl refl

  init_case-FixMove :
      (t u : Sketch D B kit)
      → init_case D B kit t ≡ done u
      → t.next_state ≡ st_init
      → FixMove st_init u.next_state
  unfolding init_case
  init_case-FixMove t u h e =
      let (r, e', h') = >>=-eq-done (test_gate D B kit 0 t) _ h in
      FixMove-either stays starts (ground (arith, cross_start-next t r, h'))

  close_on-FixMove :
      (t u : Sketch D B kit) (r : Bool × Waypoint Real)
      → close_on D B kit t r ≡ done u
      → t.next_state ≡ st_wpset
      → FixMove st_wpset u.next_state
  unfolding close_on store_and_race
  close_on-FixMove t u (false, gate) h e = FixMove-same (ground arith)
  close_on-FixMove t u (true, gate) h e =
      let ps = set t.waypoints 0 gate in
      let (here, e1, h1) = >>=-eq-done (lift (get_elem? ps t.wp_next)) _ h in
      let (prev, e2, h2) = >>=-eq-done (lift (get_elem? ps t.wp_last)) _ h1 in
      subst (λ (v : Sketch D B kit). FixMove st_wpset v.next_state) (done-injective h2) closes

  cross-next :
      (gate : Waypoint Real) (t u : Sketch D B kit)
      → cross D B kit gate t ≡ done u
      → u.next_state ≡ t.next_state
  unfolding cross record_split
  cross-next gate t u h =
      let ps = set t.waypoints t.wp_next gate in
      let (prev, e1, h1) = >>=-eq-done (lift (get_elem? ps t.wp_last)) _ h in
      let (first, e2, h2) = >>=-eq-done (lift (get_elem? ps 0)) _ h1 in
      subst (λ (v : Sketch D B kit). v.next_state ≡ t.next_state) (done-injective h2) refl

  no_cross-next :
      (timer : ℕ) (t : Sketch D B kit)
      → ((no_cross D B kit timer t).next_state ≡ t.next_state)
        ⊎ ((no_cross D B kit timer t).next_state ≡ st_init)
  unfolding no_cross
  no_cross-next timer t = ground arith

  race_on-FixMove :
      (timer : ℕ) (t u : Sketch D B kit) (r : Bool × Waypoint Real)
      → race_on D B kit timer t r ≡ done u
      → t.next_state ≡ st_race
      → FixMove st_race u.next_state
  unfolding race_on
  race_on-FixMove timer t u (true, gate) h e = FixMove-same (cross-next gate t u h ∙ e)
  race_on-FixMove timer t u (false, gate) h e =
      FixMove-either stays stops (ground (arith, no_cross-next timer t, h))

  race_case-FixMove :
      (t u : Sketch D B kit)
      → race_case D B kit t ≡ done u
      → t.next_state ≡ st_race
      → FixMove st_race u.next_state
  unfolding race_case
  race_case-FixMove t u h e =
      let (timer, w) = timer_or t.reset_timer t.lights.world in
      let t' = record (on_world D B kit (λ _. w) t) { reset_timer = some timer } in
      let (r, e', h') = >>=-eq-done (test_gate D B kit t.wp_next t') _ h in
      race_on-FixMove timer t' u r h' e

  pub by_fix-FixMove :
      (s : State) (t u : Sketch D B kit)
      → by_fix D B kit s t ≡ done u
      → t.next_state ≡ s
      → FixMove s u.next_state
  unfolding by_fix close_track
  by_fix-FixMove st_reset t u h e = FixMove-same (ground arith)
  by_fix-FixMove st_init t u h e = init_case-FixMove t u h e
  by_fix-FixMove st_sfset t u h e = FixMove-same (ground arith)
  by_fix-FixMove st_wpset t u h e =
      let (r, e', h') = >>=-eq-done (test_gate D B kit 0 t) _ h in close_on-FixMove t u r h' e
  by_fix-FixMove st_race t u h e = race_case-FixMove t u h e
