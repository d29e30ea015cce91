-- ===== src/Tracker/Valid/Second.antt =====
-- The second `switch` of the loop, on a sentence with a fix, keeps the invariant.
use speed_feed.Monitor.{print_text}
use mathlib.Core.Path.{subst}
use speed_feed.Common.{
  ℕ, zero, suc, ◌-◌, ◌<◌, ◌≡◌, Bool, true, false, some, List, [], ◌∷◌, ◌++◌, arith, length,
  length-append, length-set, get_elem?, set, add32,
}
use speed_feed.Platform.{millis}
use speed_feed.Double.{Double}
use speed_feed.Waypoint.{Waypoint, check_split}
use speed_feed.Geometry.{Point, new_point}
use speed_feed.Eeprom.{Bus}
use speed_feed.Tracker.State.{
  Kit, State, st_reset, st_init, st_sfset, st_wpset, st_race, done, >>=-eq-done, lift, lift-eq-done,
  done-injective,
}
use speed_feed.Tracker.Startup.{Sketch, on_world}
use speed_feed.Tracker.Racing.{
  cross, no_cross, record_split, test_gate, race_on, race_case, timer_or,
}
use speed_feed.Tracker.Loop.{
  by_fix, init_case, cross_start, store_and_race, close_on, close_track, push_track, drop_first,
}
use speed_feed.Tracker.Valid.{IsValid}
use speed_feed.Tracker.Valid.Lengths.{length-reset}

pub get_elem?-nonempty {ℓ} :
    {A : Type ℓ} (xs : List A) (i : ℕ) {x : A} → get_elem? xs i ≡ some x → i < length xs
get_elem?-nonempty [] i h = cc
get_elem?-nonempty (y ∷ xs) zero h = omega arith
get_elem?-nonempty (y ∷ xs) (suc i) h = omega (arith, get_elem?-nonempty xs i h)

module _ (D : Double) (B : Bus) (kit : Kit D.Real) where
  open D use {Real}

  length-drop_first : (ps : List (Point Real)) → length (drop_first D B kit ps) ≡ length ps - 1
  length-drop_first [] = omega arith
  length-drop_first (p ∷ ps) = omega arith

  pub push_track-IsValid :
      (t : Sketch D B kit)
      → IsValid D B kit t
      → IsValid D B kit (push_track D B kit t) × (0 < length (push_track D B kit t).tracks)
  unfolding push_track
  push_track-IsValid t v =
      let p =
        (new_point t.gps.longitude t.gps.latitude (kit.point_speed t.gps)
          (print_text (kit.position_text t.gps) t.lights.world)).0 in
      ground (arith, length-append t.tracks (p ∷ []), length-drop_first (t.tracks ++ (p ∷ [])))

  test_gate-in :
      (i : ℕ) (t : Sketch D B kit) {r : Bool × Waypoint Real}
      → test_gate D B kit i t ≡ done r
      → i < length t.waypoints
  unfolding test_gate
  test_gate-in i t h =
      let (p1, e1, h1) = >>=-eq-done (lift (get_elem? t.tracks 0)) _ h in
      let (p2, e2, h2) = >>=-eq-done (lift (get_elem? t.tracks (length t.tracks - 1))) _ h1 in
      let (gate, e3, h3) = >>=-eq-done (lift (get_elem? t.waypoints i)) _ h2 in
      get_elem?-nonempty t.waypoints i (lift-eq-done (get_elem? t.waypoints i) e3)

  cross_start-IsValid :
      (t : Sketch D B kit) (r : Bool × Waypoint Real)
      → 0 < length t.waypoints
      → IsValid D B kit t
      → IsValid D B kit (cross_start D B kit t r)
  unfolding cross_start
  cross_start-IsValid t (crossed, gate) n v =
      let start = record gate { last = add32 (millis t.lights.world) gate.adjustment } in
      ground (arith, length-set t.waypoints 0 start)

  init_case-IsValid :
      (t u : Sketch D B kit) → init_case D B kit t ≡ done u → IsValid D B kit t → IsValid D B kit u
  unfolding init_case
  init_case-IsValid t u h v =
      let (r, e, h') = >>=-eq-done (test_gate D B kit 0 t) _ h in
      subst (IsValid D B kit) (done-injective h') (cross_start-IsValid t r (test_gate-in 0 t e) v)

  record_split-IsValid :
      (gate prev first g : Waypoint Real) (t : Sketch D B kit)
      → t.wp_next < length t.waypoints
      → IsValid D B kit t
      → IsValid D B kit (record_split D B kit gate prev first (set t.waypoints t.wp_next g) t)
  unfolding record_split
  record_split-IsValid gate prev first g t n v =
      let p = (check_split D gate prev first.last t.lights.world).0 in
      ground (
        arith,
        length-set (set t.waypoints t.wp_next g) t.wp_next p,
        length-set t.waypoints t.wp_next g,
      )

  cross-IsValid :
      (gate : Waypoint Real) (t u : Sketch D B kit)
      → cross D B kit gate t ≡ done u
      → t.wp_next < length t.waypoints
      → IsValid D B kit t
      → IsValid D B kit u
  unfolding cross
  cross-IsValid gate t u h n v =
      let ps = set t.waypoints t.wp_next gate in
      let (prev, e1, h1) = >>=-eq-done (lift (get_elem? ps t.wp_last)) _ h in
      let (first, e2, h2) = >>=-eq-done (lift (get_elem? ps 0)) _ h1 in
      subst (IsValid D B kit) (done-injective h2) (record_split-IsValid gate prev first gate t n v)

  no_cross-IsValid :
      (timer : ℕ) (t : Sketch D B kit)
      → 0 < length t.waypoints
      → IsValid D B kit t
      → IsValid D B kit (no_cross D B kit timer t)
  unfolding no_cross
  no_cross-IsValid timer t n v = ground (arith, length-reset D t.waypoints)

  race_on-IsValid :
      (timer : ℕ) (t u : Sketch D B kit) (r : Bool × Waypoint Real)
      → race_on D B kit timer t r ≡ done u
      → t.wp_next < length t.waypoints
      → IsValid D B kit t
      → IsValid D B kit u
  unfolding race_on
  race_on-IsValid timer t u (true, gate) h n v = cross-IsValid gate t u h n v
  race_on-IsValid timer t u (false, gate) h n v =
      subst (IsValid D B kit) (done-injective h) (no_cross-IsValid timer t (omega arith) v)

  race_case-IsValid :
      (t u : Sketch D B kit) → race_case D B kit t ≡ done u → IsValid D B kit t → IsValid D B kit u
  unfolding race_case
  race_case-IsValid t u h v =
      let (timer, w) = timer_or t.reset_timer t.lights.world in
      let t' = record (on_world D B kit (λ _. w) t) { reset_timer = some timer } in
      let v' : IsValid D B kit t' = ground arith in
      let (r, e, h') = >>=-eq-done (test_gate D B kit t.wp_next t') _ h in
      race_on-IsValid timer t' u r h' (test_gate-in t.wp_next t' e) v'

  store_and_race-IsValid :
      (here prev gate g : Waypoint Real) (t : Sketch D B kit)
      → 0 < length t.waypoints
      → IsValid D B kit t
      → IsValid D B kit (store_and_race D B kit here prev gate (set t.waypoints 0 g) t)
  unfolding store_and_race
  store_and_race-IsValid here prev gate g t n v =
      let p = (check_split D here prev gate.last t.lights.world).0 in
      ground (arith, length-set (set t.waypoints 0 g) t.wp_next p, length-set t.waypoints 0 g)

  close_on-IsValid :
      (t u : Sketch D B kit) (r : Bool × Waypoint Real)
      → close_on D B kit t r ≡ done u
      → 0 < length t.waypoints
      → IsValid D B kit t
      → IsValid D B kit u
  unfolding close_on
  close_on-IsValid t u (false, gate) h n v = subst (IsValid D B kit) (done-injective h) v
  close_on-IsValid t u (true, gate) h n v =
      let ps = set t.waypoints 0 gate in
      let (here, e1, h1) = >>=-eq-done (lift (get_elem? ps t.wp_next)) _ h in
      let (prev, e2, h2) = >>=-eq-done (lift (get_elem? ps t.wp_last)) _ h1 in
      subst (IsValid D B kit) (done-injective h2) (store_and_race-IsValid here prev gate gate t n v)

  close_track-IsValid :
      (t u : Sketch D B kit)
      → close_track D B kit t ≡ done u
      → IsValid D B kit t
      → IsValid D B kit u
  unfolding close_track
  close_track-IsValid t u h v =
      let (r, e, h') = >>=-eq-done (test_gate D B kit 0 t) _ h in
      close_on-IsValid t u r h' (test_gate-in 0 t e) v

  -- The second `switch` keeps the invariant, in every state.
  pub by_fix-IsValid :
      (s : State) (t u : Sketch D B kit)
      → by_fix D B kit s t ≡ done u
      → IsValid D B kit t
      → IsValid D B kit u
  unfolding by_fix
  by_fix-IsValid st_reset t u h v = subst (IsValid D B kit) (done-injective h) v
  by_fix-IsValid st_init t u h v = init_case-IsValid t u h v
  by_fix-IsValid st_sfset t u h v = subst (IsValid D B kit) (done-injective h) v
  by_fix-IsValid st_wpset t u h v = close_track-IsValid t u h v
  by_fix-IsValid st_race t u h v = race_case-IsValid t u h v
