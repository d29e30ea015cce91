-- ===== src/Tracker/Colours/Fix.antt =====
-- The colours of the LEDs in the second `switch` of `loop`.
use speed_feed.Common.{
  ◌==◌, not, ◌&&◌, sub32, ltb, ℕ, ◌≡◌, Bool, true, false, arith, get_elem?, set, some,
}
use speed_feed.Double.{Double}
use speed_feed.Led.{green}
use speed_feed.Lights.Silent.{blink-silent}
use speed_feed.Eeprom.{Bus}
use speed_feed.Waypoint.{Waypoint, check_split}
use speed_feed.Platform.{millis, tick}
use speed_feed.Monitor.{print_text}
use speed_feed.Tracker.State.{
  Kit, State, st_reset, st_init, st_sfset, st_wpset, st_race, done, >>=-eq-done, lift,
  done-injective,
}
use speed_feed.Tracker.Startup.{Sketch, on_world}
use speed_feed.Tracker.Racing.{
  timer_or, record_split, cross, no_cross, test_gate, race_on, race_case,
}
use speed_feed.Tracker.Loop.{cross_start, init_case, store_and_race, close_on, close_track, by_fix}
use speed_feed.Tracker.Colours.{KeepsColours}
use speed_feed.Tracker.Colours.Button.{Coloured, Coloured-if}
use mathlib.Core.Path.{subst}

module _ (D : Double) (B : Bus) (kit : Kit D.Real) (k : KeepsColours kit) where
  open D use {Real}

  abbrev Valid : Sketch D B kit → Type 0
  Valid = Coloured D B kit

  cross_start-Coloured :
      (t : Sketch D B kit) (r : Bool × Waypoint Real) → Valid t → Valid (cross_start D B kit t r)
  unfolding cross_start
  cross_start-Coloured t (crossed, gate) c =
      Coloured-if D B kit crossed _ _ (k.start (record t.lights { world = tick t.lights.world }) c)
        c

  init_case-Coloured : (t u : Sketch D B kit) → init_case D B kit t ≡ done u → Valid t → Valid u
  unfolding init_case
  init_case-Coloured t u h c =
      let (r, e, h') = >>=-eq-done (test_gate D B kit 0 t) _ h in
      subst Valid (done-injective h') (cross_start-Coloured t r c)

  store_and_race-Coloured :
      (here prev gate g : Waypoint Real) (t : Sketch D B kit)
      → Valid t
      → Valid (store_and_race D B kit here prev gate (set t.waypoints 0 g) t)
  unfolding store_and_race
  store_and_race-Coloured here prev gate g t c =
      let w = (check_split D here prev gate.last t.lights.world).1 in
      k.close (record t.lights { world = w }) c

  close_on-Coloured :
      (t u : Sketch D B kit) (r : Bool × Waypoint Real)
      → close_on D B kit t r ≡ done u
      → Valid t
      → Valid u
  unfolding close_on
  close_on-Coloured t u (false, gate) h c = subst Valid (done-injective h) c
  close_on-Coloured t u (true, gate) h c =
      let ps = set t.waypoints 0 gate in
      let (here, e1, h1) = >>=-eq-done (lift (get_elem? ps t.wp_next)) _ h in
      let (prev, e2, h2) = >>=-eq-done (lift (get_elem? ps t.wp_last)) _ h1 in
      subst Valid (done-injective h2) (store_and_race-Coloured here prev gate gate t c)

  close_track-Coloured : (t u : Sketch D B kit) → close_track D B kit t ≡ done u → Valid t → Valid u
  unfolding close_track
  close_track-Coloured t u h c =
      let (r, e, h') = >>=-eq-done (test_gate D B kit 0 t) _ h in close_on-Coloured t u r h' c

  cross-Coloured :
      (gate : Waypoint Real) (t u : Sketch D B kit)
      → cross D B kit gate t ≡ done u
      → Valid t
      → Valid u
  unfolding cross record_split
  cross-Coloured gate t u h c =
      let ps = set t.waypoints t.wp_next gate in
      let (prev, e1, h1) = >>=-eq-done (lift (get_elem? ps t.wp_last)) _ h in
      let (first, e2, h2) = >>=-eq-done (lift (get_elem? ps 0)) _ h1 in
      let (p, w) = check_split D gate prev first.last t.lights.world in
      let w' = print_text (kit.split_text p t.tracks t.lights) w in
      subst Valid (done-injective h2) (k.signal p (record t.lights { world = w' }) c)

  no_cross-Coloured : (timer : ℕ) (t : Sketch D B kit) → Valid t → Valid (no_cross D B kit timer t)
  unfolding no_cross
  no_cross-Coloured timer t c =
      let l = record t.lights { world = tick t.lights.world } in
      let b = (blink-silent green 500 500 0 l (omega arith) c).0 in
      let stands = ltb 1000 (sub32 (millis t.lights.world) timer) && not (timer == 0) in
      Coloured-if D B kit (D.lt (D.literal 1) t.gps.speed) _ _ c
        (Coloured-if D B kit stands _ _ b c)

  race_on-Coloured :
      (timer : ℕ) (t u : Sketch D B kit) (r : Bool × Waypoint Real)
      → race_on D B kit timer t r ≡ done u
      → Valid t
      → Valid u
  unfolding race_on
  race_on-Coloured timer t u (true, gate) h c = cross-Coloured gate t u h c
  race_on-Coloured timer t u (false, gate) h c =
      subst Valid (done-injective h) (no_cross-Coloured timer t c)

  race_case-Coloured : (t u : Sketch D B kit) → race_case D B kit t ≡ done u → Valid t → Valid u
  unfolding race_case
  race_case-Coloured t u h c =
      let (timer, w) = timer_or t.reset_timer t.lights.world in
      let t' = record (on_world D B kit (λ _. w) t) { reset_timer = some timer } in
      let (r, e, h') = >>=-eq-done (test_gate D B kit t.wp_next t') _ h in
      race_on-Coloured timer t' u r h' c

  pub by_fix-Coloured :
      (s : State) (t u : Sketch D B kit) → by_fix D B kit s t ≡ done u → Valid t → Valid u
  unfolding by_fix
  by_fix-Coloured st_reset t u h c = subst Valid (done-injective h) c
  by_fix-Coloured st_init t u h c = init_case-Coloured t u h c
  by_fix-Coloured st_sfset t u h c = subst Valid (done-injective h) c
  by_fix-Coloured st_wpset t u h c = close_track-Coloured t u h c
  by_fix-Coloured st_race t u h c = race_case-Coloured t u h c
