-- ===== src/Visualizer/Steady.antt =====
-- What the second `switch` of GPS_tracker_2LEDs_Split does without a print.
use mathlib.Core.Path.{subst}
use speed_feed.Common.{
  ℕ, zero, suc, ◌-◌, ◌==◌, ◌≡◌, refl, ap, ◌∙◌, Bool, true, false, some, List, [], ◌∷◌, arith,
  length, get_elem?, set, not, ◌&&◌, ltb, sub32,
}
use speed_feed.Double.{Double}
use speed_feed.Waypoint.{Waypoint, check_split}
use speed_feed.Eeprom.{Bus}
use speed_feed.Eeprom.RoundTrip.{ends}
use speed_feed.Led.{off, green, yellow}
use speed_feed.Lights.{Lights, set_lap, set_lap_splt}
use speed_feed.Lights.Silent.{
  AreColoured, StaysSilent, StaysSilent-trans, set_lap-silent, set_splt-silent, set_lap_splt-silent,
  blink-silent,
}
use speed_feed.Platform.{tick, millis}
use speed_feed.Tracker.State.{Kit, done, >>=-eq-done, lift, lift-eq-done, done-injective}
use speed_feed.Tracker.Startup.{Sketch}
use speed_feed.Tracker.Racing.{no_cross, test_gate}
use speed_feed.Tracker.Loop.{cross_start, init_case, store_and_race, close_on, close_track}
use speed_feed.Tracker.Ends.{set-ends, reset-ends, check_split-ends, intersection-ends}
use speed_feed.Tracker.Quiet.{IsQuiet, IsQuiet-self, IsQuiet-if}
use speed_feed.TwoLeds.{two_leds_kit, two_leds_start, two_leds_close}

two_leds_close-silent : (l : Lights) → AreColoured l → StaysSilent l (two_leds_close l)
unfolding two_leds_close
two_leds_close-silent l c =
    let a = set_lap-silent yellow 0 l (omega arith) c in
    let l' = set_lap yellow 0 l in
    StaysSilent-trans l l' (two_leds_close l) a (set_splt-silent yellow 3000 l' (omega arith) a.0)

two_leds_start-silent : (l : Lights) → AreColoured l → StaysSilent l (two_leds_start l)
unfolding two_leds_start
two_leds_start-silent l c =
    let a = set_lap_splt-silent off 0 l (omega arith) c in
    let l' = set_lap_splt off 0 l in
    StaysSilent-trans l l' (two_leds_start l) a (two_leds_close-silent l' a.0)

pub set-twice : {A : Type 0} (xs : List A) (i : ℕ) (x y : A) → set (set xs i x) i y ≡ set xs i y
set-twice [] i x y = refl
set-twice (z ∷ xs) zero x y = refl
set-twice (z ∷ xs) (suc i) x y = ap (λ l. z ∷ l) (set-twice xs i x y)

module _ (D : Double) (B : Bus) (kit : Kit D.Real) where
  open D use {Real}

  -- The gate that was tested has the ends of the one in the vector.
  pub record IsTested (i : ℕ) (t : Sketch D B kit) (gate : Waypoint Real) : Type 0 where
    pub tested : Waypoint Real
    pub is_there : get_elem? t.waypoints i ≡ some tested
    pub same : ends gate ≡ ends tested

  pub test_gate-IsTested :
      (i : ℕ) (t : Sketch D B kit) (r : Bool × Waypoint Real)
      → test_gate D B kit i t ≡ done r
      → IsTested i t r.1
  unfolding test_gate
  test_gate-IsTested i t r h =
      let (p1, e1, h1) = >>=-eq-done (lift (get_elem? t.tracks 0)) _ h in
      let (p2, e2, h2) = >>=-eq-done (lift (get_elem? t.tracks (length t.tracks - 1))) _ h1 in
      let (p, e, h3) = >>=-eq-done (lift (get_elem? t.waypoints i)) _ h2 in
      record {
        tested = p;
        is_there = lift-eq-done (get_elem? t.waypoints i) e;
        same =
            subst (λ (x : Bool × Waypoint Real). ends x.1 ≡ ends p) (done-injective h3)
              (intersection-ends D p1 p2 p);
      }

module _ (D : Double) (B : Bus) (memory : ℕ → Waypoint D.Real) (no_speed : D.Real) where
  open D use {Real}

  abbrev kit : Kit Real
  kit = two_leds_kit D memory no_speed

  cross_start-IsQuiet :
      (t : Sketch D B kit) (r : Bool × Waypoint Real)
      → IsTested D B kit 0 t r.1
      → AreColoured t.lights
      → IsQuiet D B kit t (cross_start D B kit t r)
  unfolding cross_start two_leds_kit
  cross_start-IsQuiet t (crossed, gate) g c =
      let l = record t.lights { world = tick t.lights.world } in
      IsQuiet-if D B kit crossed t _ _
        (record {
          silent = two_leds_start-silent l c;
          same_boot = refl;
          same_ends = set-ends t.waypoints 0 g.tested _ g.is_there g.same;
          same_receiver = refl;
        })
        (IsQuiet-self D B kit t c)

  pub init_case-IsQuiet :
      (t u : Sketch D B kit)
      → init_case D B kit t ≡ done u
      → AreColoured t.lights
      → IsQuiet D B kit t u
  unfolding init_case
  init_case-IsQuiet t u h c =
      let (r, e, h') = >>=-eq-done (test_gate D B kit 0 t) _ h in
      subst (IsQuiet D B kit t) (done-injective h')
        (cross_start-IsQuiet t r (test_gate-IsTested D B kit 0 t r e) c)

  store_and_race-IsQuiet :
      (here prev gate : Waypoint Real) (t : Sketch D B kit)
      → IsTested D B kit 0 t gate
      → get_elem? (set t.waypoints 0 gate) t.wp_next ≡ some here
      → AreColoured t.lights
      → IsQuiet D B kit t (store_and_race D B kit here prev gate (set t.waypoints 0 gate) t)
  unfolding store_and_race two_leds_kit check_split
  store_and_race-IsQuiet here prev gate t g e c =
      let l = record t.lights { world = tick t.lights.world } in
      record {
        silent = two_leds_close-silent l c;
        same_boot = refl;
        same_ends =
            set-ends (set t.waypoints 0 gate) t.wp_next here _ e
              (check_split-ends D here prev gate.last t.lights.world)
            ∙ set-ends t.waypoints 0 g.tested gate g.is_there g.same;
        same_receiver = refl;
      }

  close_on-IsQuiet :
      (t u : Sketch D B kit) (r : Bool × Waypoint Real)
      → close_on D B kit t r ≡ done u
      → IsTested D B kit 0 t r.1
      → AreColoured t.lights
      → IsQuiet D B kit t u
  unfolding close_on
  close_on-IsQuiet t u (false, gate) h g c =
      subst (IsQuiet D B kit t) (done-injective h) (IsQuiet-self D B kit t c)
  close_on-IsQuiet t u (true, gate) h g c =
      let ps = set t.waypoints 0 gate in
      let (here, e1, h1) = >>=-eq-done (lift (get_elem? ps t.wp_next)) _ h in
      let (prev, e2, h2) = >>=-eq-done (lift (get_elem? ps t.wp_last)) _ h1 in
      subst (IsQuiet D B kit t) (done-injective h2)
        (store_and_race-IsQuiet here prev gate t g (lift-eq-done (get_elem? ps t.wp_next) e1) c)

  pub close_track-IsQuiet :
      (t u : Sketch D B kit)
      → close_track D B kit t ≡ done u
      → AreColoured t.lights
      → IsQuiet D B kit t u
  unfolding close_track
  close_track-IsQuiet t u h c =
      let (r, e, h') = >>=-eq-done (test_gate D B kit 0 t) _ h in
      close_on-IsQuiet t u r h' (test_gate-IsTested D B kit 0 t r e) c

  pub no_cross-IsQuiet :
      (timer : ℕ) (t : Sketch D B kit)
      → AreColoured t.lights
      → IsQuiet D B kit t (no_cross D B kit timer t)
  unfolding no_cross
  no_cross-IsQuiet timer t c =
      let l = record t.lights { world = tick t.lights.world } in
      let stands = ltb 1000 (sub32 (millis t.lights.world) timer) && not (timer == 0) in
      let moves = D.lt (D.literal 1) t.gps.speed in
      IsQuiet-if D B kit moves t _ _
        (record { silent = (c, refl); same_boot = refl; same_ends = refl; same_receiver = refl })
        (IsQuiet-if D B kit stands t _ _
          (record {
            silent = blink-silent green 500 500 0 l (omega arith) c;
            same_boot = refl;
            same_ends = reset-ends D t.waypoints;
            same_receiver = refl;
          })
          (record { silent = (c, refl); same_boot = refl; same_ends = refl; same_receiver = refl }))
