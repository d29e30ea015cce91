-- ===== src/Visualizer/Crossing.antt =====
-- The second `switch` of GPS_tracker_2LEDs_Split, followed by GPS_visualizer.
use mathlib.Core.Path.{subst}
use speed_feed.Common.{
  ℕ, Option, none, ◌≡◌, refl, ap, ◌∙◌, Bool, true, false, some, map, get_elem?, set,
}
use speed_feed.Double.{Double}
use speed_feed.Waypoint.{Waypoint, check_split}
use speed_feed.Eeprom.{Bus}
use speed_feed.Eeprom.RoundTrip.{ends}
use speed_feed.Monitor.{monitor, print_text}
use speed_feed.Platform.{World, tick}
use speed_feed.Tracker.State.{
  Kit, State, st_reset, st_init, st_sfset, st_wpset, st_race, done, >>=-eq-done, lift,
  done-injective,
}
use speed_feed.Tracker.Startup.{Sketch, on_world}
use speed_feed.Tracker.Racing.{
  timer_or, record_split, cross, no_cross, test_gate, race_on, race_case,
}
use speed_feed.Tracker.Loop.{by_fix}
use speed_feed.Tracker.Ends.{set-ends, check_split-ends}
use speed_feed.Tracker.Quiet.{IsQuiet, IsQuiet-self}
use speed_feed.TwoLeds.{two_leds_kit, two_leds_split}
use speed_feed.Visualizer.{Java, Shown}
use speed_feed.Visualizer.Texts.{PlainTexts, split-IsHarmless}
use speed_feed.Visualizer.Splits.{two_leds_signal-silent}
use speed_feed.Visualizer.Following.{
  Showing, Follows, Follows-trans, Follows-quiet, Follows-harmless,
}
use speed_feed.Visualizer.Steady.{
  IsTested, test_gate-IsTested, set-twice, init_case-IsQuiet, close_track-IsQuiet, no_cross-IsQuiet,
}

module _ (D : Double) (B : Bus) (memory : ℕ → Waypoint D.Real) (no_speed : D.Real) (J : Java)
    (value : D.Real → J.Float) (P : PlainTexts D J) where
  open D use {Real}

  abbrev sketch_kit : Kit Real
  sketch_kit = two_leds_kit D memory no_speed

  cross-Follows :
      (gate : Waypoint Real) (t u : Sketch D B sketch_kit) (v : Shown J)
      → cross D B sketch_kit gate t ≡ done u
      → IsTested D B sketch_kit t.wp_next t gate
      → Showing D B sketch_kit J value t v
      → Follows D B sketch_kit J value t u v
  unfolding cross record_split two_leds_kit check_split
  cross-Follows gate t u v h g s =
      let ps = set t.waypoints t.wp_next gate in
      let (prev, e1, h1) = >>=-eq-done (lift (get_elem? ps t.wp_last)) _ h in
      let (first, e2, h2) = >>=-eq-done (lift (get_elem? ps 0)) _ h1 in
      let p = (check_split D gate prev first.last t.lights.world).0 in
      let text = two_leds_split D p t.tracks t.lights in
      let l = record t.lights { world = print_text text (tick t.lights.world) } in
      let signal = two_leds_signal-silent p l s.coloured in
      subst (λ u'. Follows D B sketch_kit J value t u' v) (done-injective h2)
        (Follows-harmless D B sketch_kit J value t
          (record_split D B sketch_kit gate prev first ps t) v text signal.1
          (split-IsHarmless D J P p t.tracks t.lights v) signal.0 refl
          (same_ends p (check_split-ends D gate prev first.last t.lights.world)) s)
    where
      same_ends :
          (p : Waypoint Real)
          → ends p ≡ ends gate
          → map ends (set (set t.waypoints t.wp_next gate) t.wp_next p) ≡ map ends t.waypoints
      same_ends p e =
          ap (map ends) (set-twice t.waypoints t.wp_next gate p)
          ∙ set-ends t.waypoints t.wp_next g.tested p g.is_there (e ∙ g.same)

  race_on-Follows :
      (timer : ℕ) (t u : Sketch D B sketch_kit) (r : Bool × Waypoint Real) (v : Shown J)
      → race_on D B sketch_kit timer t r ≡ done u
      → IsTested D B sketch_kit t.wp_next t r.1
      → Showing D B sketch_kit J value t v
      → Follows D B sketch_kit J value t u v
  unfolding race_on
  race_on-Follows timer t u (true, gate) v h g s = cross-Follows gate t u v h g s
  race_on-Follows timer t u (false, gate) v h g s =
      subst (λ u'. Follows D B sketch_kit J value t u' v) (done-injective h)
        (Follows-quiet D B sketch_kit J value t (no_cross D B sketch_kit timer t) v
          (no_cross-IsQuiet D B memory no_speed timer t s.coloured) s)

  timer_or-silent : (o : Option ℕ) (w : World) → monitor (timer_or o w).1 ≡ monitor w
  unfolding timer_or
  timer_or-silent none w = refl
  timer_or-silent (some n) w = refl

  race_case-Follows :
      (t u : Sketch D B sketch_kit) (v : Shown J)
      → race_case D B sketch_kit t ≡ done u
      → Showing D B sketch_kit J value t v
      → Follows D B sketch_kit J value t u v
  unfolding race_case
  race_case-Follows t u v h s =
      let (timer, w) = timer_or t.reset_timer t.lights.world in
      let t' = record (on_world D B sketch_kit (λ _. w) t) { reset_timer = some timer } in
      let (r, e, h') = >>=-eq-done (test_gate D B sketch_kit t.wp_next t') _ h in
      let q : IsQuiet D B sketch_kit t t' = record {
        silent = (s.coloured, timer_or-silent t.reset_timer t.lights.world);
        same_boot = refl;
        same_ends = refl;
        same_receiver = refl;
      } in
      Follows-trans D B sketch_kit J value t t' u v
        (Follows-quiet D B sketch_kit J value t t' v q s)
        λ v' s'.
          race_on-Follows timer t' u r v' h' (test_gate-IsTested D B sketch_kit t.wp_next t' r e) s'

  pub by_fix-Follows :
      (s : State) (t u : Sketch D B sketch_kit) (v : Shown J)
      → by_fix D B sketch_kit s t ≡ done u
      → Showing D B sketch_kit J value t v
      → Follows D B sketch_kit J value t u v
  unfolding by_fix
  by_fix-Follows st_reset t u v h s =
      Follows-quiet D B sketch_kit J value t u v
        (subst (IsQuiet D B sketch_kit t) (done-injective h)
          (IsQuiet-self D B sketch_kit t s.coloured))
        s
  by_fix-Follows st_init t u v h s =
      Follows-quiet D B sketch_kit J value t u v
        (init_case-IsQuiet D B memory no_speed t u h s.coloured) s
  by_fix-Follows st_sfset t u v h s =
      Follows-quiet D B sketch_kit J value t u v
        (subst (IsQuiet D B sketch_kit t) (done-injective h)
          (IsQuiet-self D B sketch_kit t s.coloured))
        s
  by_fix-Follows st_wpset t u v h s =
      Follows-quiet D B sketch_kit J value t u v
        (close_track-IsQuiet D B memory no_speed t u h s.coloured) s
  by_fix-Follows st_race t u v h s = race_case-Follows t u v h s
