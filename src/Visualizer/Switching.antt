-- ===== src/Visualizer/Switching.antt =====
-- The first `switch` of GPS_tracker_2LEDs_Split, followed by GPS_visualizer.
use mathlib.Core.Path.{subst}
use speed_feed.Common.{
  ℕ, ◌-◌, ◌==◌, ◌≡◌, refl, sym, ◌∙◌, Bool, true, false, [], ◌∷◌, ◌++◌, arith, length, get_elem?,
  if◌then◌else◌,
}
use speed_feed.Double.{Double}
use speed_feed.Waypoint.{Waypoint}
use speed_feed.Geometry.{Point}
use speed_feed.Eeprom.{Bus}
use speed_feed.Tracker.State.{
  Kit, State, st_reset, st_init, st_sfset, st_wpset, st_race, done, >>=-eq-done, ◌>>=◌, lift,
  done-injective,
}
use speed_feed.Tracker.Startup.{Sketch, on_world, reset_case, await_fix}
use speed_feed.Tracker.Setting.{
  any_nan, refuse, add_waypoint, set_here, clear_flag, may_set, wpset_case,
}
use speed_feed.Tracker.Racing.{race_button}
use speed_feed.Tracker.Loop.{by_state}
use speed_feed.Tracker.Quiet.{
  IsQuiet, IsQuiet-self, IsQuiet-trans, await_fix-IsQuiet, refuse-IsQuiet, race_button-IsQuiet,
}
use speed_feed.Tracker.Colours.Button.{add_waypoint-Coloured}
use speed_feed.TwoLeds.{two_leds_kit}
use speed_feed.Visualizer.{Java, Shown}
use speed_feed.Visualizer.Setting.{new_gate, new_gate-monitor, add_waypoint-shown}
use speed_feed.Visualizer.Follow.{
  TrackReads, TrackReads-last, corners_read, ShowsTrack, with_gate, with_gate-ShowsTrack,
}
use speed_feed.Visualizer.Following.{Showing, Follows, Follows-quiet}

module _ (D : Double) (B : Bus) (memory : ℕ → Waypoint D.Real) (no_speed : D.Real) (J : Java)
    (value : D.Real → J.Float) where
  open D use {Real}

  abbrev kit : Kit Real
  kit = two_leds_kit D memory no_speed

  -- the gates of a sketch, as texts
  abbrev Told : Sketch D B kit → Type 0
  Told t = TrackReads D J value t.waypoints

  add_waypoint-set :
      (p1 p2 : Point Real) (t : Sketch D B kit)
      → any_nan D B kit (new_gate D B kit p1 p2 t).0 ≡ false
      → ((add_waypoint D B kit p1 p2 t).boot_flag ≡ t.boot_flag)
        × ((add_waypoint D B kit p1 p2 t).waypoints
            ≡ t.waypoints ++ ((new_gate D B kit p1 p2 t).0 ∷ []))
  unfolding add_waypoint
  add_waypoint-set p1 p2 t e = rw (e) (refl, refl)

  refused-Follows :
      (p1 p2 : Point Real) (t : Sketch D B kit) (v : Shown J)
      → any_nan D B kit (new_gate D B kit p1 p2 t).0 ≡ true
      → Showing D B kit J value t v
      → Follows D B kit J value t (add_waypoint D B kit p1 p2 t) v
  unfolding add_waypoint
  refused-Follows p1 p2 t v e s =
      let t' = on_world D B kit (λ _. (new_gate D B kit p1 p2 t).1) t in
      let built : IsQuiet D B kit t t' = record {
        silent = (s.coloured, new_gate-monitor D B kit p1 p2 t);
        same_boot = refl;
        same_ends = refl;
        same_receiver = refl;
      } in
      let q =
        IsQuiet-trans D B kit t t' (refuse D B kit t') built
          (refuse-IsQuiet D B kit t' s.coloured) in
      rw (e) (Follows-quiet D B kit J value t (refuse D B kit t') v q s)

  set-Follows :
      (p1 p2 : Point Real) (t : Sketch D B kit) (v : Shown J)
      → any_nan D B kit (new_gate D B kit p1 p2 t).0 ≡ false
      → Told (add_waypoint D B kit p1 p2 t)
      → Showing D B kit J value t v
      → Follows D B kit J value t (add_waypoint D B kit p1 p2 t) v
  set-Follows p1 p2 t v e g s =
      let p = (new_gate D B kit p1 p2 t).0 in
      let told =
        add_waypoint-shown D B memory no_speed J p1 p2 (corners_read D J value p) t v e
          (TrackReads-last D J value t.waypoints p
            (subst (TrackReads D J value) (add_waypoint-set p1 p2 t e).1 g))
          s.coloured in
      record {
        view = with_gate D J value t.waypoints p v;
        told = told;
        showing = record {
          coloured = add_waypoint-Coloured D B kit p1 p2 t s.coloured;
          booted = (add_waypoint-set p1 p2 t e).0 ∙ s.booted;
          shown =
              subst (λ ps. ShowsTrack D J value ps (with_gate D J value t.waypoints p v))
                (sym (add_waypoint-set p1 p2 t e).1)
                (with_gate-ShowsTrack D J value t.waypoints p v s.shown);
        };
      }

  add_waypoint-Follows :
      (p1 p2 : Point Real) (t : Sketch D B kit) (v : Shown J)
      → Told (add_waypoint D B kit p1 p2 t)
      → Showing D B kit J value t v
      → Follows D B kit J value t (add_waypoint D B kit p1 p2 t) v
  add_waypoint-Follows p1 p2 t v g s = by_nan (any_nan D B kit (new_gate D B kit p1 p2 t).0) refl
    where
      by_nan :
          (b : Bool)
          → any_nan D B kit (new_gate D B kit p1 p2 t).0 ≡ b
          → Follows D B kit J value t (add_waypoint D B kit p1 p2 t) v
      by_nan true e = refused-Follows p1 p2 t v e s
      by_nan false e = set-Follows p1 p2 t v e g s

  -- the first `switch`, which leaves the receiver alone
  abbrev Goes : Sketch D B kit → Sketch D B kit → Shown J → Type 0
  Goes t u v = Follows D B kit J value t u v × (u.receiver ≡ t.receiver)

  quiet-Goes :
      (t u : Sketch D B kit) (v : Shown J)
      → IsQuiet D B kit t u
      → Showing D B kit J value t v
      → Goes t u v
  quiet-Goes t u v q s = (Follows-quiet D B kit J value t u v q s, q.same_receiver)

  add_waypoint-receiver :
      (p1 p2 : Point Real) (t : Sketch D B kit)
      → (add_waypoint D B kit p1 p2 t).receiver ≡ t.receiver
  unfolding add_waypoint refuse
  add_waypoint-receiver p1 p2 t = ground arith

  set_here-Goes :
      (t u : Sketch D B kit) (v : Shown J)
      → set_here D B kit t ≡ done u
      → Told u
      → Showing D B kit J value t v
      → Goes t u v
  unfolding set_here
  set_here-Goes t u v h g s =
      let (p1, e1, h1) = >>=-eq-done (lift (get_elem? t.tracks (length t.tracks - 2))) _ h in
      let (p2, e2, h2) = >>=-eq-done (lift (get_elem? t.tracks (length t.tracks - 1))) _ h1 in
      subst (λ u'. Told u' → Goes t u' v) (done-injective h2)
        (λ g'. (add_waypoint-Follows p1 p2 t v g' s, add_waypoint-receiver p1 p2 t)) g

  clear_flag-Goes :
      (t u : Sketch D B kit) (v : Shown J) → Goes t u v → Goes t (clear_flag D B kit u) v
  clear_flag-Goes t u v (f, r) = (
    record {
      view = f.view;
      told = f.told;
      showing = record {
        coloured = f.showing.coloured;
        booted = f.showing.booted;
        shown = f.showing.shown;
      };
    },
    r,
  )

  press-Goes :
      (may : Bool) (t u : Sketch D B kit) (v : Shown J)
      → ((if may then set_here D B kit t else done (refuse D B kit t)) >>= λ t'.
          done (clear_flag D B kit t'))
        ≡ done u
      → Told u
      → Showing D B kit J value t v
      → Goes t u v
  press-Goes true t u v h g s =
      let (t', e, h') = >>=-eq-done (set_here D B kit t) _ h in
      subst (λ u'. Told u' → Goes t u' v) (done-injective h')
        (λ g'. clear_flag-Goes t t' v (set_here-Goes t t' v e g' s)) g
  press-Goes false t u v h g s =
      subst (λ u'. Goes t u' v) (done-injective h)
        (clear_flag-Goes t (refuse D B kit t) v
          (quiet-Goes t (refuse D B kit t) v (refuse-IsQuiet D B kit t s.coloured) s))

  self-Goes : (t : Sketch D B kit) (v : Shown J) → Showing D B kit J value t v → Goes t t v
  self-Goes t v s = quiet-Goes t t v (IsQuiet-self D B kit t s.coloured) s

  wpset_case-Goes :
      (pressed : Bool) (t u : Sketch D B kit) (v : Shown J)
      → (if pressed
          then ((if may_set D B kit t then set_here D B kit t else done (refuse D B kit t))
              >>= λ t'. done (clear_flag D B kit t'))
          else done t)
        ≡ done u
      → Told u
      → Showing D B kit J value t v
      → Goes t u v
  wpset_case-Goes true t u v h g s = press-Goes (may_set D B kit t) t u v h g s
  wpset_case-Goes false t u v h g s = subst (λ u'. Goes t u' v) (done-injective h) (self-Goes t v s)

  reset_case-await :
      (patience : ℕ) (t : Sketch D B kit)
      → t.boot_flag ≡ 1
      → reset_case D B kit patience t ≡ done (await_fix D B kit t)
  unfolding reset_case
  reset_case-await patience t h = rw (h) refl

  pub by_state-Goes :
      (patience : ℕ) (s : State) (t u : Sketch D B kit) (v : Shown J)
      → by_state D B kit patience s t ≡ done u
      → (s ≡ st_wpset → Told u)
      → Showing D B kit J value t v
      → Goes t u v
  unfolding by_state wpset_case
  by_state-Goes patience st_reset t u v h g s =
      subst (λ u'. Goes t u' v) (done-injective (sym (reset_case-await patience t s.booted) ∙ h))
        (quiet-Goes t (await_fix D B kit t) v (await_fix-IsQuiet D B kit t s.coloured) s)
  by_state-Goes patience st_init t u v h g s =
      subst (λ u'. Goes t u' v) (done-injective h) (self-Goes t v s)
  by_state-Goes patience st_sfset t u v h g s =
      subst (λ u'. Goes t u' v) (done-injective h) (self-Goes t v s)
  by_state-Goes patience st_wpset t u v h g s = wpset_case-Goes (t.pb_flag == 1) t u v h (g refl) s
  by_state-Goes patience st_race t u v h g s =
      subst (λ u'. Goes t u' v) (done-injective h)
        (quiet-Goes t (race_button D B kit t) v (race_button-IsQuiet D B kit t s.coloured) s)
