-- ===== src/Tracker/Laps/First.antt =====
-- The first `switch` of the loop as steps of the lap timer.
use speed_feed.Tracker.Laps.View.{times, is_race, times-reset, timer, timer_eq}
use speed_feed.Tracker.Laps.Cross.{Refines, SameTimer, Refines-same}
use speed_feed.Tracker.Racing.{note_press, hold_reset, race_button}
use speed_feed.Tracker.Laps.{Step, Steps, one, Steps-trans}
use speed_feed.Tracker.Setting.{refuse, add_waypoint, set_here, clear_flag, may_set, wpset_case}
use speed_feed.Tracker.Loop.{by_state}
use speed_feed.Tracker.Button.{wait_release}
use speed_feed.Tracker.State.{
  ◌>>=◌, State, st_reset, st_init, st_sfset, st_wpset, st_race, Kit, disk1, done, lift, >>=-eq-done,
  done-injective,
}
use speed_feed.Common.{
  if◌then◌else◌, length, get_elem?, ℕ, ◌-◌, ◌≡◌, refl, sym, ap, ◌∙◌, ◌⊎◌, inl, inr, Bool, true,
  false, List, [], ◌∷◌, ◌++◌, map, arith,
}
use speed_feed.Double.{Double}
use speed_feed.Eeprom.{Bus, load_waypoints}
use speed_feed.Waypoint.{Waypoint, new_waypoint, reset}
use speed_feed.Tracker.Startup.{
  on_world, send_waypoints, Sketch, enter_service, load_track, to_init, await_fix, boot, reset_case,
}
use speed_feed.Platform.{sample}
use speed_feed.Geometry.{Point}
use mathlib.Core.Path.{subst}

map-append : {A B : Type 0} (f : A → B) (xs ys : List A) → map f (xs ++ ys) ≡ map f xs ++ map f ys
map-append f [] ys = refl
map-append f (x ∷ xs) ys = ap (λ l. f x ∷ l) (map-append f xs ys)

module _ (D : Double) (B : Bus) (kit : Kit D.Real) where
  open D use {Real, literal}

  await_fix-SameTimer :
      (t : Sketch D B kit) → t.next_state ≡ st_reset → SameTimer D B kit t (await_fix D B kit t)
  unfolding await_fix to_init
  await_fix-SameTimer t n = ground arith

  load_track-Refines :
      (t u : Sketch D B kit)
      → load_track D B kit t ≡ done u
      → t.next_state ≡ st_reset
      → Refines D B kit t u × (u.next_state ≡ st_reset)
  unfolding load_track
  load_track-Refines t u h n =
      let r = load_waypoints D B kit.memory disk1 0 t.waypoints t.lights.world t.eeprom in
      let (lines, e, h') = >>=-eq-done (lift (send_waypoints D r.0 r.1)) _ h in
      subst (λ (v : Sketch D B kit). Refines D B kit t v × (v.next_state ≡ st_reset))
        (done-injective h') (one (Step.loads (map times r.0) (ap is_race n)), n)

  load_and_await-Refines :
      (t u : Sketch D B kit)
      → (load_track D B kit t >>= λ t'. done (await_fix D B kit t')) ≡ done u
      → t.next_state ≡ st_reset
      → Refines D B kit t u
  load_and_await-Refines t u h n =
      let (t', e, h') = >>=-eq-done (load_track D B kit t) _ h in
      let (steps, n') = load_track-Refines t t' e n in
      subst (Refines D B kit t) (done-injective h') (
        Steps-trans steps
          (Refines-same D B kit t' (await_fix D B kit t') (await_fix-SameTimer t' n')))

  enter_service-Refines :
      (patience : ℕ) (t u : Sketch D B kit)
      → enter_service D B kit patience t ≡ done u
      → t.next_state ≡ st_reset
      → Refines D B kit t u
  unfolding enter_service
  enter_service-Refines patience t u h n =
      let (w, e, h') = >>=-eq-done (wait_release patience t.lights.world) _ h in
      subst (Refines D B kit t) (done-injective h') (
        subst
          (λ (r : Bool).
            Steps (timer D B kit t) (record (timer D B kit t) { next_gate = 0; racing = r }))
          (ap is_race n) (one (Step.sets_up (ap is_race n))))

  reset_case-Refines :
      (patience : ℕ) (t u : Sketch D B kit)
      → reset_case D B kit patience t ≡ done u
      → t.next_state ≡ st_reset
      → Refines D B kit t u
  unfolding reset_case boot
  reset_case-Refines patience t u h n =
      let t' = on_world D B kit sample t in
      ground (
        arith,
        load_and_await-Refines t' u,
        enter_service-Refines patience t' u,
        λ (k : done (await_fix D B kit t) ≡ done u).
            subst (Refines D B kit t) (done-injective k)
              (Refines-same D B kit t (await_fix D B kit t) (await_fix-SameTimer t n)),
      )

  -- The gate p is set.
  record SetsGate (p : Waypoint Real) (t u : Sketch D B kit) : Type 0 where
    added : u.waypoints ≡ t.waypoints ++ (p ∷ [])
    sets_last : u.wp_last ≡ t.wp_last
    sets_next : u.wp_next ≡ t.wp_next
    sets_race : is_race u.next_state ≡ is_race t.next_state

  add_waypoint-either :
      (p1 p2 : Point Real) (t : Sketch D B kit)
      → SameTimer D B kit t (add_waypoint D B kit p1 p2 t)
        ⊎ SetsGate
            (new_waypoint D
              (kit.memory (length t.waypoints))
              p1.x
              p1.y
              p2.x
              p2.y
              (literal 72)
              t.lights.world).0
            t
            (add_waypoint D B kit p1 p2 t)
  unfolding add_waypoint refuse
  add_waypoint-either p1 p2 t = ground arith

  set_either-Refines :
      (p : Waypoint Real) (t u : Sketch D B kit)
      → SameTimer D B kit t u ⊎ SetsGate p t u
      → is_race t.next_state ≡ false
      → Refines D B kit t u
  set_either-Refines p t u (inl s) n = Refines-same D B kit t u s
  set_either-Refines p t u (inr g) n =
      subst (Steps (timer D B kit t))
        (timer_eq D B kit (sym (ap (map times) g.added ∙ map-append times t.waypoints (p ∷ [])))
          (sym g.sets_last) (sym g.sets_next) (sym g.sets_race))
        (one (Step.sets_gate (times p) n))

  set_here-Refines :
      (t u : Sketch D B kit)
      → set_here D B kit t ≡ done u
      → is_race t.next_state ≡ false
      → Refines D B kit t u
  unfolding set_here
  set_here-Refines t u h n =
      let (p1, e1, h1) = >>=-eq-done (lift (get_elem? t.tracks (length t.tracks - 2))) _ h in
      let (p2, e2, h2) = >>=-eq-done (lift (get_elem? t.tracks (length t.tracks - 1))) _ h1 in
      subst (Refines D B kit t) (done-injective h2)
        (set_either-Refines _ t (add_waypoint D B kit p1 p2 t) (add_waypoint-either p1 p2 t) n)

  press-Refines :
      (may_set : Bool) (t u : Sketch D B kit)
      → ((if may_set then set_here D B kit t else done (refuse D B kit t)) >>= λ t'.
          done (clear_flag D B kit t'))
        ≡ done u
      → is_race t.next_state ≡ false
      → Refines D B kit t u
  unfolding refuse
  press-Refines true t u h n =
      let (t', e', h') = >>=-eq-done (set_here D B kit t) _ h in
      subst (Refines D B kit t) (done-injective h') (set_here-Refines t t' e' n)
  press-Refines false t u h n = subst (Refines D B kit t) (done-injective h) Steps.none_yet

  wpset_case-Refines :
      (t u : Sketch D B kit)
      → wpset_case D B kit t ≡ done u
      → is_race t.next_state ≡ false
      → Refines D B kit t u
  unfolding wpset_case
  wpset_case-Refines t u h n = ground (
    arith,
    press-Refines (may_set D B kit t) t u,
    λ (k : done t ≡ done u). subst (Refines D B kit t) (done-injective k) Steps.none_yet,
  )

  -- The times are cleared.
  record Clears (t u : Sketch D B kit) : Type 0 where
    cleared : u.waypoints ≡ reset D t.waypoints
    clears_last : u.wp_last ≡ t.wp_last
    clears_next : u.wp_next ≡ t.wp_next
    clears_race : is_race u.next_state ≡ is_race t.next_state

  race_button-either :
      (t : Sketch D B kit)
      → SameTimer D B kit t (race_button D B kit t) ⊎ Clears t (race_button D B kit t)
  unfolding race_button note_press hold_reset
  race_button-either t = ground arith

  clear_either-Refines :
      (t u : Sketch D B kit)
      → SameTimer D B kit t u ⊎ Clears t u
      → is_race t.next_state ≡ true
      → Refines D B kit t u
  clear_either-Refines t u (inl s) n = Refines-same D B kit t u s
  clear_either-Refines t u (inr g) n =
      subst (Steps (timer D B kit t))
        (timer_eq D B kit (sym (ap (map times) g.cleared ∙ times-reset D t.waypoints))
          (sym g.clears_last) (sym g.clears_next) (sym g.clears_race))
        (one (Step.clears n))

  pub by_state-Refines :
      (patience : ℕ) (s : State) (t u : Sketch D B kit)
      → by_state D B kit patience s t ≡ done u
      → t.next_state ≡ s
      → Refines D B kit t u
  unfolding by_state
  by_state-Refines patience st_reset t u h n = reset_case-Refines patience t u h n
  by_state-Refines patience st_init t u h n =
      subst (Refines D B kit t) (done-injective h) Steps.none_yet
  by_state-Refines patience st_sfset t u h n =
      subst (Refines D B kit t) (done-injective h) Steps.none_yet
  by_state-Refines patience st_wpset t u h n = wpset_case-Refines t u h (ap is_race n)
  by_state-Refines patience st_race t u h n =
      subst (Refines D B kit t) (done-injective h)
        (clear_either-Refines t (race_button D B kit t) (race_button-either t) (ap is_race n))
