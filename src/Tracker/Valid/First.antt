-- ===== src/Tracker/Valid/First.antt =====
-- The first `switch` of the loop keeps the invariant.
use mathlib.Core.Path.{subst}
use speed_feed.Common.{
  ℕ, ◌-◌, ◌<◌, ◌≡◌, Bool, true, false, some, List, [], ◌∷◌, arith, length, length-append,
  if◌then◌else◌, get_elem?,
}
use speed_feed.Platform.{World, sample}
use speed_feed.Double.{Double}
use speed_feed.Waypoint.{Waypoint, new_waypoint}
use speed_feed.Geometry.{Point}
use speed_feed.Eeprom.{Bus, load_waypoints}
use speed_feed.Tracker.State.{
  Kit, lift-eq-done, done-injective, disk1, State, st_reset, st_init, st_sfset, st_wpset, st_race,
  done, >>=-eq-done, ◌>>=◌, lift,
}
use speed_feed.Tracker.Startup.{
  Sketch, await_fix, enter_service, load_track, boot, on_world, reset_case, send_waypoints,
}
use speed_feed.Tracker.Setting.{add_waypoint, set_here, may_set, clear_flag, wpset_case, refuse}
use speed_feed.Tracker.Racing.{race_button}
use speed_feed.Tracker.Loop.{by_state}
use speed_feed.Tracker.Valid.{IsValid}
use speed_feed.Tracker.Valid.Lengths.{length-reset, length-load_waypoints}

module _ (D : Double) (B : Bus) (kit : Kit D.Real) where
  await_fix-IsValid :
      (t : Sketch D B kit)
      → 0 < length t.waypoints
      → IsValid D B kit t
      → IsValid D B kit (await_fix D B kit t)
  unfolding await_fix
  await_fix-IsValid t n v = ground arith

  race_button-IsValid :
      (t : Sketch D B kit) → IsValid D B kit t → IsValid D B kit (race_button D B kit t)
  unfolding race_button
  race_button-IsValid t v = ground (arith, length-reset D t.waypoints)

  -- `sendWaypoints` of an empty vector is a fault.
  send_waypoints-nonempty :
      (ps : List (Waypoint D.Real)) (w : World) {w' : World}
      → send_waypoints D ps w ≡ some w'
      → 0 < length ps
  unfolding send_waypoints
  send_waypoints-nonempty [] w h = cc
  send_waypoints-nonempty (p ∷ ps) w h = omega arith

  load_track-IsValid :
      (t u : Sketch D B kit)
      → load_track D B kit t ≡ done u
      → IsValid D B kit t
      → IsValid D B kit u × (0 < length u.waypoints)
  unfolding load_track
  load_track-IsValid t u h v =
      let r = load_waypoints D B kit.memory disk1 0 t.waypoints t.lights.world t.eeprom in
      let (lines, e, h') = >>=-eq-done (lift (send_waypoints D r.0 r.1)) _ h in
      let nonempty = send_waypoints-nonempty r.0 r.1 (lift-eq-done (send_waypoints D r.0 r.1) e) in
      let grows =
        length-load_waypoints D B kit.memory disk1 0 t.waypoints t.lights.world t.eeprom in
      ground (arith, h', nonempty, grows)

  enter_service-IsValid :
      (patience : ℕ) (t u : Sketch D B kit)
      → enter_service D B kit patience t ≡ done u
      → IsValid D B kit t
      → IsValid D B kit u
  unfolding enter_service
  enter_service-IsValid patience t u h v = ground arith

  load_and_await-IsValid :
      (t u : Sketch D B kit)
      → (load_track D B kit t >>= λ t'. done (await_fix D B kit t')) ≡ done u
      → IsValid D B kit t
      → IsValid D B kit u
  load_and_await-IsValid t u h v =
      let (t', e, h') = >>=-eq-done (load_track D B kit t) _ h in
      let r = load_track-IsValid t t' e v in
      subst (IsValid D B kit) (done-injective h') (await_fix-IsValid t' r.1 r.0)

  boot-IsValid :
      (patience : ℕ) (t u : Sketch D B kit)
      → boot D B kit patience t ≡ done u
      → IsValid D B kit t
      → IsValid D B kit u
  unfolding boot
  boot-IsValid patience t u h v =
      let t' = on_world D B kit sample t in
      let v' : IsValid D B kit t' = ground arith in
      ground (arith, load_and_await-IsValid t' u, enter_service-IsValid patience t' u)

  reset_case-IsValid :
      (patience : ℕ) (t u : Sketch D B kit)
      → reset_case D B kit patience t ≡ done u
      → t.next_state ≡ st_reset
      → IsValid D B kit t
      → IsValid D B kit u
  unfolding reset_case
  reset_case-IsValid patience t u h e v =
      ground (arith, boot-IsValid patience t u, await_fix-IsValid t)

  add_waypoint-IsValid :
      (p1 p2 : Point D.Real) (t : Sketch D B kit)
      → t.next_state ≡ st_wpset
      → IsValid D B kit t
      → IsValid D B kit (add_waypoint D B kit p1 p2 t)
  unfolding add_waypoint
  add_waypoint-IsValid p1 p2 t e v =
      let p =
        (new_waypoint D (kit.memory (length t.waypoints)) p1.x p1.y p2.x p2.y (D.literal 72)
          t.lights.world).0 in
      ground (arith, length-append t.waypoints (p ∷ []))

  set_here-IsValid :
      (t u : Sketch D B kit)
      → set_here D B kit t ≡ done u
      → t.next_state ≡ st_wpset
      → IsValid D B kit t
      → IsValid D B kit u
  unfolding set_here
  set_here-IsValid t u h e v =
      let (p1, e1, h1) = >>=-eq-done (lift (get_elem? t.tracks (length t.tracks - 2))) _ h in
      let (p2, e2, h2) = >>=-eq-done (lift (get_elem? t.tracks (length t.tracks - 1))) _ h1 in
      subst (IsValid D B kit) (done-injective h2) (add_waypoint-IsValid p1 p2 t e v)

  clear_flag-IsValid :
      (t : Sketch D B kit) → IsValid D B kit t → IsValid D B kit (clear_flag D B kit t)
  clear_flag-IsValid t v = ground arith

  press-IsValid :
      (may_set : Bool) (t u : Sketch D B kit)
      → ((if may_set then set_here D B kit t else done (refuse D B kit t)) >>= λ t'.
          done (clear_flag D B kit t'))
        ≡ done u
      → t.next_state ≡ st_wpset
      → IsValid D B kit t
      → IsValid D B kit u
  unfolding refuse
  press-IsValid true t u h e v =
      let (t', e', h') = >>=-eq-done (set_here D B kit t) _ h in
      subst (IsValid D B kit) (done-injective h')
        (clear_flag-IsValid t' (set_here-IsValid t t' e' e v))
  press-IsValid false t u h e v = ground arith

  wpset_case-IsValid :
      (t u : Sketch D B kit)
      → wpset_case D B kit t ≡ done u
      → t.next_state ≡ st_wpset
      → IsValid D B kit t
      → IsValid D B kit u
  unfolding wpset_case
  wpset_case-IsValid t u h e v = ground (arith, press-IsValid (may_set D B kit t) t u)

  -- The first `switch` keeps the invariant, in every state in which a pass can begin.
  pub by_state-IsValid :
      (patience : ℕ) (s : State) (t u : Sketch D B kit)
      → by_state D B kit patience s t ≡ done u
      → t.next_state ≡ s
      → IsValid D B kit t
      → IsValid D B kit u
  unfolding by_state
  by_state-IsValid patience st_reset t u h e v = reset_case-IsValid patience t u h e v
  by_state-IsValid patience st_init t u h e v = ground arith
  by_state-IsValid patience st_sfset t u h e v = ground arith
  by_state-IsValid patience st_wpset t u h e v = wpset_case-IsValid t u h e v
  by_state-IsValid patience st_race t u h e v =
      subst (IsValid D B kit) (done-injective h) (race_button-IsValid t v)
